-- ===== src/Tests/Workflows.antt =====
-- Workflows with and without a cycle.
use awsbnkctl.Base.{
  ◌≡◌, refl, ◌↔◌, trim_space, ℕ, String, Bool, true, false, Option, none, some, List, [], ◌∷◌,
}
use awsbnkctl.Ciwatch.{
  WorkflowJob, Jobs, topo_depth, build_graph, add_revs, queue_zeros, search, visit_children,
}
use awsbnkctl.Ciwatch.Kahn.Ranked.{IsRanking, topo_depth_ranks}
use awsbnkctl.Ciwatch.Phase.{failed, Job, classify_phase, aggregate_phase, worst_of}
use awsbnkctl.Ciwatch.Cells.{IsFirst, aggregate_phase-IsFirst}

abbrev needing : List String → WorkflowJob
needing ids = record { name = ""; needs = ids }

abbrev diamond : Jobs
diamond =
    ("build", needing [])
    ∷ ("test", needing ("build" ∷ []))
    ∷ ("lint", needing [])
    ∷ ("ship", needing ("lint" ∷ "test" ∷ []))
    ∷ []

-- `b` and `c` need each other, and `b` needs `a` too.
abbrev looped : Jobs
looped = ("a", needing []) ∷ ("b", needing ("a" ∷ "c" ∷ [])) ∷ ("c", needing ("b" ∷ [])) ∷ []

abbrev same_order : List String → List String
same_order ids = ids

abbrev depth_at : String → Option ((String → ℕ) × Bool) → Option (ℕ × Bool)
depth_at id none = none
depth_at id (some (depth, cycle)) = some (depth id, cycle)

ship_depth : depth_at "ship" (topo_depth same_order diamond) ≡ some (2, false)
unfolding topo_depth build_graph add_revs queue_zeros search visit_children
ship_depth = refl

-- A member of a cycle is not left at depth 0.
looped_depth : depth_at "b" (topo_depth same_order looped) ≡ some (1, true)
unfolding topo_depth build_graph add_revs queue_zeros search visit_children
looped_depth = refl

-- A need that is no job is reported as a cycle.
missing_need :
    depth_at "a" (topo_depth same_order (("a", needing ("gone" ∷ [])) ∷ [])) ≡ some (0, true)
unfolding topo_depth build_graph add_revs queue_zeros search visit_children
missing_need = refl

topo_depth_ranks_example :
    (depth : String → ℕ) × (cycle : Bool) × (topo_depth same_order diamond ≡ some (depth, cycle))
    × ((cycle ≡ false) ↔ IsRanking diamond depth)
    × ((cycle ≡ false) ↔ ((rank : String → ℕ) × IsRanking diamond rank))
topo_depth_ranks_example =
    topo_depth_ranks diamond (refl, (refl, (refl, (refl, tt)))) same_order (λ ids c. refl)

abbrev job : String → Job
job conclusion = record { name = "test"; status = "completed"; conclusion = conclusion; steps = [] }

abbrev as_is : String → String
as_is s = s

abbrev legs : List Job
legs = job "success" ∷ job "timed_out" ∷ job "skipped" ∷ []

worst_leg : aggregate_phase as_is legs ≡ failed
unfolding aggregate_phase worst_of classify_phase trim_space
worst_leg = refl

aggregate_phase-IsFirst_example : IsFirst as_is (aggregate_phase as_is legs) legs
aggregate_phase-IsFirst_example = aggregate_phase-IsFirst as_is legs
