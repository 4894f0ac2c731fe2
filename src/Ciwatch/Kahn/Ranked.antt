-- ===== src/Ciwatch/Kahn/Ranked.antt =====
-- tools/ciwatch/dag.go: the depths of topoDepth, and when it reports a cycle.
use Prim.Native.Nat.{zero}
use awsbnkctl.Base.{
  ◌≡◌, refl, ap, ◌∙◌, arith, inl, inr, ◌↔◌, ℕ, suc, ◌+◌, ◌<◌, ◌≤◌, String, Bool, true, false, some,
  List, [], ◌∷◌, ◌++◌, ◌==◌, length, length-append, lookup, ltb, contains, Bool-cases,
}
use awsbnkctl.Ciwatch.{
  Jobs, Rev, Search, build_graph, empty_graph, ids_of, first_search, visit_children, search,
  topo_depth,
}
use awsbnkctl.Ciwatch.Kahn.{
  bit, count, count-append, needs_of, is_job, AreDistinct, left, is_free, Inv,
}
use awsbnkctl.Ciwatch.Kahn.Counting.{total, length_total, total_bounded, total_full, total_of_all}
use awsbnkctl.Ciwatch.Kahn.Needs.{
  counted_job, left_zero, zero_of_all, needs_job, one_contains, not_less, less_not, length_ids,
}
use awsbnkctl.Ciwatch.Kahn.Built.{count-ids_of, build_graph-Reverses, first_search-Inv}
use awsbnkctl.Ciwatch.Kahn.Rounds.{Reverses, round-Inv, at_most_one, there_positive, counted_left}

-- Every need is a job, and stands below the job that needs it.
abbrev pub IsRanking : Jobs → (String → ℕ) → Type 0
IsRanking jobs rank =
    (c d : String)
    → contains (needs_of jobs c) d ≡ true
    → (is_job jobs d ≡ true) × (rank d < rank c)

module _ (jobs : Jobs) (distinct : AreDistinct jobs) where
  -- Everything in the queue or done is a job, and stands there once.
  listed_once :
      (done : List String) (k : Search)
      → Inv jobs done k
      → (c : String) → count c (done ++ k.queue) ≤ 1
  listed_once done k inv c =
      let all = count-append c done k.queue in
      let one = at_most_one (is_free jobs done c) in omega (arith, inv.once c)

  listed_job :
      (done : List String) (k : Search)
      → Inv jobs done k
      → (c : String) → contains (done ++ k.queue) c ≡ true
      → count c (ids_of jobs) ≡ 1
  listed_job done k inv c h =
      let is_there = there_positive (done ++ k.queue) c h in
      let free = count-append c done k.queue ∙ inv.once c in
      let job =
        counted_job (is_job jobs c) (left done (needs_of jobs c) == 0) (count c (done ++ k.queue))
          is_there free in
      count-ids_of jobs c distinct ∙ ap bit job

  -- There is room for each of them.
  listed_fit :
      (done : List String) (k : Search)
      → Inv jobs done k
      → length done + length k.queue ≤ length (ids_of jobs)
  listed_fit done k inv =
      let all = done ++ k.queue in
      let whole = length_total (ids_of jobs) all (listed_job done k inv) in
      let bound = total_bounded (ids_of jobs) all (listed_once done k inv) in
      omega (arith, length-append done k.queue)

  -- Enough fuel empties the queue.
  search_ends :
      (fuel : ℕ) (rev : Rev) (done : List String) (k : Search) (q : List String)
      → Reverses jobs rev
      → Inv jobs done (record k { queue = q })
      → length (ids_of jobs) ≤ fuel + length done
      → (fin : List String) × (k' : Search) × (search fuel rev (length done) k q
          ≡ some (k', length fin))
        × Inv jobs fin (record k' { queue = [] })
  unfolding search
  search_ends fuel rev done k [] r inv enough = (done, k, refl, inv)
  search_ends zero rev done k (id ∷ q) r inv enough =
      let fit = listed_fit done (record k { queue = id ∷ q }) inv in absurd (omega arith)
  search_ends (suc fuel) rev done k (id ∷ q) r inv enough =
      let k' = visit_children id (rev id) (record k { queue = q }) in
      search_ends fuel rev (id ∷ done) k' k'.queue r (round-Inv jobs rev done id q k r inv)
        (omega arith)

  module _ (fin : List String) (k : Search) (inv : Inv jobs fin (record k { queue = [] })) where
    fin_free :
        (c : String)
        → contains fin c ≡ true
        → (is_job jobs c ≡ true) × (left fin (needs_of jobs c) ≡ 0)
    fin_free c h =
        let there = there_positive fin c h in
        let once : count c fin ≡ bit (is_free jobs fin c) = omega (arith, inv.once c) in
        (
          counted_job (is_job jobs c) (left fin (needs_of jobs c) == 0) (count c fin) there once,
          counted_left (is_job jobs c) (left fin (needs_of jobs c)) (count c fin) there once,
        )

    fin_total : length fin ≡ total (ids_of jobs) fin
    fin_total =
        length_total (ids_of jobs) fin
          (λ c h. count-ids_of jobs c distinct ∙ ap bit (fin_free c h).0)

    fin_once : (c : String) → count c fin ≤ 1
    fin_once c = let one = at_most_one (is_free jobs fin c) in omega (arith, inv.once c)

    key_is_job : (c : String) → contains (ids_of jobs) c ≡ true → is_job jobs c ≡ true
    key_is_job c h = elim (Bool-cases (is_job jobs c)) [
      | inl e ↦ e
      | inr e ↦ absurd (there_positive (ids_of jobs) c h (count-ids_of jobs c distinct ∙ ap bit e))
    ]

    -- When every job is done, the depths are a ranking.
    depth-IsRanking : length jobs ≤ length fin → IsRanking jobs k.depth
    depth-IsRanking full c d need =
        let job = needs_job (lookup c jobs) d need in
        let key = one_contains (ids_of jobs) c (count-ids_of jobs c distinct ∙ ap bit job) in
        let room : length (ids_of jobs) ≤ total (ids_of jobs) fin =
          omega (arith, fin_total, length_ids jobs) in
        let done = one_contains fin c (total_full (ids_of jobs) fin fin_once room c key) in
        let d_done = left_zero fin (needs_of jobs c) d (fin_free c done).1 need in
        ((fin_free d d_done).0, inv.deeper c d need d_done)

    ranked_once :
        (rank : String → ℕ) (n : ℕ) (c : String)
        → IsRanking jobs rank
        → rank c < n
        → is_job jobs c ≡ true
        → count c fin ≡ 1
    ranked_once rank zero c r low job = absurd (omega arith)
    ranked_once rank (suc n) c r low job =
        let none_left = zero_of_all fin (needs_of jobs c) (λ d need.
          let (d_job, below) = r c d need in
          one_contains fin d (ranked_once rank n d r (omega arith) d_job)) in
        let free : is_free jobs fin c ≡ true = rw (job, none_left) refl in
        omega (arith, inv.once c ∙ ap bit free)

    -- When there is a ranking, every job is done.
    ranked_full : (rank : String → ℕ) → IsRanking jobs rank → length jobs ≤ length fin
    ranked_full rank r =
        let whole =
          total_of_all (ids_of jobs) fin
            (λ c h. ranked_once rank (suc (rank c)) c r (omega arith) (key_is_job c h)) in
        omega (arith, fin_total, length_ids jobs)

  -- When the two loops visit each job once, topoDepth returns within as many rounds as there are jobs;
  -- it reports no cycle if and only if the depths are a ranking of the jobs, that is each need is a
  -- job of a smaller depth, and if and only if the jobs have any such ranking.
  pub topo_depth_ranks :
      (visit : List String → List String)
      → ((ids : List String) (c : String) → count c (visit ids) ≡ count c ids)
      → (depth : String → ℕ) × (cycle : Bool) × (topo_depth visit jobs ≡ some (depth, cycle))
        × ((cycle ≡ false) ↔ IsRanking jobs depth)
        × ((cycle ≡ false) ↔ ((rank : String → ℕ) × IsRanking jobs rank))
  unfolding topo_depth
  topo_depth_ranks visit visits =
      let g = build_graph jobs empty_graph in
      let k = first_search visit jobs g in
      let (fin, k', found, inv) =
        search_ends (length jobs) g.rev [] k k.queue (build_graph-Reverses jobs distinct)
          (first_search-Inv visit jobs visits distinct) (omega (arith, length_ids jobs)) in
      let ranked = λ (e : ltb (length fin) (length jobs) ≡ false).
        depth-IsRanking fin k' inv (not_less (length fin) (length jobs) e) in
      (
        k'.depth,
        ltb (length fin) (length jobs),
        rw (found) refl,
        (ranked, λ r. less_not (length fin) (length jobs) (ranked_full fin k' inv k'.depth r)),
        (
          (λ e. (k'.depth, ranked e)),
          λ r. less_not (length fin) (length jobs) (ranked_full fin k' inv r.0 r.1),
        ),
      )
