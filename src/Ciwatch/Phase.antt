-- ===== src/Ciwatch/Phase.antt =====
-- tools/ciwatch: the phases of steps, jobs and runs (model.go), and of a cell of the view (dag.go).
use awsbnkctl.Base.{
  ℕ, suc, String, Bool, true, false, Option, none, some, List, [], ◌∷◌, contains, trim_space,
  str_eq, ltb, if◌then◌else◌,
}

pub data Phase : Type 0 where
  queued running passed failed skipped cancelled unknown : Phase

abbrev pub is_failed : Phase → Bool
is_failed failed = true
is_failed other = false

-- What a switch on the conclusion gives for a completed run; `none` goes on behind the switch.
abbrev completed_phase : String → Option Phase
completed_phase c =
    if str_eq c "success"
    then some passed
    else if contains ("failure" ∷ "timed_out" ∷ "startup_failure" ∷ []) c
    then some failed
    else if str_eq c "skipped"
    then some skipped
    else if str_eq c "cancelled"
    then some cancelled
    else if contains ("neutral" ∷ "action_required" ∷ "stale" ∷ []) c
    then some unknown
    else none

abbrev pub status_phase : String → String → Option Phase
status_phase s c =
    if contains ("queued" ∷ "waiting" ∷ "pending" ∷ "requested" ∷ []) s
    then some queued
    else if str_eq s "in_progress"
    then some running
    else if str_eq s "completed"
    then completed_phase c
    else none

abbrev or_conclusion : Option Phase → String → Phase
or_conclusion (some p) c = p
or_conclusion none c =
    if str_eq c "success" then passed else if str_eq c "failure" then failed else unknown

-- `lower` is strings.ToLower.
unfoldable pub classify_phase : (lower : String → String) → (status conclusion : String) → Phase
classify_phase lower status conclusion =
    let s = lower (trim_space status) in
    let c = lower (trim_space conclusion) in or_conclusion (status_phase s c) c

pub record Step : Type 0 where
  pub name : String
  pub status : String
  pub conclusion : String

pub record Job : Type 0 where
  pub name : String
  pub status : String
  pub conclusion : String
  pub steps : List Step

abbrev pub rank : Phase → ℕ
rank failed = 6
rank running = 5
rank queued = 4
rank cancelled = 3
rank passed = 2
rank skipped = 1
rank unknown = 0

-- `if rank(p) > rank(best) { best = p }`
abbrev pub worse : Phase → Phase → Phase
worse best p = if ltb (rank best) (rank p) then p else best

abbrev pub is_terminal : Phase → Bool
is_terminal passed = true
is_terminal failed = true
is_terminal skipped = true
is_terminal cancelled = true
is_terminal other = false

-- A step that is not skipped is counted, and is done in a phase that ends it.
abbrev pub count_step : Phase → ℕ × ℕ → ℕ × ℕ
count_step skipped (done, total) = (done, total)
count_step passed (done, total) = (suc done, suc total)
count_step failed (done, total) = (suc done, suc total)
count_step cancelled (done, total) = (suc done, suc total)
count_step other (done, total) = (done, suc total)

module _ (lower : String → String) where
  abbrev pub step_phase : Step → Phase
  step_phase s = classify_phase lower s.status s.conclusion

  abbrev pub job_phase : Job → Phase
  job_phase j = classify_phase lower j.status j.conclusion

  unfoldable pub failed_step : List Step → Option Step
  failed_step [] = none
  failed_step (s ∷ ss) =
      let rest = failed_step ss in if is_failed (step_phase s) then some s else rest

  unfoldable pub steps_done : List Step → ℕ × ℕ
  steps_done [] = (0, 0)
  steps_done (s ∷ ss) = count_step (step_phase s) (steps_done ss)

  -- The loop on the legs of a cell.
  unfoldable pub worst_of : Phase → List Job → Phase
  worst_of best [] = best
  worst_of best (l ∷ ls) = worst_of (worse best (job_phase l)) ls

  unfoldable pub aggregate_phase : List Job → Phase
  unfolding worst_of
  aggregate_phase legs = worst_of unknown legs
