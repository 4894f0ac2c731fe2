-- ===== src/Ciwatch/Cells.antt =====
-- tools/ciwatch: what the phase of a cell and the count of the steps say.
use awsbnkctl.Base.{
  ◌≡◌, ◌<◌, refl, sym, ◌∙◌, arith, inl, inr, ◌⊎◌, ◌≤◌, String, true, false, List, [], ◌∷◌, All, ltb,
  Bool-cases,
}
use awsbnkctl.Ciwatch.Phase.{
  Phase, failed, running, queued, cancelled, passed, skipped, unknown, Job, rank, worse, job_phase,
  worst_of, aggregate_phase,
}

worse_grows : (best p : Phase) → rank best ≤ rank (worse best p)
worse_grows best p = elim (Bool-cases (ltb (rank best) (rank p))) [
  | inl less ↦ let low : rank best < rank p = ground arith in rw (less) (omega arith)
  | inr more ↦ rw (more) (omega arith)
]

worse_reaches : (best p : Phase) → rank p ≤ rank (worse best p)
worse_reaches best p = elim (Bool-cases (ltb (rank best) (rank p))) [
  | inl less ↦ rw (less) (omega arith)
  | inr more ↦ let low : rank p ≤ rank best = ground arith in rw (more) (omega arith)
]

worse_found : (best p : Phase) → (worse best p ≡ best) ⊎ (worse best p ≡ p)
worse_found best p = elim (Bool-cases (ltb (rank best) (rank p))) [
  | inl less ↦ rw (less) (inr refl)
  | inr more ↦ rw (more) (inl refl)
]

module _ (lower : String → String) where
  -- One of the legs has the phase.
  abbrev HasPhase : Phase → List Job → Type 0
  HasPhase p [] = true ≡ false
  HasPhase p (l ∷ ls) = (job_phase lower l ≡ p) ⊎ HasPhase p ls

  -- No leg is worse than the phase.
  abbrev IsWorst : Phase → List Job → Type 0
  IsWorst p = All (λ (l : Job). rank (job_phase lower l) ≤ rank p)

  worst_grows : (best : Phase) (ls : List Job) → rank best ≤ rank (worst_of lower best ls)
  unfolding worst_of
  worst_grows best [] = omega arith
  worst_grows best (l ∷ ls) =
      let first = worse_grows best (job_phase lower l) in
      let rest = worst_grows (worse best (job_phase lower l)) ls in omega arith

  worst_of-IsWorst : (best : Phase) (ls : List Job) → IsWorst (worst_of lower best ls) ls
  unfolding worst_of
  worst_of-IsWorst best [] = tt
  worst_of-IsWorst best (l ∷ ls) =
      let first = worse_reaches best (job_phase lower l) in
      let rest = worst_grows (worse best (job_phase lower l)) ls in
      (omega arith, worst_of-IsWorst (worse best (job_phase lower l)) ls)

  worst_found :
      (best : Phase) (ls : List Job)
      → (worst_of lower best ls ≡ best) ⊎ HasPhase (worst_of lower best ls) ls
  unfolding worst_of
  worst_found best [] = inl refl
  worst_found best (l ∷ ls) = elim (worst_found (worse best (job_phase lower l)) ls) [
    | inr later ↦ inr (inr later)
    | inl same ↦ elim (worse_found best (job_phase lower l)) [
      | inl kept ↦ inl (same ∙ kept)
      | inr taken ↦ inr (inl (sym (same ∙ taken)))
    ]
  ]

  HasPhase-rank : (p a : Phase) (ls : List Job) → HasPhase p ls → IsWorst a ls → rank p ≤ rank a
  HasPhase-rank p a [] h w = absurd (cc)
  HasPhase-rank p a (l ∷ ls) (inl same) (w, ws) = rw⁻¹ same w
  HasPhase-rank p a (l ∷ ls) (inr later) (w, ws) = HasPhase-rank p a ls later ws

  -- The phases that come before a phase in the order failed, running, queued, cancelled, passed,
  -- skipped.
  abbrev above : Phase → List Phase
  above failed = []
  above running = failed ∷ []
  above queued = failed ∷ running ∷ []
  above cancelled = failed ∷ running ∷ queued ∷ []
  above passed = failed ∷ running ∷ queued ∷ cancelled ∷ []
  above skipped = failed ∷ running ∷ queued ∷ cancelled ∷ passed ∷ []
  above unknown = failed ∷ running ∷ queued ∷ cancelled ∷ passed ∷ skipped ∷ []

  -- No leg has one of the phases.
  abbrev HasNone : List Phase → List Job → Type 0
  HasNone ps ls = All (λ p. ¬ HasPhase p ls) ps

  no_better : (p a : Phase) (ls : List Job) → IsWorst a ls → rank a < rank p → ¬ HasPhase p ls
  no_better p a ls w less h = let low = HasPhase-rank p a ls h w in absurd (omega arith)

  above-HasNone : (a : Phase) (ls : List Job) → IsWorst a ls → HasNone (above a) ls
  above-HasNone failed ls w = tt
  above-HasNone running ls w =
      let better = λ (p : Phase) (h : rank running < rank p). no_better p running ls w h in
      (better failed (omega arith), tt)
  above-HasNone queued ls w =
      let better = λ (p : Phase) (h : rank queued < rank p). no_better p queued ls w h in
      (better failed (omega arith), (better running (omega arith), tt))
  above-HasNone cancelled ls w =
      let better = λ (p : Phase) (h : rank cancelled < rank p). no_better p cancelled ls w h in
      (
        better failed (omega arith),
        (better running (omega arith), (better queued (omega arith), tt)),
      )
  above-HasNone passed ls w =
      let better = λ (p : Phase) (h : rank passed < rank p). no_better p passed ls w h in
      (
        better failed (omega arith),
        (
          better running (omega arith),
          (better queued (omega arith), (better cancelled (omega arith), tt)),
        ),
      )
  above-HasNone skipped ls w =
      let better = λ (p : Phase) (h : rank skipped < rank p). no_better p skipped ls w h in
      (
        better failed (omega arith),
        (
          better running (omega arith),
          (
            better queued (omega arith),
            (better cancelled (omega arith), (better passed (omega arith), tt)),
          ),
        ),
      )
  above-HasNone unknown ls w =
      let better = λ (p : Phase) (h : rank unknown < rank p). no_better p unknown ls w h in
      (
        better failed (omega arith),
        (
          better running (omega arith),
          (
            better queued (omega arith),
            (
              better cancelled (omega arith),
              (better passed (omega arith), (better skipped (omega arith), tt)),
            ),
          ),
        ),
      )

  -- A leg has the phase, or it is unknown, and no leg has one that comes before it.
  abbrev pub IsFirst : Phase → List Job → Type 0
  IsFirst p ls = ((p ≡ unknown) ⊎ HasPhase p ls) × HasNone (above p) ls

  -- The phase of a cell is that of one of its legs, or unknown, and no leg has a phase that comes
  -- before it in the order failed, running, queued, cancelled, passed, skipped; before unknown come
  -- all of these.
  pub aggregate_phase-IsFirst : (legs : List Job) → IsFirst (aggregate_phase lower legs) legs
  unfolding aggregate_phase
  aggregate_phase-IsFirst legs = (
    worst_found unknown legs,
    above-HasNone (worst_of lower unknown legs) legs (worst_of-IsWorst unknown legs),
  )
