-- ===== src/Ciwatch/Kahn/Children.antt =====
-- tools/ciwatch/dag.go: the loop of topoDepth on the children of a job.
use awsbnkctl.Base.{
  ◌≡◌, refl, ap, ◌∙◌, arith, eq_iff, inl, inr, ℕ, suc, ◌+◌, ◌<◌, ◌≤◌, String, Bool, true, false,
  ◌&&◌, ◌||◌, List, [], ◌∷◌, ◌==◌, ltb, str_eq, ℤ, pos, eqb_ℤ, contains, Bool-cases,
}
use awsbnkctl.Ciwatch.{Search, dec, raise, enqueue, visit_child, visit_children}
use awsbnkctl.Ciwatch.Kahn.{bit, count, count-append}

raise_grows :
    (depth : String → ℕ) (child : String) (d : ℕ) (c : String) → depth c ≤ raise depth child d c
raise_grows depth child d c = elim (Bool-cases (ltb (depth child) d)) [
  | inl less ↦ elim (Bool-cases (str_eq child c)) [
    | inl e ↦
        let same = (eq_iff child c).0 e in
        let low : depth child < d = ground arith in rw (less, e, ← same) (omega arith)
    | inr e ↦ rw (less, e) (omega arith)
  ]
  | inr more ↦ rw (more) (omega arith)
]

raise_other :
    (depth : String → ℕ) (child : String) (d : ℕ) (c : String)
    → str_eq child c ≡ false
    → raise depth child d c ≡ depth c
raise_other depth child d c e = elim (Bool-cases (ltb (depth child) d)) [
  | inl less ↦ rw (less, e) refl
  | inr more ↦ rw (more) refl
]

raise_reaches : (depth : String → ℕ) (child : String) (d : ℕ) → d ≤ raise depth child d child
raise_reaches depth child d = elim (Bool-cases (ltb (depth child) d)) [
  | inl less ↦ rw (less, (eq_iff child child).1 refl) (omega arith)
  | inr more ↦ rw (more) (ground arith)
]

-- No job becomes less deep.
pub children_grow :
    (id : String) (cs : List String) (k : Search) (c : String)
    → k.depth c ≤ (visit_children id cs k).depth c
unfolding visit_children
children_grow id [] k c = omega arith
children_grow id (child ∷ cs) k c =
    let first = raise_grows k.depth child (k.depth id + 1) c in
    let rest = children_grow id cs (visit_child id child k) c in omega arith

-- A job that is no child keeps its depth.
pub children_keep :
    (id : String) (cs : List String) (k : Search) (c : String)
    → contains cs c ≡ false
    → (visit_children id cs k).depth c ≡ k.depth c
unfolding visit_children
children_keep id [] k c h = refl
children_keep id (child ∷ cs) k c h =
    let other : str_eq child c ≡ false = ground arith in
    let rest : contains cs c ≡ false = ground arith in
    children_keep id cs (visit_child id child k) c rest
    ∙ raise_other k.depth child (k.depth id + 1) c other

-- A child becomes deeper than the job.
pub children_above :
    (id : String) (cs : List String) (k : Search) (c : String)
    → contains cs id ≡ false
    → contains cs c ≡ true
    → k.depth id < (visit_children id cs k).depth c
unfolding visit_children
children_above id [] k c self h = absurd (cc)
children_above id (child ∷ cs) k c self h =
    let other : str_eq child id ≡ false = ground arith in
    let rest : contains cs id ≡ false = ground arith in
    let same = raise_other k.depth child (k.depth id + 1) id other in
    elim (Bool-cases (contains cs c)) [
      | inl later ↦
          let high = children_above id cs (visit_child id child k) c rest later in omega arith
      | inr now ↦
          let here : str_eq child c ≡ true = ground arith in
          let high = raise_reaches k.depth child (k.depth id + 1) in
          let kept = children_keep id cs (visit_child id child k) c now in
          rw (kept, ← (eq_iff child c).0 here) (omega arith)
    ]

count-enqueue :
    (c : String) (queue : List String) (child : String) (z : ℤ)
    → count c (enqueue queue child z) ≡ count c queue + bit (eqb_ℤ z (pos 0) && str_eq child c)
count-enqueue c queue child z = elim (Bool-cases (eqb_ℤ z (pos 0))) [
  | inl e ↦ rw (e) (omega (arith, count-append c queue (child ∷ [])))
  | inr e ↦ rw (e) (omega arith)
]

-- What holds in the middle of the loop: `x` are the in-degrees behind it, `base` counts the jobs that
-- have left the queue.
abbrev Counted : (x base : String → ℕ) → (job : String → Bool) → List String → Search → Type 0
Counted x base job cs k =
    ((c : String) → k.indeg c ≡ pos (x c + count c cs))
    × ((c : String) → base c + count c k.queue ≡ bit (job c && (x c + count c cs) == 0))

or_true : (a b : Bool) → b ≡ true → (a || b) ≡ true
or_true true b h = refl
or_true false b h = h

dec_pos : (z : ℤ) (n : ℕ) → z ≡ pos (suc n) → dec z ≡ pos n
dec_pos z n h = ap dec h

queued_now :
    (b n m : ℕ) (s t : Bool)
    → s ≡ true
    → t ≡ true
    → b + n ≡ 0
    → b + (n + bit (m == 0 && t)) ≡ bit (s && m == 0)
queued_now b n m s t is_s is_t h = elim (Bool-cases (m == 0)) [
  | inl e ↦ rw (e, is_s, is_t) (omega arith)
  | inr e ↦ rw (e, is_s) (omega arith)
]

not_now : (b n : ℕ) (s t z : Bool) → t ≡ false → b + n ≡ bit s → b + (n + bit (z && t)) ≡ bit s
not_now b n s t true is_t h = rw (is_t) (omega arith)
not_now b n s t false is_t h = omega arith

positive : (x m : ℕ) (t : Bool) → t ≡ true → (x + (bit t + m) == 0) ≡ false
positive x m t h = rw (h) (ground arith)

and_false : (s t : Bool) → t ≡ false → bit (s && t) ≡ 0
and_false true t h = ap bit h
and_false false t h = refl

child-Counted :
    (x base : String → ℕ) (job : String → Bool) (id child : String) (cs : List String) (k : Search)
    → job child ≡ true
    → Counted x base job (child ∷ cs) k
    → Counted x base job cs (visit_child id child k)
child-Counted x base job id child cs k is_child (degs, once) =
    let self : str_eq child child ≡ true = (eq_iff child child).1 refl in
    let n = x child + count child cs in
    let first : x child + count child (child ∷ cs) ≡ suc n = rw (self) (omega arith) in
    let lower : dec (k.indeg child) ≡ pos n =
      dec_pos (k.indeg child) n (degs child ∙ ap pos first) in
    let none : base child + count child k.queue ≡ 0 =
      once child
      ∙ and_false (job child) (x child + count child (child ∷ cs) == 0)
          (positive (x child) (count child cs) (str_eq child child) self) in
    (
      (λ c. elim (Bool-cases (str_eq child c)) [
        | inl e ↦ rw (e, lower) (ap (λ d. pos (x d + count d cs)) ((eq_iff child c).0 e))
        | inr e ↦
            let same : count c (child ∷ cs) ≡ count c cs = rw (e) (omega arith) in
            rw (e) (degs c ∙ ap (λ m. pos (x c + m)) same)
      ]),
      λ c. elim (Bool-cases (str_eq child c)) [
        | inl e ↦ rw (← (eq_iff child c).0 e) (
            rw (count-enqueue child k.queue child (dec (k.indeg child)), lower)
              (queued_now (base child) (count child k.queue) n (job child) (str_eq child child)
                is_child self none))
        | inr e ↦
            let same : count c (child ∷ cs) ≡ count c cs = rw (e) (omega arith) in
            ap (λ m. base c + m) (count-enqueue c k.queue child (dec (k.indeg child)))
            ∙ not_now (base c) (count c k.queue) (job c && x c + count c cs == 0) (str_eq child c)
                (eqb_ℤ (dec (k.indeg child)) (pos 0)) e
                (once c ∙ ap (λ m. bit (job c && x c + m == 0)) same)
      ],
    )

-- Behind the loop each in-degree has fallen by the number of times that the job stands among the
-- children, and a child whose in-degree is zero is queued.
pub children-Counted :
    (x base : String → ℕ) (job : String → Bool) (id : String) (cs : List String) (k : Search)
    → ((c : String) → contains cs c ≡ true → job c ≡ true)
    → Counted x base job cs k
    → Counted x base job [] (visit_children id cs k)
unfolding visit_children
children-Counted x base job id [] k jobs h = h
children-Counted x base job id (child ∷ cs) k jobs h =
    let is_child = jobs child (rw ((eq_iff child child).1 refl) refl) in
    children-Counted x base job id cs (visit_child id child k)
      (λ c later. jobs c (or_true (str_eq child c) (contains cs c) later))
      (child-Counted x base job id child cs k is_child h)
