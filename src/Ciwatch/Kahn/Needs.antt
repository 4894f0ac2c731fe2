-- ===== src/Ciwatch/Kahn/Needs.antt =====
-- tools/ciwatch/dag.go: needs that are done, and lists of jobs.
use awsbnkctl.Base.{
  ◌≡◌, ◌≢◌, refl, sym, ap, ◌∙◌, arith, eq_iff, inl, inr, ℕ, suc, ◌+◌, ◌≤◌, String, Bool, true,
  false, ◌&&◌, Option, none, some, List, [], ◌∷◌, length, str_eq, ltb, contains, Bool-cases,
  if◌then◌else◌,
}
use awsbnkctl.Ciwatch.{WorkflowJob, Jobs, ids_of}
use awsbnkctl.Ciwatch.Kahn.{bit, count, absent_zero, needs_in, is_some, left}

pub counted_job : (s b : Bool) (n : ℕ) → n ≢ 0 → n ≡ bit (s && b) → s ≡ true
counted_job true b n h e = refl
counted_job false b n h e = absurd (h e)

zero_left : (n : ℕ) (b : Bool) → b ≡ true → (if b then 0 else 1) + n ≡ 0 → n ≡ 0
zero_left n true e h = omega arith
zero_left n false e h = omega arith

some_left : (n : ℕ) (b : Bool) → b ≡ false → (if b then 0 else 1) + n ≢ 0
some_left n true e h = cc
some_left n false e h = omega arith

pub left_zero :
    (done ns : List String) (d : String)
    → left done ns ≡ 0
    → contains ns d ≡ true
    → contains done d ≡ true
left_zero done [] d h need = absurd (cc)
left_zero done (n ∷ ns) d h need = elim (Bool-cases (contains done n)) [
  | inl e ↦ elim (Bool-cases (str_eq n d)) [
    | inl same ↦ ap (contains done) (sym ((eq_iff n d).0 same)) ∙ e
    | inr other ↦
        left_zero done ns d (zero_left (left done ns) (contains done n) e h) (ground arith)
  ]
  | inr e ↦ absurd (some_left (left done ns) (contains done n) e h)
]

pub zero_of_all :
    (done ns : List String)
    → ((d : String) → contains ns d ≡ true → contains done d ≡ true)
    → left done ns ≡ 0
zero_of_all done [] h = refl
zero_of_all done (n ∷ ns) h =
    let first : contains done n ≡ true = h n (rw ((eq_iff n n).1 refl) refl) in
    let rest = zero_of_all done ns (λ d e. h d (ground arith)) in rw (first) (omega arith)

pub needs_job :
    (o : Option WorkflowJob) (d : String) → contains (needs_in o) d ≡ true → is_some o ≡ true
needs_job none d h = absurd (cc)
needs_job (some j) d h = refl

pub one_contains : (xs : List String) (k : String) → count k xs ≡ 1 → contains xs k ≡ true
one_contains xs k h = elim (Bool-cases (contains xs k)) [
  | inl e ↦ e
  | inr e ↦ let none_there = absent_zero xs k e in absurd (omega arith)
]

pub not_less : (m n : ℕ) → ltb m n ≡ false → n ≤ m
not_less m n h = ground arith

pub less_not : (m n : ℕ) → n ≤ m → ltb m n ≡ false
less_not m n h = ground arith

pub length_ids : (jobs : Jobs) → length (ids_of jobs) ≡ length jobs
length_ids [] = refl
length_ids (job ∷ jobs) = ap suc (length_ids jobs)
