-- ===== src/Ciwatch/Kahn.antt =====
-- tools/ciwatch/dag.go: what holds of topoDepth between two rounds of its queue.
pub mod Built
pub mod Counting
pub mod Needs
pub mod Children
pub mod Rounds
pub mod Ranked
use awsbnkctl.Base.{
  ◌≡◌, refl, sym, ap, ◌∙◌, arith, eq_iff, inl, inr, ℕ, suc, ◌+◌, ◌<◌, String, Bool, true, false,
  ◌&&◌, ◌||◌, Option, none, some, List, [], ◌∷◌, ◌++◌, ◌==◌, lookup, str_eq, ℤ, pos, contains,
  Bool-cases, if◌then◌else◌,
}
use awsbnkctl.Ciwatch.{WorkflowJob, Jobs, Search, ids_of}

abbrev pub bit : Bool → ℕ
bit b = if b then 1 else 0

abbrev pub count : String → List String → ℕ
count k [] = 0
count k (x ∷ xs) = bit (str_eq x k) + count k xs

abbrev pub needs_in : Option WorkflowJob → List String
needs_in none = []
needs_in (some j) = j.needs

abbrev pub is_some : Option WorkflowJob → Bool
is_some none = false
is_some (some j) = true

abbrev pub needs_of : Jobs → String → List String
needs_of jobs c = needs_in (lookup c jobs)

abbrev pub is_job : Jobs → String → Bool
is_job jobs c = is_some (lookup c jobs)

-- No two entries of the map have the same key.
abbrev pub AreDistinct : Jobs → Type 0
AreDistinct [] = Unit
AreDistinct ((id, j) ∷ jobs) = (lookup id jobs ≡ none) × AreDistinct jobs

-- How many of the needs are not done.
abbrev pub left : List String → List String → ℕ
left done [] = 0
left done (n ∷ ns) = (if contains done n then 0 else 1) + left done ns

abbrev pub is_free : Jobs → List String → String → Bool
is_free jobs done c = is_job jobs c && left done (needs_of jobs c) == 0

-- The jobs taken from the queue are done. An in-degree counts the needs that are not done; a job stands
-- once in the queue or among those done when it has no such need; and it is deeper than its done needs.
pub record Inv (jobs : Jobs) (done : List String) (k : Search) : Type 0 where
  pub degrees : (c : String) → k.indeg c ≡ pos (left done (needs_of jobs c))
  pub once : (c : String) → count c done + count c k.queue ≡ bit (is_free jobs done c)
  pub deeper :
      (c d : String)
      → contains (needs_of jobs c) d ≡ true
      → contains done d ≡ true
      → k.depth d < k.depth c

pub str_eq_sym : (s t : String) → str_eq s t ≡ str_eq t s
str_eq_sym s t = elim (Bool-cases (str_eq s t)) [
  | inl e ↦ e ∙ sym ((eq_iff t s).1 (sym ((eq_iff s t).0 e)))
  | inr n ↦ elim (Bool-cases (str_eq t s)) [
    | inl e ↦ (eq_iff s t).1 (sym ((eq_iff t s).0 e)) ∙ sym e
    | inr m ↦ n ∙ sym m
  ]
]

pub count-append : (k : String) (xs ys : List String) → count k (xs ++ ys) ≡ count k xs + count k ys
count-append k [] ys = omega arith
count-append k (x ∷ xs) ys = omega (arith, count-append k xs ys)

pub absent_zero : (xs : List String) (k : String) → contains xs k ≡ false → count k xs ≡ 0
absent_zero [] k h = refl
absent_zero (x ∷ xs) k h = ground (arith, absent_zero xs k)

pub zero_absent : (xs : List String) (k : String) → count k xs ≡ 0 → contains xs k ≡ false
zero_absent [] k h = refl
zero_absent (x ∷ xs) k h = ground (arith, zero_absent xs k)

-- A need that becomes done is no longer counted.
pub left-cons :
    (done : List String) (id : String) (ns : List String)
    → contains done id ≡ false
    → left done ns ≡ left (id ∷ done) ns + count id ns
left-cons done id [] h = refl
left-cons done id (n ∷ ns) h =
    let rest = left-cons done id ns h in
    elim (Bool-cases (str_eq id n)) [
      | inl e ↦
          let fresh : contains done n ≡ false = ap (contains done) (sym ((eq_iff id n).0 e)) ∙ h in
          rw (fresh, e, str_eq_sym n id, e) (omega arith)
      | inr e ↦ elim (Bool-cases (contains done n)) [
        | inl old ↦ rw (old, e, str_eq_sym n id, e) (omega arith)
        | inr new ↦ rw (new, e, str_eq_sym n id, e) (omega arith)
      ]
    ]
