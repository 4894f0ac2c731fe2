-- ===== src/Ciwatch/Kahn/Rounds.antt =====
-- tools/ciwatch/dag.go: a round of the queue of topoDepth.
use awsbnkctl.Base.{
  ◌≡◌, ◌≢◌, refl, sym, ap, ◌∙◌, arith, eq_iff, inl, inr, ℕ, ◌+◌, ◌≤◌, String, Bool, true, false,
  ◌&&◌, Option, none, some, List, ◌∷◌, ◌==◌, str_eq, lookup, pos, contains, Bool-cases,
}
use awsbnkctl.Ciwatch.{WorkflowJob, Jobs, Rev, Search, visit_children}
use awsbnkctl.Ciwatch.Kahn.{
  bit, count, absent_zero, zero_absent, needs_in, is_some, needs_of, is_job, left, left-cons,
  is_free, Inv,
}
use awsbnkctl.Ciwatch.Kahn.Children.{children_grow, children_keep, children_above, children-Counted}

-- `rev` has a job as often among the children of an id as the id stands among its needs.
abbrev pub Reverses : Jobs → Rev → Type 0
Reverses jobs rev = (c d : String) → count c (rev d) ≡ count d (needs_of jobs c)

pub there_positive : (xs : List String) (k : String) → contains xs k ≡ true → count k xs ≢ 0
there_positive xs k h z = let no = zero_absent xs k z in cc

no_needs : (o : Option WorkflowJob) (d : String) → is_some o ≡ false → count d (needs_in o) ≡ 0
no_needs none d h = refl
no_needs (some j) d h = absurd (cc)

child_is_job :
    (jobs : Jobs) (rev : Rev) (id c : String)
    → Reverses jobs rev
    → contains (rev id) c ≡ true
    → is_job jobs c ≡ true
child_is_job jobs rev id c r h = elim (Bool-cases (is_job jobs c)) [
  | inl e ↦ e
  | inr e ↦ absurd (there_positive (rev id) c h (r c id ∙ no_needs (lookup c jobs) id e))
]

reversed :
    (jobs : Jobs) (rev : Rev) (id c : String)
    → Reverses jobs rev
    → contains (needs_of jobs c) id ≡ true
    → contains (rev id) c ≡ true
reversed jobs rev id c r h = elim (Bool-cases (contains (rev id) c)) [
  | inl e ↦ e
  | inr e ↦ absurd (there_positive (needs_of jobs c) id h (sym (r c id) ∙ absent_zero (rev id) c e))
]

no_bit : (s : Bool) (l : ℕ) → (l == 0) ≡ false → bit (s && l == 0) ≡ 0
no_bit true l h = ap bit h
no_bit false l h = refl

-- What is counted is free.
pub counted_left : (s : Bool) (l n : ℕ) → n ≢ 0 → n ≡ bit (s && l == 0) → l ≡ 0
counted_left s l n positive h = elim (Bool-cases (l == 0)) [
  | inl e ↦ ground arith
  | inr e ↦ absurd (positive (h ∙ no_bit s l e))
]

pub at_most_one : (b : Bool) → bit b ≤ 1
at_most_one true = omega arith
at_most_one false = omega arith

pub round-Inv :
    (jobs : Jobs) (rev : Rev) (done : List String) (id : String) (q : List String) (k : Search)
    → Reverses jobs rev
    → Inv jobs done (record k { queue = id ∷ q })
    → Inv jobs (id ∷ done) (visit_children id (rev id) (record k { queue = q }))
round-Inv jobs rev done id q k r inv =
    let self : str_eq id id ≡ true = (eq_iff id id).1 refl in
    let ns : String → List String = λ c. needs_of jobs c in
    let one = at_most_one (is_free jobs done id) in
    let here : count id done + (1 + count id q) ≡ bit (is_free jobs done id) =
      ap (λ b. count id done + (bit b + count id q)) (sym self) ∙ inv.once id in
    let new : count id done ≡ 0 = omega arith in
    let fresh = zero_absent done id new in
    let id_left : left done (ns id) ≡ 0 =
      counted_left (is_job jobs id) (left done (ns id)) (count id done + (1 + count id q))
        (λ z. omega arith) here in
    let removed : (c : String) → left done (ns c) ≡ left (id ∷ done) (ns c) + count id (ns c) =
      λ c. left-cons done id (ns c) fresh in
    let x : String → ℕ = λ c. left (id ∷ done) (ns c) in
    let base : String → ℕ = λ c. count c (id ∷ done) in
    let falls : (c : String) → left done (ns c) ≡ x c + count c (rev id) =
      λ c. removed c ∙ ap (λ m. x c + m) (sym (r c id)) in
    let (degs, once) =
      children-Counted x base (is_job jobs) id (rev id) (record k { queue = q })
        (λ c h. child_is_job jobs rev id c r h)
        (
          (λ c. inv.degrees c ∙ ap pos (falls c)),
          λ c.
              let moved : base c + count c q ≡ count c done + (bit (str_eq id c) + count c q) =
                omega arith in
              moved ∙ inv.once c ∙ ap (λ m. bit (is_job jobs c && m == 0)) (falls c),
        ) in
    let start : Search = record k { queue = q } in
    let no_self = zero_absent (rev id) id (r id id ∙ omega (arith, removed id)) in
    record {
      degrees = λ c. degs c ∙ ap pos (omega arith);
      once = λ c. once c ∙ ap (λ m. bit (is_job jobs c && m == 0)) (omega arith);
      deeper = λ c d need is_done. elim (Bool-cases (str_eq id d)) [
        | inl e ↦
            let p = (eq_iff id d).0 e in
            let child = reversed jobs rev id c r (rw (p) need) in
            let high = children_above id (rev id) start c no_self child in
            let same = children_keep id (rev id) start id no_self in rw (← p) (rw (same) high)
        | inr e ↦
            let old : contains done d ≡ true = ground arith in
            let d_left : left done (ns d) ≡ 0 =
              counted_left (is_job jobs d) (left done (ns d))
                (count d done + (bit (str_eq id d) + count d q))
                (λ z. there_positive done d old (omega arith)) (inv.once d) in
            let no_child = zero_absent (rev id) d (r d id ∙ omega (arith, removed d)) in
            let same = children_keep id (rev id) start d no_child in
            let low = inv.deeper c d need old in
            let high = children_grow id (rev id) start c in rw (same) (omega arith)
      ];
    }
