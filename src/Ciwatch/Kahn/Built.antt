-- ===== src/Ciwatch/Kahn/Built.antt =====
-- tools/ciwatch/dag.go: the maps that topoDepth builds, and the first queue.
use awsbnkctl.Base.{
  ◌≡◌, refl, sym, ap, ◌∙◌, arith, eq_iff, inl, inr, ℕ, ◌+◌, String, Bool, true, false, ◌&&◌, Option,
  none, some, List, [], ◌∷◌, ◌++◌, ◌==◌, length, lookup, str_eq, ℤ, pos, eqb_ℤ, Bool-cases,
  if◌then◌else◌,
}
use awsbnkctl.Ciwatch.{
  WorkflowJob, Jobs, Rev, Graph, put, add_revs, build_graph, empty_graph, ids_of, queue_zeros,
  first_search,
}
use awsbnkctl.Ciwatch.Kahn.{
  bit, count, count-append, needs_in, is_some, needs_of, is_job, AreDistinct, left, Inv,
}
use awsbnkctl.Ciwatch.Kahn.Rounds.{Reverses}

count-add_revs :
    (id : String) (deps : List String) (rev : Rev) (c d : String)
    → count c (add_revs id deps rev d) ≡ count c (rev d) + (if str_eq id c then count d deps else 0)
unfolding add_revs
count-add_revs id [] rev c d = elim (Bool-cases (str_eq id c)) [
  | inl e ↦ rw (e) (omega arith)
  | inr e ↦ rw (e) (omega arith)
]
count-add_revs id (dep ∷ deps) rev c d =
    let rest = count-add_revs id deps (put rev dep (rev dep ++ (id ∷ []))) c d in
    rest ∙ elim (Bool-cases (str_eq dep d)) [
      | inl here ↦
          let more = count-append c (rev dep) (id ∷ []) in
          let same : count c (rev dep) ≡ count c (rev d) =
            ap (λ x. count c (rev x)) ((eq_iff dep d).0 here) in
          elim (Bool-cases (str_eq id c)) [
            | inl e ↦ rw (here, e, more, same, e) (omega arith)
            | inr e ↦ rw (here, e, more, same, e) (omega arith)
          ]
      | inr other ↦ elim (Bool-cases (str_eq id c)) [
        | inl e ↦ rw (other, e) (omega arith)
        | inr e ↦ rw (other, e) (omega arith)
      ]
    ]

over : Option WorkflowJob → ℤ → ℤ
over none z = z
over (some j) z = pos (length j.needs)

indeg-build_graph :
    (jobs : Jobs) (g : Graph) (c : String)
    → AreDistinct jobs
    → (build_graph jobs g).indeg c ≡ over (lookup c jobs) (g.indeg c)
unfolding build_graph over
indeg-build_graph [] g c h = refl
indeg-build_graph ((id, j) ∷ jobs) g c h =
    indeg-build_graph jobs _ c h.1 ∙ elim (Bool-cases (str_eq id c)) [
      | inl e ↦
          let unused : lookup c jobs ≡ none =
            ap (λ x. lookup x jobs) (sym ((eq_iff id c).0 e)) ∙ h.0 in
          rw (e, unused) refl
      | inr e ↦ rw (e) refl
    ]

rev-build_graph :
    (jobs : Jobs) (g : Graph) (c d : String)
    → AreDistinct jobs
    → count c ((build_graph jobs g).rev d) ≡ count c (g.rev d) + count d (needs_of jobs c)
unfolding build_graph
rev-build_graph [] g c d h = omega arith
rev-build_graph ((id, j) ∷ jobs) g c d h =
    let more = count-add_revs id j.needs g.rev c d in
    rev-build_graph jobs _ c d h.1 ∙ elim (Bool-cases (str_eq id c)) [
      | inl e ↦
          let unused : lookup c jobs ≡ none =
            ap (λ x. lookup x jobs) (sym ((eq_iff id c).0 e)) ∙ h.0 in
          rw (e, unused, more, e) (omega arith)
      | inr e ↦ rw (e, more, e) (omega arith)
    ]

-- Each job is a key once.
pub count-ids_of :
    (jobs : Jobs) (c : String) → AreDistinct jobs → count c (ids_of jobs) ≡ bit (is_job jobs c)
count-ids_of [] c h = refl
count-ids_of ((id, j) ∷ jobs) c h =
    let rest = count-ids_of jobs c h.1 in
    elim (Bool-cases (str_eq id c)) [
      | inl e ↦
          let unused : lookup c jobs ≡ none =
            ap (λ x. lookup x jobs) (sym ((eq_iff id c).0 e)) ∙ h.0 in
          let none_left : count c (ids_of jobs) ≡ 0 = rest ∙ ap (λ o. bit (is_some o)) unused in
          rw (e, none_left) refl
      | inr e ↦ rw (e, rest) (omega arith)
    ]

zero_more : (b : Bool) (n m : ℕ) → m ≡ (if b then n else 0) → 0 + m ≡ (if b then 0 + n else 0)
zero_more true n m h = omega arith
zero_more false n m h = omega arith

zero_less : (b : Bool) (n m : ℕ) → m ≡ (if b then n else 0) → m ≡ (if b then 0 + n else 0)
zero_less true n m h = omega arith
zero_less false n m h = omega arith

count-queue_zeros :
    (indeg : String → ℤ) (ids : List String) (c : String)
    → count c (queue_zeros indeg ids) ≡ (if eqb_ℤ (indeg c) (pos 0) then count c ids else 0)
unfolding queue_zeros
count-queue_zeros indeg [] c = elim (Bool-cases (eqb_ℤ (indeg c) (pos 0))) [
  | inl e ↦ rw (e) refl
  | inr e ↦ rw (e) refl
]
count-queue_zeros indeg (id ∷ ids) c =
    let rest = count-queue_zeros indeg ids c in
    elim (Bool-cases (str_eq id c)) [
      | inl e ↦
          let same : eqb_ℤ (indeg id) (pos 0) ≡ eqb_ℤ (indeg c) (pos 0) =
            ap (λ x. eqb_ℤ (indeg x) (pos 0)) ((eq_iff id c).0 e) in
          elim (Bool-cases (eqb_ℤ (indeg c) (pos 0))) [
            | inl none_left ↦
                rw (same, none_left, e, rest ∙ ap (λ b. if b then count c ids else 0) none_left)
                  refl
            | inr more ↦ rw (same, more) (rest ∙ ap (λ b. if b then count c ids else 0) more)
          ]
      | inr e ↦ elim (Bool-cases (eqb_ℤ (indeg id) (pos 0))) [
        | inl none_left ↦
            rw (none_left, e)
              (zero_more (eqb_ℤ (indeg c) (pos 0)) (count c ids) (count c (queue_zeros indeg ids))
                rest)
        | inr more ↦
            rw (more, e)
              (zero_less (eqb_ℤ (indeg c) (pos 0)) (count c ids) (count c (queue_zeros indeg ids))
                rest)
      ]
    ]

left_none : (ns : List String) → left [] ns ≡ length ns
left_none [] = refl
left_none (n ∷ ns) = omega (arith, left_none ns)

pub build_graph-Reverses :
    (jobs : Jobs) → AreDistinct jobs → Reverses jobs (build_graph jobs empty_graph).rev
build_graph-Reverses jobs h c d = rev-build_graph jobs empty_graph c d h ∙ omega arith

first_degree : (o : Option WorkflowJob) → over o (pos 0) ≡ pos (left [] (needs_in o))
unfolding over
first_degree none = refl
first_degree (some j) = ap pos (sym (left_none j.needs))

free_first :
    (job : Bool) (n : ℕ) (z : ℤ)
    → z ≡ pos n
    → (if eqb_ℤ z (pos 0) then bit job else 0) ≡ bit (job && n == 0)
free_first true n z h = rw (h) refl
free_first false n z h =
    rw (h) (elim (Bool-cases (n == 0)) [ inl e ↦ rw (e) refl | inr e ↦ rw (e) refl ])

-- Before the first round nothing is done.
pub first_search-Inv :
    (visit : List String → List String) (jobs : Jobs)
    → ((ids : List String) (c : String) → count c (visit ids) ≡ count c ids)
    → AreDistinct jobs
    → Inv jobs [] (first_search visit jobs (build_graph jobs empty_graph))
first_search-Inv visit jobs visits h =
    let g = build_graph jobs empty_graph in
    let degs : (c : String) → g.indeg c ≡ pos (left [] (needs_of jobs c)) =
      λ c. indeg-build_graph jobs empty_graph c h ∙ first_degree (lookup c jobs) in
    record {
      degrees = degs;
      once = λ c.
          let all : count c (visit (ids_of jobs)) ≡ bit (is_job jobs c) =
            visits (ids_of jobs) c ∙ count-ids_of jobs c h in
          let queued =
            count-queue_zeros g.indeg (visit (ids_of jobs)) c
            ∙ ap (λ n. if eqb_ℤ (g.indeg c) (pos 0) then n else 0) all
            ∙ free_first (is_job jobs c) (left [] (needs_of jobs c)) (g.indeg c) (degs c) in
          omega (arith, queued);
      deeper = λ c d need is_done. absurd (cc);
    }
