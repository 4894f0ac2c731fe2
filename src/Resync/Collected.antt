-- ===== src/Resync/Collected.antt =====
-- What collectWeights finds: the entries, in the order of their places.
use awsbnkctl.Base.{
  ℕ, suc, ◌≤◌, ◌≡◌, refl, arith, inl, inr, Option, none, some, List, [], ◌∷◌, ◌++◌, All, All-append,
}
use awsbnkctl.Resync.{
  Json, null, bool, int, float, text, array, object, WeightEntry, Unstructured, entry_of,
  collect_refs, collect_rules, slice_of, field_value, collect_weights,
}
use awsbnkctl.Resync.Weights.{IsBefore, AreSorted, AreApart, AreSorted-AreApart}

entry_of_place :
    (ri bi : ℕ) (w : Option Json)
    → ((entry_of ri bi w).rule_idx ≡ ri) × ((entry_of ri bi w).ref_idx ≡ bi)
unfolding entry_of
entry_of_place ri bi none = (refl, refl)
entry_of_place ri bi (some null) = (refl, refl)
entry_of_place ri bi (some (bool b)) = (refl, refl)
entry_of_place ri bi (some (int v)) = (refl, refl)
entry_of_place ri bi (some (float v)) = (refl, refl)
entry_of_place ri bi (some (text s)) = (refl, refl)
entry_of_place ri bi (some (array xs)) = (refl, refl)
entry_of_place ri bi (some (object fs)) = (refl, refl)

-- A place in a rule, from a backend on.
abbrev IsFrom : ℕ → ℕ → WeightEntry → Type 0
IsFrom ri bi e = (e.rule_idx ≡ ri) × (bi ≤ e.ref_idx)

later : (ri bi : ℕ) (es : List WeightEntry) → All (IsFrom ri (suc bi)) es → All (IsFrom ri bi) es
later ri bi [] h = tt
later ri bi (e ∷ es) (p, h) = ((p.0, omega (arith, p.1)), later ri bi es h)

collect_refs-IsFrom : (ri bi : ℕ) (refs : List Json) → All (IsFrom ri bi) (collect_refs ri bi refs)
unfolding collect_refs
collect_refs-IsFrom ri bi [] = tt
collect_refs-IsFrom ri bi (object b ∷ refs) =
    let (r, s) = entry_of_place ri bi (field_value "weight" b) in
    (
      (r, omega (arith, s)),
      later ri bi (collect_refs ri (suc bi) refs) (collect_refs-IsFrom ri (suc bi) refs),
    )
collect_refs-IsFrom ri bi (null ∷ refs) =
    later ri bi (collect_refs ri (suc bi) refs) (collect_refs-IsFrom ri (suc bi) refs)
collect_refs-IsFrom ri bi (bool b ∷ refs) =
    later ri bi (collect_refs ri (suc bi) refs) (collect_refs-IsFrom ri (suc bi) refs)
collect_refs-IsFrom ri bi (int v ∷ refs) =
    later ri bi (collect_refs ri (suc bi) refs) (collect_refs-IsFrom ri (suc bi) refs)
collect_refs-IsFrom ri bi (float v ∷ refs) =
    later ri bi (collect_refs ri (suc bi) refs) (collect_refs-IsFrom ri (suc bi) refs)
collect_refs-IsFrom ri bi (text s ∷ refs) =
    later ri bi (collect_refs ri (suc bi) refs) (collect_refs-IsFrom ri (suc bi) refs)
collect_refs-IsFrom ri bi (array xs ∷ refs) =
    later ri bi (collect_refs ri (suc bi) refs) (collect_refs-IsFrom ri (suc bi) refs)

IsBefore-All :
    (ri bi : ℕ) (e : WeightEntry) (es : List WeightEntry)
    → (e.rule_idx ≡ ri) × (e.ref_idx ≡ bi)
    → All (IsFrom ri (suc bi)) es
    → All (IsBefore e) es
IsBefore-All ri bi e [] h k = tt
IsBefore-All ri bi e (d ∷ ds) h (p, k) =
    let same : e.rule_idx ≡ d.rule_idx = omega (arith, h.0, p.0) in
    (inr (same, omega (arith, h.1, p.1)), IsBefore-All ri bi e ds h k)

collect_refs-AreSorted : (ri bi : ℕ) (refs : List Json) → AreSorted (collect_refs ri bi refs)
unfolding collect_refs
collect_refs-AreSorted ri bi [] = tt
collect_refs-AreSorted ri bi (object b ∷ refs) = (
  IsBefore-All ri bi (entry_of ri bi (field_value "weight" b)) (collect_refs ri (suc bi) refs)
      (entry_of_place ri bi (field_value "weight" b)) (collect_refs-IsFrom ri (suc bi) refs),
  collect_refs-AreSorted ri (suc bi) refs,
)
collect_refs-AreSorted ri bi (null ∷ refs) = collect_refs-AreSorted ri (suc bi) refs
collect_refs-AreSorted ri bi (bool b ∷ refs) = collect_refs-AreSorted ri (suc bi) refs
collect_refs-AreSorted ri bi (int v ∷ refs) = collect_refs-AreSorted ri (suc bi) refs
collect_refs-AreSorted ri bi (float v ∷ refs) = collect_refs-AreSorted ri (suc bi) refs
collect_refs-AreSorted ri bi (text s ∷ refs) = collect_refs-AreSorted ri (suc bi) refs
collect_refs-AreSorted ri bi (array xs ∷ refs) = collect_refs-AreSorted ri (suc bi) refs

abbrev IsAtLeast : ℕ → WeightEntry → Type 0
IsAtLeast ri e = ri ≤ e.rule_idx

at_least : (ri bi : ℕ) (es : List WeightEntry) → All (IsFrom ri bi) es → All (IsAtLeast ri) es
at_least ri bi [] h = tt
at_least ri bi (e ∷ es) (p, h) = (omega (arith, p.0), at_least ri bi es h)

sooner : (ri : ℕ) (es : List WeightEntry) → All (IsAtLeast (suc ri)) es → All (IsAtLeast ri) es
sooner ri [] h = tt
sooner ri (e ∷ es) (p, h) = (omega (arith, p), sooner ri es h)

collect_rules-IsAtLeast : (ri : ℕ) (rules : List Json) → All (IsAtLeast ri) (collect_rules ri rules)
unfolding collect_rules
collect_rules-IsAtLeast ri [] = tt
collect_rules-IsAtLeast ri (object r ∷ rules) =
    let refs = slice_of (field_value "backendRefs" r) in
    All-append (IsAtLeast ri) (collect_refs ri 0 refs) (collect_rules (suc ri) rules)
      (at_least ri 0 (collect_refs ri 0 refs) (collect_refs-IsFrom ri 0 refs))
      (sooner ri (collect_rules (suc ri) rules) (collect_rules-IsAtLeast (suc ri) rules))
collect_rules-IsAtLeast ri (null ∷ rules) =
    sooner ri (collect_rules (suc ri) rules) (collect_rules-IsAtLeast (suc ri) rules)
collect_rules-IsAtLeast ri (bool b ∷ rules) =
    sooner ri (collect_rules (suc ri) rules) (collect_rules-IsAtLeast (suc ri) rules)
collect_rules-IsAtLeast ri (int v ∷ rules) =
    sooner ri (collect_rules (suc ri) rules) (collect_rules-IsAtLeast (suc ri) rules)
collect_rules-IsAtLeast ri (float v ∷ rules) =
    sooner ri (collect_rules (suc ri) rules) (collect_rules-IsAtLeast (suc ri) rules)
collect_rules-IsAtLeast ri (text s ∷ rules) =
    sooner ri (collect_rules (suc ri) rules) (collect_rules-IsAtLeast (suc ri) rules)
collect_rules-IsAtLeast ri (array xs ∷ rules) =
    sooner ri (collect_rules (suc ri) rules) (collect_rules-IsAtLeast (suc ri) rules)

earlier_rule :
    (ri : ℕ) (e : WeightEntry) (ds : List WeightEntry)
    → e.rule_idx ≡ ri
    → All (IsAtLeast (suc ri)) ds
    → All (IsBefore e) ds
earlier_rule ri e [] h k = tt
earlier_rule ri e (d ∷ ds) h (p, k) = (inl (omega (arith, h, p)), earlier_rule ri e ds h k)

append-AreSorted :
    (ri bi : ℕ) (xs ys : List WeightEntry)
    → AreSorted xs
    → AreSorted ys
    → All (IsFrom ri bi) xs
    → All (IsAtLeast (suc ri)) ys
    → AreSorted (xs ++ ys)
append-AreSorted ri bi [] ys sx sy hx hy = sy
append-AreSorted ri bi (x ∷ xs) ys (fx, sx) sy (px, hx) hy = (
  All-append (IsBefore x) xs ys fx (earlier_rule ri x ys (px.0) hy),
  append-AreSorted ri bi xs ys sx sy hx hy,
)

collect_rules-AreSorted : (ri : ℕ) (rules : List Json) → AreSorted (collect_rules ri rules)
unfolding collect_rules
collect_rules-AreSorted ri [] = tt
collect_rules-AreSorted ri (object r ∷ rules) =
    let refs = slice_of (field_value "backendRefs" r) in
    append-AreSorted ri 0 (collect_refs ri 0 refs) (collect_rules (suc ri) rules)
      (collect_refs-AreSorted ri 0 refs) (collect_rules-AreSorted (suc ri) rules)
      (collect_refs-IsFrom ri 0 refs) (collect_rules-IsAtLeast (suc ri) rules)
collect_rules-AreSorted ri (null ∷ rules) = collect_rules-AreSorted (suc ri) rules
collect_rules-AreSorted ri (bool b ∷ rules) = collect_rules-AreSorted (suc ri) rules
collect_rules-AreSorted ri (int v ∷ rules) = collect_rules-AreSorted (suc ri) rules
collect_rules-AreSorted ri (float v ∷ rules) = collect_rules-AreSorted (suc ri) rules
collect_rules-AreSorted ri (text s ∷ rules) = collect_rules-AreSorted (suc ri) rules
collect_rules-AreSorted ri (array xs ∷ rules) = collect_rules-AreSorted (suc ri) rules

-- No two of the entries that are collected from a route have the same path.
pub collect_weights-AreApart :
    (u : Unstructured) (route : Json) → AreApart (collect_weights u route)
unfolding collect_weights
collect_weights-AreApart u route =
    let rules = u.nested_slice route ("spec" ∷ "rules" ∷ []) in
    AreSorted-AreApart (collect_rules 0 rules) (collect_rules-AreSorted 0 rules)
