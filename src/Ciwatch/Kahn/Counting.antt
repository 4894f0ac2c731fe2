-- ===== src/Ciwatch/Kahn/Counting.antt =====
-- tools/ciwatch/dag.go: how many jobs stand in a list of jobs.
use awsbnkctl.Base.{
  ◌≡◌, refl, sym, ap, ◌∙◌, arith, eq_iff, inl, inr, ℕ, ◌+◌, ◌≤◌, String, true, List, [], ◌∷◌,
  length, str_eq, contains, Bool-cases,
}
use awsbnkctl.Ciwatch.Kahn.{count, str_eq_sym}

-- How often the keys stand in a list, together.
pub total : List String → List String → ℕ
total [] xs = 0
total (c ∷ keys) xs = count c xs + total keys xs

total-cons :
    (keys : List String) (d : String) (xs : List String)
    → total keys (d ∷ xs) ≡ count d keys + total keys xs
unfolding total
total-cons [] d xs = refl
total-cons (c ∷ keys) d xs = rw (str_eq_sym d c) (omega (arith, total-cons keys d xs))

total-nil : (keys : List String) → total keys [] ≡ 0
unfolding total
total-nil [] = refl
total-nil (c ∷ keys) = omega (arith, total-nil keys)

-- A list of keys is as long as the keys stand in it.
pub length_total :
    (keys xs : List String)
    → ((d : String) → contains xs d ≡ true → count d keys ≡ 1)
    → length xs ≡ total keys xs
length_total keys [] h = sym (total-nil keys)
length_total keys (x ∷ xs) h =
    let first = h x (rw ((eq_iff x x).1 refl) refl) in
    let rest = length_total keys xs (λ d e. h d (ground arith)) in
    omega (arith, total-cons keys x xs)

pub total_bounded :
    (keys xs : List String) → ((c : String) → count c xs ≤ 1) → total keys xs ≤ length keys
unfolding total
total_bounded [] xs h = omega arith
total_bounded (c ∷ keys) xs h = omega (arith, h c, total_bounded keys xs h)

pub total_full :
    (keys xs : List String)
    → ((c : String) → count c xs ≤ 1)
    → length keys ≤ total keys xs
    → (c : String) → contains keys c ≡ true
    → count c xs ≡ 1
unfolding total
total_full [] xs h full c here = absurd (cc)
total_full (k ∷ keys) xs h full c here =
    let rest = total_bounded keys xs h in
    let first : count k xs ≡ 1 = omega (arith, h k) in
    elim (Bool-cases (str_eq k c)) [
      | inl e ↦ ap (λ x. count x xs) (sym ((eq_iff k c).0 e)) ∙ first
      | inr e ↦ total_full keys xs h (omega arith) c (ground arith)
    ]

pub total_of_all :
    (keys xs : List String)
    → ((c : String) → contains keys c ≡ true → count c xs ≡ 1)
    → total keys xs ≡ length keys
unfolding total
total_of_all [] xs h = refl
total_of_all (k ∷ keys) xs h =
    let first = h k (rw ((eq_iff k k).1 refl) refl) in
    let rest = total_of_all keys xs (λ c e. h c (ground arith)) in omega arith
