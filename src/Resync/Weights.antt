-- ===== src/Resync/Weights.antt =====
-- Where the weights of a route stand: no two backends have the same path.
use Prim.Native.String
use awsbnkctl.Base.{
  ℕ, ◌<◌, ◌≡◌, ◌≢◌, refl, sym, ◌∙◌, ap, arith, String, ◌⊎◌, inl, inr, List, [], ◌∷◌, ◌++◌, All,
  drop, codes, codes-append, show_nat, read_nat, read_nat-show_nat,
}
use awsbnkctl.Resync.{WeightEntry, weight_path}

-- The numbers in the path of a weight.
abbrev second_number : ℕ × List ℕ → ℕ × ℕ
second_number (i, rest) = (i, (read_nat 0 (drop 13 rest)).0)

abbrev numbers_of : String → ℕ × ℕ
numbers_of path = second_number (read_nat 0 (drop 12 (codes path)))

behind_ref : ℕ → List ℕ
behind_ref j = codes "/backendRefs/" ++ (codes (show_nat j) ++ codes "/weight")

codes-weight_path :
    (e : WeightEntry)
    → codes (weight_path e)
      ≡ codes "/spec/rules/" ++ (codes (show_nat e.rule_idx) ++ behind_ref e.ref_idx)
unfolding weight_path behind_ref
codes-weight_path e =
    let tail = String.◌++◌ (show_nat e.ref_idx) "/weight" in
    let middle = String.◌++◌ "/backendRefs/" tail in
    rw
      (
        codes-append "/spec/rules/" (String.◌++◌ (show_nat e.rule_idx) middle),
        codes-append (show_nat e.rule_idx) middle,
        codes-append "/backendRefs/" tail,
        codes-append (show_nat e.ref_idx) "/weight",
      )
      refl

read_nat-behind_ref : (i j : ℕ) → second_number (read_nat i (behind_ref j)) ≡ (i, j)
unfolding behind_ref
read_nat-behind_ref i j = ap (λ (p : ℕ × List ℕ). (i, p.0)) (read_nat-show_nat j (codes "/weight"))

numbers_of-weight_path : (e : WeightEntry) → numbers_of (weight_path e) ≡ (e.rule_idx, e.ref_idx)
numbers_of-weight_path e =
    ap (λ (cs : List ℕ). second_number (read_nat 0 (drop 12 cs))) (codes-weight_path e)
    ∙ ap second_number (read_nat-show_nat e.rule_idx (behind_ref e.ref_idx))
    ∙ read_nat-behind_ref e.rule_idx e.ref_idx

-- Of two entries the first stands in front of the other.
abbrev pub IsBefore : WeightEntry → WeightEntry → Type 0
IsBefore a b = (a.rule_idx < b.rule_idx) ⊎ ((a.rule_idx ≡ b.rule_idx) × (a.ref_idx < b.ref_idx))

paths_apart : (a b : WeightEntry) → IsBefore a b → weight_path a ≢ weight_path b
paths_apart a b h same =
    let e : (a.rule_idx, a.ref_idx) ≡ (b.rule_idx, b.ref_idx) =
      sym (numbers_of-weight_path a) ∙ ap numbers_of same ∙ numbers_of-weight_path b in
    let first : a.rule_idx ≡ b.rule_idx = ap (λ (p : ℕ × ℕ). p.0) e in
    let second : a.ref_idx ≡ b.ref_idx = ap (λ (p : ℕ × ℕ). p.1) e in
    elim h [ inl l ↦ absurd (omega arith) | inr l ↦ absurd (omega (arith, l.1)) ]

-- No two entries of a list have the same path.
abbrev pub AreApart : List WeightEntry → Type 0
AreApart [] = Unit
AreApart (e ∷ es) = All (λ (d : WeightEntry). weight_path e ≢ weight_path d) es × AreApart es

abbrev pub AreSorted : List WeightEntry → Type 0
AreSorted [] = Unit
AreSorted (e ∷ es) = All (IsBefore e) es × AreSorted es

pub AreSorted-AreApart : (es : List WeightEntry) → AreSorted es → AreApart es
AreSorted-AreApart [] h = tt
AreSorted-AreApart (e ∷ es) (first, rest) = (all_apart e es first, AreSorted-AreApart es rest)
  where
    all_apart :
        (e : WeightEntry) (ds : List WeightEntry)
        → All (IsBefore e) ds
        → All (λ (d : WeightEntry). weight_path e ≢ weight_path d) ds
    all_apart e [] h = tt
    all_apart e (d ∷ ds) (b, h) = (paths_apart e d b, all_apart e ds h)
