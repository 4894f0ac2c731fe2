-- ===== src/Resync/Refusal.antt =====
-- A restoring patch is refused when a weight is not the raised one any more.
use awsbnkctl.Base.{
  ◌≡◌, ◌≢◌, refl, sym, ◌∙◌, ap, arith, Bool, true, false, Option, none, some, List, [], ◌∷◌, All, ℤ,
  pos, negsuc, ◌==◌, ◌⊎◌, inl, inr, Bool-cases, null, ℕ,
}
use awsbnkctl.Resync.{WeightEntry, weight_path, plus_one, build_restore_patches}
use awsbnkctl.Resync.Weights.{AreApart}
use awsbnkctl.Resync.Server.{
  Number, absent, whole, other_value, Patching, FollowsRfc, apply_ops, value_read, restore_step,
}

abbrev is_pos : ℤ → Bool
is_pos (pos n) = true
is_pos (negsuc n) = false

abbrev magnitude : ℤ → ℕ
magnitude (pos n) = n
magnitude (negsuc n) = n

ℤ-cases : (a b : ℤ) → (a ≡ b) ⊎ (a ≢ b)
ℤ-cases (pos m) (pos n) = elim (Bool-cases (m == n)) [
  | inl e ↦ inl (ap pos (ground arith))
  | inr e ↦ inr (λ s. let same : m ≡ n = ap magnitude s in absurd (ground arith))
]
ℤ-cases (pos m) (negsuc n) = inr (λ s. let bad : true ≡ false = ap is_pos s in cc)
ℤ-cases (negsuc m) (pos n) = inr (λ s. let bad : false ≡ true = ap is_pos s in cc)
ℤ-cases (negsuc m) (negsuc n) = elim (Bool-cases (m == n)) [
  | inl e ↦ inl (ap negsuc (ground arith))
  | inr e ↦ inr (λ s. let same : m ≡ n = ap magnitude s in absurd (ground arith))
]

abbrev whole_part : Number → Option ℤ
whole_part (whole v) = some v
whole_part other = none

abbrev content : ℤ → Option ℤ → ℤ
content d none = d
content d (some v) = v

Number-cases : (n : Number) (v : ℤ) → (n ≡ whole v) ⊎ (n ≢ whole v)
Number-cases absent v = inr (λ s. let bad : none ≡ some v = ap whole_part s in cc)
Number-cases other_value v = inr (λ s. let bad : none ≡ some v = ap whole_part s in cc)
Number-cases (whole w) v = elim (ℤ-cases w v) [
  | inl e ↦ inl (ap whole e)
  | inr n ↦ inr (λ s. n (ap (λ (x : Number). content w (whole_part x)) s))
]

module _ {Doc : Type 0} (p : Patching Doc) where
  -- A weight of the list is not the raised one.
  abbrev pub HasEdited : Doc → List WeightEntry → Type 0
  HasEdited d [] = ⊥
  HasEdited d (e ∷ es) = (p.number_at (weight_path e) d ≢ whole (plus_one e.orig)) ⊎ HasEdited d es

  pub HasEdited-null : (d : Doc) (es : List WeightEntry) → HasEdited d es → null es ≡ false
  HasEdited-null d [] h = absurd h
  HasEdited-null d (e ∷ es) h = refl

  module _ (rfc : FollowsRfc p) where
    edited_later :
        (e : WeightEntry) (v : Option ℤ) (d : Doc) (es : List WeightEntry)
        → All (λ (f : WeightEntry). weight_path e ≢ weight_path f) es
        → HasEdited d es
        → HasEdited (p.put (weight_path e) v d) es
    edited_later e v d [] n h = absurd h
    edited_later e v d (f ∷ es) (n, ns) (inl h) =
        inl (λ s. h (sym (rfc.number_put_other e f v d n) ∙ s))
    edited_later e v d (f ∷ es) (n, ns) (inr h) = inr (edited_later e v d es ns h)

    refused_here :
        (e : WeightEntry) (es : List WeightEntry) (d : Doc)
        → p.number_at (weight_path e) d ≢ whole (plus_one e.orig)
        → apply_ops p (build_restore_patches (e ∷ es)) d ≡ none
    unfolding build_restore_patches
    refused_here e es d h = rw (rfc.test_other e (plus_one e.orig) d h) refl

    pub restore_refused :
        (es : List WeightEntry) (d : Doc)
        → AreApart es
        → HasEdited d es
        → apply_ops p (build_restore_patches es) d ≡ none
    restore_refused [] d a h = absurd h
    restore_refused (e ∷ es) d (n, a) (inl h) = refused_here e es d h
    restore_refused (e ∷ es) d (n, a) (inr h) =
        elim (Number-cases (p.number_at (weight_path e) d) (plus_one e.orig)) [
          | inl up ↦
              restore_step p rfc e es d up
              ∙ restore_refused es (p.put (weight_path e) (value_read p e) d) a
                  (edited_later e (value_read p e) d es n h)
          | inr m ↦ refused_here e es d m
        ]
