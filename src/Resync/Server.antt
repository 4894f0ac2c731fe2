-- ===== src/Resync/Server.antt =====
-- The API server's side of a patch: an RFC 6902 patch of the weights of one route, and that the
-- restoring patch undoes the forward one.
use awsbnkctl.Base.{
  ◌≡◌, ◌≢◌, refl, sym, ◌∙◌, ap, String, Bool, true, Option, none, some, List, [], ◌∷◌, All, ℤ, inl,
  inr, Bool-cases, if◌then◌else◌,
}
use awsbnkctl.Resync.{
  WeightEntry, PatchOp, patch_op, weight_path, plus_one, build_forward_patches,
  build_restore_patches,
}
use awsbnkctl.Resync.Weights.{AreApart}

-- What stands at a path: nothing, a whole number, or another value.
pub data Number : Type 0 where
  absent : Number
  whole : ℤ → Number
  other_value : Number

abbrev pub number_of : Option ℤ → Number
number_of none = absent
number_of (some v) = whole v

-- How a server reads and changes a document: one operation of a patch, the value at a path, the
-- document with a value at a path or without one, and whether the object around a path is there.
pub record Patching (Doc : Type 0) : Type 0 where
  pub step : PatchOp → Doc → Option Doc
  pub number_at : String → Doc → Number
  pub put : String → Option ℤ → Doc → Doc
  pub has_parent : String → Doc → Bool

-- What RFC 6902 says of the operations that the program sends, at the paths of weights.
pub record FollowsRfc {Doc : Type 0} (p : Patching Doc) : Type 0 where
  pub test_same :
      (e : WeightEntry) (v : ℤ) (d : Doc)
      → p.number_at (weight_path e) d ≡ whole v
      → p.step (patch_op "test" (weight_path e) (some v)) d ≡ some d
  pub test_other :
      (e : WeightEntry) (v : ℤ) (d : Doc)
      → p.number_at (weight_path e) d ≢ whole v
      → p.step (patch_op "test" (weight_path e) (some v)) d ≡ none
  pub replaced :
      (e : WeightEntry) (v w : ℤ) (d : Doc)
      → p.number_at (weight_path e) d ≡ whole w
      → p.step (patch_op "replace" (weight_path e) (some v)) d
        ≡ some (p.put (weight_path e) (some v) d)
  pub added :
      (e : WeightEntry) (v : ℤ) (d : Doc)
      → p.has_parent (weight_path e) d ≡ true
      → p.step (patch_op "add" (weight_path e) (some v)) d ≡ some (p.put (weight_path e) (some v) d)
  pub removed :
      (e : WeightEntry) (w : ℤ) (d : Doc)
      → p.number_at (weight_path e) d ≡ whole w
      → p.step (patch_op "remove" (weight_path e) none) d ≡ some (p.put (weight_path e) none d)
  pub number_put :
      (e : WeightEntry) (v : Option ℤ) (d : Doc)
      → p.has_parent (weight_path e) d ≡ true
      → p.number_at (weight_path e) (p.put (weight_path e) v d) ≡ number_of v
  pub number_put_other :
      (e f : WeightEntry) (v : Option ℤ) (d : Doc)
      → weight_path e ≢ weight_path f
      → p.number_at (weight_path f) (p.put (weight_path e) v d) ≡ p.number_at (weight_path f) d
  pub parent_put :
      (e f : WeightEntry) (v : Option ℤ) (d : Doc)
      → p.has_parent (weight_path f) (p.put (weight_path e) v d) ≡ p.has_parent (weight_path f) d
  pub put_put :
      (e : WeightEntry) (v w : Option ℤ) (d : Doc)
      → p.put (weight_path e) v (p.put (weight_path e) w d) ≡ p.put (weight_path e) v d
  pub put_other :
      (e f : WeightEntry) (v w : Option ℤ) (d : Doc)
      → weight_path e ≢ weight_path f
      → p.put (weight_path e) v (p.put (weight_path f) w d)
        ≡ p.put (weight_path f) w (p.put (weight_path e) v d)
  pub put_old :
      (e : WeightEntry) (v : Option ℤ) (d : Doc)
      → p.number_at (weight_path e) d ≡ number_of v
      → p.put (weight_path e) v d ≡ d

module _ {Doc : Type 0} (p : Patching Doc) where
  abbrev and_then : Option Doc → (Doc → Option Doc) → Option Doc
  and_then none next = none
  and_then (some d) next = next d

  -- A patch is applied as a whole or not at all.
  abbrev pub apply_ops : List PatchOp → Doc → Option Doc
  apply_ops [] d = some d
  apply_ops (o ∷ os) d = and_then (p.step o d) (apply_ops os)

  abbrev pub value_read : WeightEntry → Option ℤ
  value_read e = if e.field_exists then some e.orig else none

  -- The document still has the weight that was read.
  abbrev pub IsCurrent : Doc → WeightEntry → Type 0
  IsCurrent d e =
      (p.number_at (weight_path e) d ≡ number_of (value_read e))
      × (p.has_parent (weight_path e) d ≡ true)

  -- The document with each weight raised by one.
  abbrev pub raised : List WeightEntry → Doc → Doc
  raised [] d = d
  raised (e ∷ es) d = raised es (p.put (weight_path e) (some (plus_one e.orig)) d)

  module _ (rfc : FollowsRfc p) where
    forward_step :
        (e : WeightEntry) (es : List WeightEntry) (d : Doc)
        → IsCurrent d e
        → apply_ops (build_forward_patches (e ∷ es)) d
          ≡ apply_ops (build_forward_patches es) (p.put (weight_path e) (some (plus_one e.orig)) d)
    unfolding build_forward_patches weight_path plus_one
    forward_step e es d (now, inside) = elim (Bool-cases e.field_exists) [
      | inl x ↦
          let stands : p.number_at (weight_path e) d ≡ whole e.orig = now ∙ rw x refl in
          rw (x, rfc.test_same e e.orig d stands, rfc.replaced e (plus_one e.orig) e.orig d stands)
            refl
      | inr x ↦ rw (x, rfc.added e (plus_one e.orig) d inside) refl
    ]

    still-IsCurrent :
        (e : WeightEntry) (v : Option ℤ) (d : Doc) (es : List WeightEntry)
        → All (λ (f : WeightEntry). weight_path e ≢ weight_path f) es
        → All (IsCurrent d) es
        → All (IsCurrent (p.put (weight_path e) v d)) es
    still-IsCurrent e v d [] h k = tt
    still-IsCurrent e v d (f ∷ es) (n, h) ((now, inside), k) = (
      (rfc.number_put_other e f v d n ∙ now, rfc.parent_put e f v d ∙ inside),
      still-IsCurrent e v d es h k,
    )

    pub forward_raised :
        (es : List WeightEntry) (d : Doc)
        → AreApart es
        → All (IsCurrent d) es
        → apply_ops (build_forward_patches es) d ≡ some (raised es d)
    unfolding build_forward_patches
    forward_raised [] d h k = refl
    forward_raised (e ∷ es) d (n, h) (c, k) =
        forward_step e es d c
        ∙ forward_raised es (p.put (weight_path e) (some (plus_one e.orig)) d) h
            (still-IsCurrent e (some (plus_one e.orig)) d es n k)

    pub restore_step :
        (e : WeightEntry) (es : List WeightEntry) (d : Doc)
        → p.number_at (weight_path e) d ≡ whole (plus_one e.orig)
        → apply_ops (build_restore_patches (e ∷ es)) d
          ≡ apply_ops (build_restore_patches es) (p.put (weight_path e) (value_read e) d)
    unfolding build_restore_patches weight_path plus_one
    restore_step e es d up = elim (Bool-cases e.field_exists) [
      | inl x ↦
          rw
            (
              rfc.test_same e (plus_one e.orig) d up,
              x,
              rfc.replaced e e.orig (plus_one e.orig) d up,
            )
            refl
      | inr x ↦
          rw (rfc.test_same e (plus_one e.orig) d up, x, rfc.removed e (plus_one e.orig) d up) refl
    ]

    number_raised :
        (e : WeightEntry) (es : List WeightEntry) (d : Doc)
        → All (λ (f : WeightEntry). weight_path e ≢ weight_path f) es
        → p.number_at (weight_path e) (raised es d) ≡ p.number_at (weight_path e) d
    number_raised e [] d h = refl
    number_raised e (f ∷ es) d (n, h) =
        number_raised e es (p.put (weight_path f) (some (plus_one f.orig)) d) h
        ∙ rfc.number_put_other f e (some (plus_one f.orig)) d (λ s. n (sym s))

    put_raised :
        (e : WeightEntry) (v : Option ℤ) (es : List WeightEntry) (d : Doc)
        → All (λ (f : WeightEntry). weight_path e ≢ weight_path f) es
        → p.put (weight_path e) v (raised es d) ≡ raised es (p.put (weight_path e) v d)
    put_raised e v [] d h = refl
    put_raised e v (f ∷ es) d (n, h) =
        put_raised e v es (p.put (weight_path f) (some (plus_one f.orig)) d) h
        ∙ ap (raised es) (rfc.put_other e f v (some (plus_one f.orig)) d n)

    back :
        (e : WeightEntry) (es : List WeightEntry) (d : Doc)
        → All (λ (f : WeightEntry). weight_path e ≢ weight_path f) es
        → IsCurrent d e
        → p.put (weight_path e) (value_read e) (raised (e ∷ es) d) ≡ raised es d
    back e es d n (now, inside) =
        put_raised e (value_read e) es (p.put (weight_path e) (some (plus_one e.orig)) d) n
        ∙ ap (raised es) (
            rfc.put_put e (value_read e) (some (plus_one e.orig)) d
            ∙ rfc.put_old e (value_read e) d now)

    pub restore_raised :
        (es : List WeightEntry) (d : Doc)
        → AreApart es
        → All (IsCurrent d) es
        → apply_ops (build_restore_patches es) (raised es d) ≡ some d
    unfolding build_restore_patches
    restore_raised [] d h k = refl
    restore_raised (e ∷ es) d (n, h) (c, k) =
        let d1 = p.put (weight_path e) (some (plus_one e.orig)) d in
        let up : p.number_at (weight_path e) (raised es d1) ≡ whole (plus_one e.orig) =
          number_raised e es d1 n ∙ rfc.number_put e (some (plus_one e.orig)) d c.1 in
        restore_step e es (raised es d1) up
        ∙ ap (apply_ops (build_restore_patches es)) (back e es d n c)
        ∙ restore_raised es d h k
