-- ===== src/Tags/Merging.antt =====
-- Which value a key has after tag maps are merged.
use awsbnkctl.Base.{
  ◌≡◌, refl, sym, ◌∙◌, ap, inl, inr, String, Option, none, some, List, [], ◌∷◌, lookup, insert,
  lookup-insert, str_eq, eq_iff, All, Bool-cases,
}
use awsbnkctl.Tags.{Tags, required, copy_into, merged_from, eks_tags}

-- Every key stands once.
abbrev pub IsMap : Tags → Type 0
IsMap [] = Unit
IsMap ((k, v) ∷ m) = (lookup k m ≡ none) × IsMap m

-- The first value if there is one, else the second.
abbrev pub first_of : Option String → Option String → Option String
first_of (some v) w = some v
first_of none w = w

-- The value of a key in the last map that has it.
abbrev pub last_value : String → List Tags → Option String
last_value key [] = none
last_value key (m ∷ maps) = first_of (last_value key maps) (lookup key m)

pub lookup-copy_into :
    (key : String) (m t : Tags)
    → IsMap m
    → lookup key (copy_into m t) ≡ first_of (lookup key m) (lookup key t)
unfolding copy_into
lookup-copy_into key [] t h = refl
lookup-copy_into key ((k, v) ∷ m) t (h, u) = elim (Bool-cases (str_eq k key)) [
  | inl e ↦
      let same : key ≡ k = sym ((eq_iff k key).0 e) in
      let gone : lookup key m ≡ none = rw same h in
      lookup-copy_into key m (insert k v t) u ∙ rw (gone, lookup-insert k key v t, e) refl
  | inr n ↦ lookup-copy_into key m (insert k v t) u ∙ rw (lookup-insert k key v t, n) refl
]

first_of_assoc : (a b c : Option String) → first_of a (first_of b c) ≡ first_of (first_of a b) c
first_of_assoc (some v) b c = refl
first_of_assoc none b c = refl

lookup-merged_from :
    (key : String) (t : Tags) (maps : List Tags)
    → All IsMap maps
    → lookup key (merged_from t maps) ≡ first_of (last_value key maps) (lookup key t)
unfolding merged_from
lookup-merged_from key t [] h = refl
lookup-merged_from key t (m ∷ maps) (u, us) =
    lookup-merged_from key (copy_into m t) maps us
    ∙ ap (first_of (last_value key maps)) (lookup-copy_into key m t u)
    ∙ first_of_assoc (last_value key maps) (lookup key m) (lookup key t)

pub first_of-none : (a : Option String) → first_of a none ≡ a
first_of-none (some v) = refl
first_of-none none = refl

-- After maps are merged, in each of which a key stands once, a key has the value that the last
-- map with that key gives it, and none if no map has it.
pub lookup-eks_tags :
    (key : String) (maps : List Tags)
    → All IsMap maps
    → lookup key (eks_tags maps) ≡ last_value key maps
unfolding eks_tags
lookup-eks_tags key maps h = lookup-merged_from key [] maps h ∙ first_of-none (last_value key maps)

absent :
    (key : String) (maps : List Tags)
    → All (λ (m : Tags). lookup key m ≡ none) maps
    → last_value key maps ≡ none
absent key [] h = refl
absent key (m ∷ maps) (h, hs) = rw (absent key maps hs, h) refl

required-IsMap : (name component : String) → IsMap (required name component)
unfolding required
required-IsMap name component = (refl, (refl, (refl, (refl, tt))))

-- A mandatory tag that no user map names has its mandatory value after the user maps are merged
-- behind it.
pub required_kept :
    (key name component : String) (maps : List Tags)
    → All IsMap maps
    → All (λ (m : Tags). lookup key m ≡ none) maps
    → lookup key (eks_tags (required name component ∷ maps)) ≡ lookup key (required name component)
required_kept key name component maps h gone =
    lookup-eks_tags key (required name component ∷ maps) (required-IsMap name component, h)
    ∙ rw (absent key maps gone) refl
