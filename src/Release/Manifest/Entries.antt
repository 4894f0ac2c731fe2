-- ===== src/Release/Manifest/Entries.antt =====
-- Which version a chart or an image has in a parsed release manifest.
use awsbnkctl.Base.{
  ◌≡◌, ◌≢◌, refl, ap, ◌∙◌, inl, inr, String, false, Option, none, some, List, [], ◌∷◌, lookup,
  insert, lookup-insert, is_empty, str_eq, eq_iff, arith, Bool-cases, if◌then◌else◌,
}
use awsbnkctl.Release.Manifest.{
  Entry, RawRelease, RawReleaseManifest, ReleaseManifest, manifest, add_entries_of, manifest_of,
  parse_release_manifest, value_or_empty, chart, image,
}

abbrev or_version : Option String → Option String → Option String
or_version (some v) w = some v
or_version none w = w

-- The version that the last entry of a name gives.
abbrev pub last_entry : String → List Entry → Option String
last_entry name [] = none
last_entry name (e ∷ es) =
    or_version (last_entry name es) (if str_eq e.name name then some e.version else none)

or_version_assoc :
    (a b c : Option String) → or_version a (or_version b c) ≡ or_version (or_version a b) c
or_version_assoc (some v) b c = refl
or_version_assoc none b c = refl

or_version-none : (a : Option String) → or_version a none ≡ a
or_version-none (some v) = refl
or_version-none none = refl

lookup-add_entry :
    (name : String) (e : Entry) (m : List (String × String))
    → name ≢ ""
    → lookup name (if is_empty e.name then m else insert e.name e.version m)
      ≡ or_version (if str_eq e.name name then some e.version else none) (lookup name m)
lookup-add_entry name e m named = elim (Bool-cases (is_empty e.name)) [
  | inl empty ↦ ground (arith, eq_iff e.name "", eq_iff e.name name, eq_iff name "")
  | inr some_name ↦ ground (arith, lookup-insert e.name name e.version m)
]

lookup-add_entries_of :
    (name : String) (es : List Entry) (m : List (String × String))
    → name ≢ ""
    → lookup name (add_entries_of es m) ≡ or_version (last_entry name es) (lookup name m)
unfolding add_entries_of
lookup-add_entries_of name [] m named = refl
lookup-add_entries_of name (e ∷ es) m named =
    lookup-add_entries_of name es _ named
    ∙ ap (or_version (last_entry name es)) (lookup-add_entry name e m named)
    ∙ or_version_assoc (last_entry name es) _ (lookup name m)

value_of_entries :
    (name : String) (es : List Entry)
    → name ≢ ""
    → lookup name (add_entries_of es []) ≡ last_entry name es
value_of_entries name es named =
    lookup-add_entries_of name es [] named ∙ or_version-none (last_entry name es)

-- A manifest whose first release has a version is parsed, whatever the other releases are: the result
-- has that version, and each chart and each image with a name has the version of the last entry of
-- that name in the first release, or the empty text if there is none.
pub parse_release_manifest-entries :
    (raw : RawReleaseManifest) (rel : RawRelease) (rels : List RawRelease) (name : String)
    → raw.releases ≡ rel ∷ rels
    → rel.version ≢ ""
    → name ≢ ""
    → (m : ReleaseManifest) × (parse_release_manifest (some raw) ≡ manifest m)
      × (m.version ≡ rel.version)
      × (chart m name ≡ value_or_empty (last_entry name rel.helm_charts))
      × (image m name ≡ value_or_empty (last_entry name rel.docker_images))
unfolding parse_release_manifest chart image
parse_release_manifest-entries raw rel rels name e versioned named =
    let full : is_empty rel.version ≡ false = ground (arith, eq_iff rel.version "") in
    (
      manifest_of raw rel,
      rw (e, full) refl,
      refl,
      ap value_or_empty (value_of_entries name rel.helm_charts named),
      ap value_or_empty (value_of_entries name rel.docker_images named),
    )
