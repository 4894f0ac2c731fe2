-- ===== src/Release/Manifest.antt =====
-- ParseReleaseManifest of internal/manifest/manifest.go, from the decoded YAML on.
pub mod Entries
use awsbnkctl.Base.{
  String, Option, none, some, List, [], ◌∷◌, lookup, insert, is_empty, if◌then◌else◌,
}

-- An entry of helm_charts or docker_images.
pub record Entry : Type 0 where
  pub name : String
  pub version : String

pub record RawRelease : Type 0 where
  pub version : String
  pub helm_charts : List Entry
  pub docker_images : List Entry

pub record RawReleaseManifest : Type 0 where
  pub f5_helm_repo : String
  pub f5_docker_repo : String
  pub releases : List RawRelease

-- The raw bytes are kept by the program and read by nothing else here.
pub record ReleaseManifest : Type 0 where
  pub helm_repo : String
  pub docker_repo : String
  pub version : String
  pub helm_charts : List (String × String)
  pub docker_imgs : List (String × String)

pub data ParsedManifest : Type 0 where
  manifest : ReleaseManifest → ParsedManifest
  unparsable : ParsedManifest
  no_releases : ParsedManifest
  version_empty : ParsedManifest

-- The loops over the entries; an entry without a name is passed over.
unfoldable pub add_entries_of : List Entry → List (String × String) → List (String × String)
add_entries_of [] m = m
add_entries_of (e ∷ es) m =
    add_entries_of es (if is_empty e.name then m else insert e.name e.version m)

abbrev pub manifest_of : RawReleaseManifest → RawRelease → ReleaseManifest
manifest_of raw rel = record {
  helm_repo = raw.f5_helm_repo;
  docker_repo = raw.f5_docker_repo;
  version = rel.version;
  helm_charts = add_entries_of rel.helm_charts [];
  docker_imgs = add_entries_of rel.docker_images [];
}

-- Only the first release is read.
abbrev pub first_release : RawReleaseManifest → List RawRelease → ParsedManifest
first_release raw [] = no_releases
first_release raw (rel ∷ rels) =
    if is_empty rel.version then version_empty else manifest (manifest_of raw rel)

-- What the YAML decoder gives is the argument, `none` an error of it.
unfoldable pub parse_release_manifest : Option RawReleaseManifest → ParsedManifest
parse_release_manifest none = unparsable
parse_release_manifest (some raw) = first_release raw raw.releases

abbrev pub value_or_empty : Option String → String
value_or_empty none = ""
value_or_empty (some v) = v

-- Chart and Image
unfoldable pub chart : ReleaseManifest → String → String
chart m name = value_or_empty (lookup name m.helm_charts)

unfoldable pub image : ReleaseManifest → String → String
image m name = value_or_empty (lookup name m.docker_imgs)
