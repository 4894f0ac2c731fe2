-- ===== src/Tests/Streams.antt =====
-- Tags, redacted streams and release manifests at concrete inputs.
use awsbnkctl.Base.{
  ◌≢◌, some, String, ◌≡◌, refl, ◌++◌, Bool, true, false, List, [], ◌∷◌, lookup, null,
}
use awsbnkctl.Tags.{Tags, key_cluster, required, eks_tags}
use awsbnkctl.Tags.Merging.{last_value, lookup-eks_tags}
use awsbnkctl.Release.Manifest.{
  RawRelease, RawReleaseManifest, ReleaseManifest, manifest, parse_release_manifest, value_or_empty,
  chart, image,
}
use awsbnkctl.Release.Manifest.Entries.{last_entry, parse_release_manifest-entries}
use awsbnkctl.Redact.{
  Bytes, redact_marker, starts_with, first_match, any_prefix, is_potential_prefix, scan_from, scan,
  write, close, write_all, add_secrets, new_redactor,
}
use awsbnkctl.Redact.Split.{IsPrefixFree}
use awsbnkctl.Redact.Stream.{concat, write_all-scan}

abbrev user_tags : Tags
user_tags = (key_cluster, "mine") ∷ ("owner", "lab") ∷ []

-- A user's map that names the cluster tag wins over the mandatory one.
lookup-eks_tags_example :
    lookup key_cluster (eks_tags (required "syd-tracer" "vpc" ∷ user_tags ∷ []))
    ≡ last_value key_cluster (required "syd-tracer" "vpc" ∷ user_tags ∷ [])
unfolding required
lookup-eks_tags_example =
    lookup-eks_tags key_cluster (required "syd-tracer" "vpc" ∷ user_tags ∷ [])
      ((refl, (refl, (refl, (refl, tt)))), ((refl, (refl, tt)), tt))

abbrev any_sink : Bytes → Bool
any_sink b = true

abbrev secrets : List Bytes
secrets = (1 ∷ 2 ∷ 3 ∷ []) ∷ (2 ∷ 2 ∷ []) ∷ []

abbrev chunks : List Bytes
chunks = (7 ∷ 1 ∷ 2 ∷ []) ∷ (3 ∷ 8 ∷ []) ∷ []

secrets-IsPrefixFree : IsPrefixFree (new_redactor secrets).secrets
unfolding new_redactor add_secrets starts_with
secrets-IsPrefixFree = (
  ((λ e. refl, λ e. refl), ((λ e. cc, λ e. cc), tt)),
  (((λ e. cc, λ e. cc), ((λ e. refl, λ e. refl), tt)), tt),
)

secrets-kept : null (new_redactor secrets).secrets ≡ false
unfolding new_redactor add_secrets
secrets-kept = refl

write_all-scan_example :
    (write_all any_sink chunks (new_redactor secrets)).written
    ≡ (scan (new_redactor secrets).secrets (concat chunks) true).0
write_all-scan_example =
    write_all-scan any_sink secrets chunks (λ b. refl) secrets-IsPrefixFree secrets-kept

-- Where one secret starts another, the end of the longer one comes through: of the bytes 1 2 3 4 only
-- the first two are replaced, although 1 2 3 4 is the first secret.
nested_run :
    (write_all any_sink
      ((1 ∷ 2 ∷ 3 ∷ 4 ∷ 9 ∷ []) ∷ [])
      (new_redactor ((1 ∷ 2 ∷ 3 ∷ 4 ∷ []) ∷ (1 ∷ 2 ∷ []) ∷ []))).written
    ≡ redact_marker ++ 3 ∷ 4 ∷ 9 ∷ []
unfolding write_all new_redactor add_secrets write close scan scan_from first_match any_prefix
    is_potential_prefix starts_with redact_marker
nested_run = refl

abbrev release : RawRelease
release = record {
  version = "2.4.0";
  helm_charts =
      record { name = "f5-lifecycle-operator"; version = "v2.30.0-0.5.1" }
      ∷ record { name = ""; version = "v1" }
      ∷ record { name = "f5-lifecycle-operator"; version = "v2.30.0-0.5.2" }
      ∷ [];
  docker_images = [];
}

abbrev decoded : RawReleaseManifest
decoded = record {
  f5_helm_repo = "repo.f5.com/charts";
  f5_docker_repo = "repo.f5.com/images";
  releases = release ∷ [];
}

abbrev operator_name : String
operator_name = "f5-lifecycle-operator"

version-named : release.version ≢ ""
version-named e = cc

operator-named : operator_name ≢ ""
operator-named e = cc

parse_release_manifest-entries_example :
    (m : ReleaseManifest) × (parse_release_manifest (some decoded) ≡ manifest m)
    × (m.version ≡ release.version)
    × (chart m operator_name ≡ value_or_empty (last_entry operator_name release.helm_charts))
    × (image m operator_name ≡ value_or_empty (last_entry operator_name release.docker_images))
parse_release_manifest-entries_example =
    parse_release_manifest-entries decoded release [] operator_name refl version-named
      operator-named
