-- ===== src/Intent/Validate/Kubernetes.antt =====
-- The Kubernetes version of the cluster block.
pub mod Floor
use awsbnkctl.Base.{
  ℕ, String, Bool, true, false, ◌&&◌, ◌||◌, Option, none, some, List, [], ◌∷◌, atoi, split, ℤ, pos,
  ltb_ℤ, eqb_ℤ, if◌then◌else◌,
}
use awsbnkctl.Intent.Check.{
  Check, IntentError, version_shape, version_major, version_minor, version_floor,
  kubernetes_untested, pass, fail, warn_if,
}

abbrev pub min_kubernetes_version : String
min_kubernetes_version = "1.34"

abbrev pub max_tested_kubernetes_minor : ℤ
max_tested_kubernetes_minor = pos 35

pub data Parsed : Type 0 where
  version : (major minor : ℤ) → Parsed
  bad : IntentError → Parsed

abbrev parsed_parts : String → Option ℤ → Option ℤ → Parsed
parsed_parts v none minor = bad (version_major v)
parsed_parts v (some m) none = bad (version_minor v)
parsed_parts v (some m) (some n) = version m n

parse_parts : String → List String → Parsed
unfolding atoi
parse_parts v (a ∷ b ∷ []) = parsed_parts v (atoi a) (atoi b)
parse_parts v _ = bad (version_shape v)

unfoldable pub parse_kubernetes_version : String → Parsed
unfolding parse_parts split
parse_kubernetes_version v = parse_parts v (split b'.' v)

-- major.minor is below the floor.
abbrev pub below : (major minor min_major min_minor : ℤ) → Bool
below major minor min_major min_minor =
    ltb_ℤ major min_major || (eqb_ℤ major min_major && ltb_ℤ minor min_minor)

abbrev pub check_version : String → Parsed → Parsed → Check
check_version v (bad e) floor = fail e
check_version v (version major minor) (bad e) = fail e
check_version v (version major minor) (version min_major min_minor) =
    if below major minor min_major min_minor
    then fail (version_floor v)
    else warn_if (eqb_ℤ major min_major && ltb_ℤ max_tested_kubernetes_minor minor)
        (kubernetes_untested v)

unfoldable pub validate_kubernetes_version : String → Check
unfolding parse_kubernetes_version
validate_kubernetes_version v =
    check_version v (parse_kubernetes_version v) (parse_kubernetes_version min_kubernetes_version)
