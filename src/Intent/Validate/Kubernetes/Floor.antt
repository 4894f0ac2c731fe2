-- ===== src/Intent/Validate/Kubernetes/Floor.antt =====
-- Which Kubernetes versions validateKubernetesVersion accepts.
use awsbnkctl.Base.{◌≡◌, ◌↔◌, ◌⊎◌, refl, String, ℤ, pos, ◌≤ℤ◌, ◌<ℤ◌, arith}
use awsbnkctl.Intent.Check.{Passes}
use awsbnkctl.Intent.Validate.Kubernetes.{
  Parsed, version, bad, check_version, parse_kubernetes_version, validate_kubernetes_version,
}

-- major.minor is 1.34 or above, by the major version first.
abbrev pub IsSupported : ℤ → ℤ → Type 0
IsSupported major minor = (pos 1 <ℤ major) ⊎ ((major ≡ pos 1) × (pos 34 ≤ℤ minor))

floor_parsed : parse_kubernetes_version "1.34" ≡ version (pos 1) (pos 34)
unfolding parse_kubernetes_version
floor_parsed = refl

IsSupported-Passes :
    (v : String) (major minor : ℤ)
    → Passes (check_version v (version major minor) (version (pos 1) (pos 34)))
      ↔ IsSupported major minor
IsSupported-Passes v major minor = (λ h. ground arith, λ h. ground arith)

-- A version is accepted exactly when it parses as a major and a minor number and the pair of them
-- is 1.34 or above, by the major number first.
pub validate_kubernetes_version_iff :
    (v : String)
    → Passes (validate_kubernetes_version v) ↔ (
        (major : ℤ) × (minor : ℤ) × (parse_kubernetes_version v ≡ version major minor)
        × IsSupported major minor)
unfolding validate_kubernetes_version
validate_kubernetes_version_iff v = rw floor_parsed (from (parse_kubernetes_version v))
  where
    from :
        (p : Parsed)
        → Passes (check_version v p (version (pos 1) (pos 34)))
          ↔ ((major : ℤ) × (minor : ℤ) × (p ≡ version major minor) × IsSupported major minor)
    from (bad e) = (λ h. cc, λ (a, b, e', s). cc)
    from (version a b) =
        (λ h. (a, b, refl, (IsSupported-Passes v a b).0 h), λ (a', b', e', s). ground arith)
