-- ===== src/Intent/Validate/Pattern/Exact.antt =====
-- What a cluster must be for validatePattern to accept it.
use mathlib.Core.List.{Mem}
use mathlib.Core.Option.{some-injective}
use awsbnkctl.Base.{
  ℕ, ◌≡◌, ◌≢◌, ◌↔◌, inl, inr, refl, String, true, false, ◌||◌, not, Option, none, some, List, arith,
  All, Bool-cases, str_eq, eq_iff, is_empty, contains, contains-Mem, Mem-contains, pos, ◌≤ℤ◌,
}
use awsbnkctl.Net.{IpNet, parse_cidr}
use awsbnkctl.Intent.Schema.{Cluster, ClusterSpec, DataPathSpec, NodeGroupSpec, SubnetSpec, is_gpu}
use awsbnkctl.Intent.Pattern.{
  is_bnk_pattern, has_internal_interface, normalize_pattern, sriov_external,
}
use awsbnkctl.Intent.Check.{
  Passes, IntentError, ◌>>◌, fail_if, check_some, check_each, warn_if, pattern_unknown,
  sriov_experimental, internal_incomplete, internal_az_unknown, external_incomplete,
  external_az_unknown,
}
use awsbnkctl.Intent.Check.Passing.{>>-Passes, check_some-Passes, check_each-Passes, OnSome}
use awsbnkctl.Intent.Validate.Pattern.{
  require_slash_24, require_24, check_external, check_internal, check_quorum, check_data_path,
  validate_pattern,
}

-- An IPv4 network with a 24-bit mask.
abbrev pub IsSlash24 : String → Type 0
IsSlash24 cidr = (n : IpNet) × (parse_cidr cidr ≡ some n) × (n.bits ≡ 32) × (n.ones ≡ 24)

-- A data-path subnet: a /24 in one of the cluster's zones.
abbrev pub IsPlaced : List String → SubnetSpec → Type 0
IsPlaced azs s = (s.cidr ≢ "") × (s.az ≢ "") × IsSlash24 s.cidr × Mem s.az azs

abbrev pub InternalFits : Cluster → DataPathSpec → Type 0
InternalFits c dp =
    (has_internal_interface c ≡ true → IsPlaced c.network.azs dp.internal)
    × (has_internal_interface c ≡ false → (dp.internal.cidr ≡ "") × (dp.internal.az ≡ ""))

-- A node group that is no GPU group and has a positive size has three nodes.
abbrev pub HasQuorum : NodeGroupSpec → Type 0
HasQuorum ng = is_gpu ng ≡ false → pos 1 ≤ℤ ng.desired_size → pos 3 ≤ℤ ng.desired_size

abbrev pub FitsPattern : Cluster → Type 0
FitsPattern c =
    (is_bnk_pattern c ≡ true)
    × (dp : DataPathSpec) × (c.network.data_path ≡ some dp)
    × IsPlaced c.network.azs dp.external
    × InternalFits c dp
    × OnSome (λ (cs : ClusterSpec). All HasQuorum cs.node_groups) c.cluster_spec

slash_24-Passes : (cidr name : String) → Passes (require_slash_24 cidr name) ↔ IsSlash24 cidr
unfolding require_slash_24
slash_24-Passes cidr name = from (parse_cidr cidr)
  where
    from :
        (n : Option IpNet)
        → Passes (require_24 cidr name n)
          ↔ ((m : IpNet) × (n ≡ some m) × (m.bits ≡ 32) × (m.ones ≡ 24))
    from none = (λ h. cc, λ h. cc (h.1))
    from (some n) = (λ h. (n, refl, ground arith, ground arith), λ (m, e, b, o). ground arith)

quorum-Passes :
    (text : String) (i : ℕ) (ng : NodeGroupSpec) → Passes (check_quorum text i ng) ↔ HasQuorum ng
unfolding check_quorum
quorum-Passes text i ng = (λ h. ground arith, λ h. ground arith)

-- The three checks of a data-path subnet, whatever errors they report.
IsPlaced-Passes :
    (azs : List String) (s : SubnetSpec) (name : String) (e e' : IntentError)
    → Passes (
        fail_if (is_empty s.cidr || is_empty s.az) e
        >> require_slash_24 s.cidr name
        >> fail_if (not (contains azs s.az)) e')
      ↔ IsPlaced azs s
IsPlaced-Passes azs s name e e' =
    let first = fail_if (is_empty s.cidr || is_empty s.az) e in
    let second = require_slash_24 s.cidr name in
    let third = fail_if (not (contains azs s.az)) e' in
    (
      λ h.
          let outer = (>>-Passes (first >> second) third).0 h in
          let inner = (>>-Passes first second).0 (outer.0) in
          (
            ground (arith, eq_iff s.cidr ""),
            ground (arith, eq_iff s.az ""),
            (slash_24-Passes s.cidr name).0 (inner.1),
            contains-Mem azs s.az (ground arith),
          ),
      λ (cidr, az, net, zone). (>>-Passes (first >> second) third).1 (
        (>>-Passes first second).1
            (ground (arith, eq_iff s.cidr "", eq_iff s.az ""), (slash_24-Passes s.cidr name).1 net),
        ground (arith, Mem-contains azs s.az zone),
      ),
    )

internal-Passes :
    (c : Cluster) (dp : DataPathSpec) → Passes (check_internal c dp) ↔ InternalFits c dp
unfolding check_internal
internal-Passes c dp = elim (Bool-cases (has_internal_interface c)) [
  | inl dual ↦
      let placed =
        IsPlaced-Passes c.network.azs dp.internal "network.dataPath.internal.cidr"
          internal_incomplete (internal_az_unknown dp.internal.az c.network.azs) in
      rw dual (λ h. (λ _. placed.0 h, λ f. cc), λ (h, _). placed.1 (h refl))
  | inr single ↦ rw single (
    λ h. (
      λ f. cc,
      λ _. (ground (arith, eq_iff dp.internal.cidr ""), ground (arith, eq_iff dp.internal.az "")),
    ),
    λ (_, h). ground (arith, eq_iff dp.internal.cidr "", eq_iff dp.internal.az "", h refl),
  )
]

data_path-Passes :
    (c : Cluster) (dp : DataPathSpec)
    → Passes (check_data_path c (some dp)) ↔ (
        IsPlaced c.network.azs dp.external
        × InternalFits c dp
        × OnSome (λ (cs : ClusterSpec). All HasQuorum cs.node_groups) c.cluster_spec)
unfolding check_data_path check_external
data_path-Passes c dp =
    let external =
      IsPlaced-Passes c.network.azs dp.external "network.dataPath.external.cidr"
        (external_incomplete c.pattern_name) (external_az_unknown dp.external.az c.network.azs) in
    let internal = internal-Passes c dp in
    let groups =
      check_some-Passes (λ cs. check_each (check_quorum c.pattern_name) 0 cs.node_groups)
        c.cluster_spec
        (λ cs.
          check_each-Passes (check_quorum c.pattern_name) (quorum-Passes c.pattern_name) 0
            cs.node_groups) in
    let last =
      check_some c.cluster_spec (λ cs. check_each (check_quorum c.pattern_name) 0 cs.node_groups) in
    (
      λ h.
          let outer = (>>-Passes (check_external c dp >> check_internal c dp) last).0 h in
          let inner = (>>-Passes (check_external c dp) (check_internal c dp)).0 (outer.0) in
          (external.0 (inner.0), internal.0 (inner.1), groups.0 (outer.1)),
      λ (e, i, g). (>>-Passes (check_external c dp >> check_internal c dp) last).1 (
        (>>-Passes (check_external c dp) (check_internal c dp)).1 (external.1 e, internal.1 i),
        groups.1 g,
      ),
    )

data_path-FitsPattern :
    (c : Cluster) (o : Option DataPathSpec)
    → Passes (check_data_path c o) ↔ (
        (dp : DataPathSpec) × (o ≡ some dp)
        × IsPlaced c.network.azs dp.external
        × InternalFits c dp
        × OnSome (λ (cs : ClusterSpec). All HasQuorum cs.node_groups) c.cluster_spec)
data_path-FitsPattern c none = (λ h. unfold check_data_path in cc, λ h. cc (h.1))
data_path-FitsPattern c (some dp) = (
  λ h. let facts = (data_path-Passes c dp).0 h in (dp, refl, facts.0, facts.1, facts.2),
  λ (dp', e, p, i, g).
      let same : dp ≡ dp' = some-injective dp dp' e in
      rw same ((data_path-Passes c dp').1 (p, i, g)),
)

is_empty-false : (s : String) → s ≢ "" → is_empty s ≡ false
is_empty-false s h = ground (arith, eq_iff s "")

-- A cluster that names a pattern is accepted exactly when it fits the pattern: the pattern is known,
-- the external subnet is a /24 in a zone of the cluster, so is the internal one if the pattern has
-- it (else it is left out), and no node group but a GPU group has one or two nodes.
pub validate_pattern_iff :
    (c : Cluster) → c.pattern_name ≢ "" → Passes (validate_pattern c) ↔ FitsPattern c
unfolding validate_pattern
validate_pattern_iff c named =
    let known = fail_if (not (is_bnk_pattern c)) (pattern_unknown c.pattern_name) in
    let warning =
      warn_if (str_eq (normalize_pattern c.pattern_name) sriov_external) sriov_experimental in
    let path = check_data_path c c.network.data_path in
    let facts = data_path-FitsPattern c c.network.data_path in
    rw (is_empty-false c.pattern_name named) (
      λ h.
          let outer = (>>-Passes (known >> warning) path).0 h in
          let inner = (>>-Passes known warning).0 (outer.0) in
          let found = facts.0 (outer.1) in
          (ground arith, found.0, found.1, found.2, found.3, found.4),
      λ (bnk, dp, e, p, i, g).
          (>>-Passes (known >> warning) path).1 (ground arith, facts.1 (dp, e, p, i, g)),
    )
