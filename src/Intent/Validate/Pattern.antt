-- ===== src/Intent/Validate/Pattern.antt =====
-- validatePattern and requireSlash24.
pub mod Exact
use awsbnkctl.Base.{
  ℕ, String, Bool, true, false, ◌&&◌, ◌||◌, not, Option, none, some, List, [], ◌∷◌, str_eq, ◌==◌,
  is_empty, contains, ℤ, pos, ltb_ℤ, if◌then◌else◌,
}
use awsbnkctl.Net.{IpNet, parse_cidr}
use awsbnkctl.Intent.Schema.{Cluster, ClusterSpec, DataPathSpec, NodeGroupSpec, is_gpu}
use awsbnkctl.Intent.Pattern.{
  normalize_pattern, is_bnk_pattern, has_internal_interface, sriov_external,
}
use awsbnkctl.Intent.Check.{
  Check, pattern_unknown, data_path_required, external_incomplete, single_interface,
  internal_incomplete, cidr_invalid, cidr_not_24, external_az_unknown, internal_az_unknown, quorum,
  sriov_experimental, pass, fail, fail_if, warn_if, ◌>>◌, check_some, check_each,
}

abbrev pub require_24 : String → String → Option IpNet → Check
require_24 cidr name none = fail (cidr_invalid name cidr)
require_24 cidr name (some n) =
    fail_if (not (n.bits == 32) || not (n.ones == 24)) (cidr_not_24 name cidr n.ones)

unfoldable pub require_slash_24 : String → String → Check
unfolding parse_cidr
require_slash_24 cidr name = require_24 cidr name (parse_cidr cidr)

unfoldable pub check_external : Cluster → DataPathSpec → Check
unfolding require_slash_24
check_external c dp =
    fail_if (is_empty dp.external.cidr || is_empty dp.external.az)
      (external_incomplete c.pattern_name)
    >> require_slash_24 dp.external.cidr "network.dataPath.external.cidr"
    >> fail_if (not (contains c.network.azs dp.external.az))
        (external_az_unknown dp.external.az c.network.azs)

unfoldable pub check_internal : Cluster → DataPathSpec → Check
unfolding require_slash_24
check_internal c dp =
    if has_internal_interface c
    then fail_if (is_empty dp.internal.cidr || is_empty dp.internal.az) internal_incomplete
      >> require_slash_24 dp.internal.cidr "network.dataPath.internal.cidr"
      >> fail_if (not (contains c.network.azs dp.internal.az))
          (internal_az_unknown dp.internal.az c.network.azs)
    else fail_if (not (is_empty dp.internal.cidr) || not (is_empty dp.internal.az))
        (single_interface c.pattern_name)

-- The quorum rule for one node group.
unfoldable pub check_quorum : String → ℕ → NodeGroupSpec → Check
check_quorum pattern_text i ng =
    fail_if (not (is_gpu ng) && (ltb_ℤ (pos 0) ng.desired_size && ltb_ℤ ng.desired_size (pos 3)))
      (quorum pattern_text i ng.desired_size)

unfoldable pub check_data_path : Cluster → Option DataPathSpec → Check
unfolding check_external check_internal check_quorum check_each
check_data_path c none = fail (data_path_required c.pattern_name)
check_data_path c (some dp) =
    check_external c dp
    >> check_internal c dp
    >> check_some c.cluster_spec (λ cs. check_each (check_quorum c.pattern_name) 0 cs.node_groups)

unfoldable pub validate_pattern : Cluster → Check
unfolding check_data_path normalize_pattern
validate_pattern c =
    if is_empty c.pattern_name
    then pass
    else fail_if (not (is_bnk_pattern c)) (pattern_unknown c.pattern_name)
      >> warn_if (str_eq (normalize_pattern c.pattern_name) sriov_external) sriov_experimental
      >> check_data_path c c.network.data_path
