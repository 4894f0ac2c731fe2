-- ===== src/Intent/Validate.antt =====
-- validate and Load of internal/intent/cluster.go.
pub mod Kubernetes
pub mod Groups
pub mod Pattern
pub mod Demo
pub mod BigIp
pub mod Ai
pub mod Reload
pub mod Parts
pub mod Quorum
use awsbnkctl.Base.{
  ℕ, String, Bool, true, false, ◌&&◌, not, Option, none, some, List, is_empty, null, if◌then◌else◌,
}
use awsbnkctl.Platform.{Platform}
use awsbnkctl.Regex.{match_string}
use awsbnkctl.Intent.Schema.{Cluster, ClusterSpec, NodeGroupSpec, DataPathSpec, SelfIpsSpec}
use awsbnkctl.Intent.Schema.Ai.{AiSpec}
use awsbnkctl.Intent.Address.{Derived, ok, err, self_ip_pool_range, AddressError}
use awsbnkctl.Intent.Names.{cluster_name_re, node_group_name_re}
use awsbnkctl.Intent.Pattern.{is_bnk_pattern, has_internal_interface}
use awsbnkctl.Intent.Defaults.{apply_defaults}
use awsbnkctl.Intent.Check.{
  Check, IntentError, Warning, name_pattern, region_required, external_self_ip, internal_self_ip,
  azs_required, public_required, private_required, vpc_cidr_required, node_groups_required,
  node_group_name, pass, fail, fail_if, when, ◌>>◌, check_some, check_each,
}
use Kubernetes.{validate_kubernetes_version}
use Groups.{validate_node_groups}
use Pattern.{validate_pattern}
use Demo.{validate_testing, validate_bnk, validate_demo, demo_on, big_ip_ve_on}
use BigIp.{validate_big_ip_ve}
use Ai.{validate_sage_maker, validate_synthetic}

abbrev pub check_range : (AddressError → IntentError) → Derived (String × String) → Check
check_range wrap (ok range) = pass
check_range wrap (err e) = fail (wrap e)

unfoldable pub check_self_ips : Bool → SelfIpsSpec → Check
check_self_ips has sip =
    when (not (is_empty sip.external))
      (check_range external_self_ip (self_ip_pool_range sip.external))
    >> when (not (is_empty sip.internal) && has)
        (check_range internal_self_ip (self_ip_pool_range sip.internal))

unfoldable pub check_group_name : ℕ → NodeGroupSpec → Check
unfolding match_string
check_group_name i ng =
    fail_if (not (match_string node_group_name_re ng.name)) (node_group_name ng.name)

unfoldable pub check_cluster_spec : ClusterSpec → Check
unfolding check_each check_group_name
check_cluster_spec cs =
    validate_kubernetes_version cs.kubernetes_version
    >> fail_if (null cs.node_groups) node_groups_required
    >> check_each check_group_name 0 cs.node_groups

-- The checks of the metadata and the network.
unfoldable pub check_network : Cluster → Check
unfolding check_self_ips match_string
check_network c =
    fail_if (not (match_string cluster_name_re c.metadata.name)) (name_pattern c.metadata.name)
    >> fail_if (is_empty c.metadata.region) region_required
    >> when (is_bnk_pattern c) (
        check_some c.network.data_path
          (λ dp. check_some dp.self_ips (check_self_ips (has_internal_interface c))))
    >> fail_if (null c.network.azs) azs_required
    >> fail_if (null c.network.subnets.public) public_required
    >> fail_if (null c.network.subnets.private) private_required
    >> fail_if (is_empty c.network.vpc_cidr) vpc_cidr_required

unfoldable pub check_ai : Platform → AiSpec → Check
check_ai p ai =
    check_some ai.sagemaker (λ s. when s.enabled (validate_sage_maker s))
    >> check_some ai.synthetic (λ s. when s.enabled (validate_synthetic p s))

unfoldable pub validate : Platform → Cluster → Check
unfolding check_network check_cluster_spec check_ai
validate p c =
    check_network c
    >> check_some c.cluster_spec check_cluster_spec
    >> check_some c.bnk validate_bnk
    >> validate_pattern c
    >> check_some c.testing (validate_testing c)
    >> when (demo_on c.demo) (validate_demo p c)
    >> check_some c.big_ip_ve (λ ve. when ve.enabled (validate_big_ip_ve c ve))
    >> check_some c.ai (check_ai p)
    >> validate_node_groups p c

-- Load: what os.ReadFile and the YAML decoder give is an argument, `none` an error of theirs.
pub data Loaded : Type 0 where
  cluster : List Warning → Cluster → Loaded
  unreadable : Loaded
  invalid : List Warning → IntentError → Loaded

-- `c.SourcePath = path`
abbrev pub at_path : String → Cluster → Cluster
at_path path c = record c { source_path = path }

abbrev pub loaded_as : String → Cluster → Check → Loaded
loaded_as path c (ws, none) = cluster ws (at_path path c)
loaded_as path c (ws, some e) = invalid ws e

unfoldable pub load : Platform → String → Option Cluster → Loaded
load p path none = unreadable
load p path (some c) = loaded_as path (apply_defaults c) (validate p (apply_defaults c))
