-- ===== src/Tests/Blocks.antt =====
-- The blocks of a configuration one by one: versions, node groups, the endpoint, the demo and the
-- BIG-IP address.
use awsbnkctl.Base.{
  ℕ, ◌≡◌, ◌≢◌, ◌↔◌, refl, String, true, false, some, List, [], ◌∷◌, All, ℤ, pos, cut, show_byte,
}
use awsbnkctl.Net.{
  Octets, IpNet, parse_ip, parse_cidr, parse_addr, to4, mask_bytes, contains_ip, equal_ip, show_ip4,
}
use awsbnkctl.Net.Ip4.{parse_v4}
use awsbnkctl.Intent.Schema.{ClusterSpec}
use awsbnkctl.Intent.Schema.Ai.{SageMakerSpec}
use awsbnkctl.Intent.Check.{Passes}
use awsbnkctl.Intent.Check.Passing.{OnSome}
use awsbnkctl.Intent.Validate.Kubernetes.{
  version, parse_kubernetes_version, validate_kubernetes_version,
}
use awsbnkctl.Intent.Validate.Kubernetes.Floor.{IsSupported, validate_kubernetes_version_iff}
use awsbnkctl.Intent.Validate.Groups.{validate_node_groups}
use awsbnkctl.Intent.Validate.Groups.Exact.{IsSound, denied_zones, validate_node_groups_iff}
use awsbnkctl.Intent.Validate.Ai.{validate_sage_maker}
use awsbnkctl.Intent.Validate.Ai.Gpus.{IsEndpoint, validate_sage_maker_iff}
use awsbnkctl.Intent.Validate.Pattern.Exact.{IsSlash24}
use awsbnkctl.Intent.Validate.BigIp.{check_vip, check_reserved}
use awsbnkctl.Intent.Validate.BigIp.Vip.{SameNet, IsFreeHost, check_vip_sound}
use awsbnkctl.Intent.Schema.Ai.{SyntheticSpec}
use awsbnkctl.Intent.Ai.{zero_synthetic}
use awsbnkctl.Base.{negsuc}
use awsbnkctl.Samples.{plain, demo_cluster}

validate_kubernetes_version_iff_example : Passes (validate_kubernetes_version "1.35") ↔ (
    (major : ℤ) × (minor : ℤ) × (parse_kubernetes_version "1.35" ≡ version major minor)
    × IsSupported major minor)
validate_kubernetes_version_iff_example = validate_kubernetes_version_iff "1.35"

validate_node_groups_iff_example :
    Passes (validate_node_groups plain demo_cluster)
    ↔ OnSome
        (λ (cs : ClusterSpec).
          All (IsSound demo_cluster.network.azs (denied_zones plain demo_cluster)) cs.node_groups)
        demo_cluster.cluster_spec
validate_node_groups_iff_example = validate_node_groups_iff plain demo_cluster

abbrev deny_env : String
deny_env = "ap-southeast-2:ap-southeast-2c"

deny_env-named : deny_env ≢ ""
deny_env-named e = cc

abbrev endpoint : SageMakerSpec
endpoint = record {
  enabled = true;
  model = "llama3";
  instance_type = "ml.g5.12xlarge";
  scale_to_zero = false;
  image_uri = "";
  tensor_parallel_size = pos 4;
  max_model_len = pos 0;
}

validate_sage_maker_iff_example :
    Passes (validate_sage_maker endpoint) ↔ (endpoint.enabled ≡ true → IsEndpoint endpoint)
validate_sage_maker_iff_example = validate_sage_maker_iff endpoint

abbrev external_net : IpNet
external_net = record { ip = 10 ∷ 0 ∷ 10 ∷ 0 ∷ []; ones = 24; bits = 32 }

external-IsSlash24 : IsSlash24 "10.0.10.0/24"
unfolding parse_cidr cut parse_ip parse_addr parse_v4 mask_bytes
external-IsSlash24 = (external_net, refl, refl, refl)

vip-Passes : Passes (check_vip "10.0.10.120" "10.0.10.0/24")
unfolding check_vip parse_cidr cut parse_ip parse_addr parse_v4 mask_bytes to4 contains_ip equal_ip
    check_reserved show_ip4 show_byte
vip-Passes = refl

check_vip_sound_example :
    (n : IpNet) × (vip : List ℕ) × (base : Octets) × (o : Octets) × (parse_cidr "10.0.10.0/24"
      ≡ some n)
    × (parse_ip "10.0.10.120" ≡ some vip)
    × (to4 n.ip ≡ some base)
    × (to4 vip ≡ some o)
    × SameNet base o
    × IsFreeHost o.o3
check_vip_sound_example = check_vip_sound "10.0.10.120" "10.0.10.0/24" external-IsSlash24 vip-Passes

-- A block that asks for minus two replicas.
abbrev minus_two : SyntheticSpec
minus_two = record zero_synthetic { enabled = true; replicas = negsuc 1 }
