-- ===== src/Tests/Loads.antt =====
-- Whole configurations: loading, defaults, patterns and node groups.
use awsbnkctl.Base.{◌≡◌, ◌≢◌, ◌↔◌, refl, or_else_ℤ, true, some, [], All}
use awsbnkctl.Intent.Schema.{Cluster, ClusterSpec}
use awsbnkctl.Intent.Pattern.{is_bnk_pattern, normalize_pattern}
use awsbnkctl.Intent.Check.{Passes}
use awsbnkctl.Intent.Check.Passing.{OnSome}
use awsbnkctl.Intent.Defaults.{apply_defaults}
use awsbnkctl.Intent.Defaults.Laws.{apply_defaults_idem}
use awsbnkctl.Intent.Validate.{cluster, at_path, load}
use awsbnkctl.Intent.Validate.Reload.{load_again}
use awsbnkctl.Intent.Validate.Quorum.{HasThree, load-HasThree}
use awsbnkctl.Intent.Validate.Pattern.{validate_pattern}
use awsbnkctl.Intent.Validate.Pattern.Exact.{FitsPattern, validate_pattern_iff}
use awsbnkctl.Net.{parse_addr, parse_ip, to4, show_ip4, mask_bytes, contains_ip, equal_ip}
use awsbnkctl.Duration.{parse_duration}
use awsbnkctl.Base.{cut, show_byte}
use awsbnkctl.Net.Ip4.{parse_v4}
use awsbnkctl.Intent.Validate.{validate}
use awsbnkctl.Intent.Address.{pool_range, self_ip_pool_range, derive_self_ip}
use awsbnkctl.Intent.Defaults.{default_testing, default_demo, default_big_ip_ve, default_ai}
use awsbnkctl.Intent.Pattern.{has_internal_interface}
use awsbnkctl.Intent.Defaults.Addresses.{default_network, network_self_ips}
use awsbnkctl.Intent.Defaults.Groups.{default_cluster_spec}
use awsbnkctl.Intent.Validate.Groups.{deny_table, check_pin, check_group, validate_node_groups}
use awsbnkctl.Intent.Validate.BigIp.{check_reserved, check_vip, validate_big_ip_ve}
use awsbnkctl.Intent.Validate.Demo.{validate_testing, validate_demo}
use awsbnkctl.Intent.Validate.Kubernetes.{validate_kubernetes_version}
use awsbnkctl.Samples.{plain, demo_cluster}

abbrev loaded : Cluster
loaded = at_path "cluster.yaml" (apply_defaults demo_cluster)

demo_loads : load plain "cluster.yaml" (some demo_cluster) ≡ cluster [] loaded
unfolding parse_addr parse_ip to4 show_ip4 mask_bytes contains_ip equal_ip parse_duration cut
    show_byte parse_v4 validate load pool_range self_ip_pool_range derive_self_ip default_testing
    default_demo default_big_ip_ve default_ai apply_defaults is_bnk_pattern has_internal_interface
    default_network network_self_ips default_cluster_spec deny_table check_pin check_group
    validate_node_groups check_reserved check_vip validate_big_ip_ve validate_testing validate_demo
    validate_kubernetes_version validate_pattern or_else_ℤ
demo_loads = refl

loaded-is_bnk : is_bnk_pattern loaded ≡ true
unfolding is_bnk_pattern normalize_pattern apply_defaults
loaded-is_bnk = refl

load_again_example : load plain "cluster.yaml" (some loaded) ≡ cluster [] loaded
load_again_example = load_again plain "cluster.yaml" demo_cluster [] loaded demo_loads

load-HasThree_example :
    OnSome (λ (cs : ClusterSpec). All HasThree cs.node_groups) loaded.cluster_spec
load-HasThree_example =
    load-HasThree plain "cluster.yaml" demo_cluster [] loaded loaded-is_bnk demo_loads

apply_defaults_idem_example :
    apply_defaults (apply_defaults demo_cluster) ≡ apply_defaults demo_cluster
apply_defaults_idem_example = apply_defaults_idem demo_cluster

demo-named : demo_cluster.pattern_name ≢ ""
demo-named e = cc

validate_pattern_iff_example : Passes (validate_pattern demo_cluster) ↔ FitsPattern demo_cluster
validate_pattern_iff_example = validate_pattern_iff demo_cluster demo-named
