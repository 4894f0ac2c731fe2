-- ===== src/Intent/Pattern.antt =====
-- The BNK interface patterns of cluster.yaml and what is read off them.
use awsbnkctl.Base.{String, Bool, false, ◌||◌, Option, none, some, str_eq, if◌then◌else◌}
use awsbnkctl.Intent.Schema.{Cluster, BnkSpec}

abbrev pub external_only : String
external_only = "external-only"

abbrev pub dual_interface : String
dual_interface = "dual-interface"

abbrev pub sriov_external : String
sriov_external = "sriov-external"

abbrev pub host_device : String
host_device = "host-device"

unfoldable pub normalize_pattern : String → String
normalize_pattern p = if str_eq p host_device then dual_interface else p

abbrev pub is_bnk_text : String → Bool
is_bnk_text p = str_eq p external_only || str_eq p dual_interface || str_eq p sriov_external

unfoldable pub is_bnk_pattern : Cluster → Bool
is_bnk_pattern c = is_bnk_text (normalize_pattern c.pattern_name)

unfoldable pub has_internal_interface : Cluster → Bool
has_internal_interface c = str_eq (normalize_pattern c.pattern_name) dual_interface

abbrev binding_of : String → String
binding_of p =
    if str_eq p external_only || str_eq p dual_interface
    then "host-device"
    else if str_eq p sriov_external
    then "sriov"
    else ""

unfoldable pub dataplane_binding : Cluster → String
dataplane_binding c = binding_of (normalize_pattern c.pattern_name)

abbrev bgp_of : Option BnkSpec → Bool
bgp_of none = false
bgp_of (some b) = b.bgp || b.dynamic_routing

unfoldable pub is_bgp_enabled : Option Cluster → Bool
is_bgp_enabled none = false
is_bgp_enabled (some c) = bgp_of c.bnk
