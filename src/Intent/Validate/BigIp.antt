-- ===== src/Intent/Validate/BigIp.antt =====
-- validateBigIPVE.
pub mod Vip
use awsbnkctl.Base.{
  ℕ, String, Bool, true, false, ◌&&◌, ◌||◌, not, Option, none, some, List, [], ◌∷◌, ◌++◌, str_eq,
  is_empty, leb, ◌==◌, length, if◌then◌else◌,
}
use awsbnkctl.Regex.{match_string}
use awsbnkctl.Net.{Octets, IpNet, parse_ip, parse_cidr, to4, show_ip4, contains_ip, equal_ip}
use awsbnkctl.Intent.Schema.{Cluster, BigIpVeSpec, DataPathSpec}
use awsbnkctl.Intent.Names.{instance_type_re}
use awsbnkctl.Intent.Pattern.{has_internal_interface}
use awsbnkctl.Intent.Validate.Demo.{jumphost_enabled, demo_on, out_of_range}
use awsbnkctl.Intent.Check.{
  Check, ve_needs_dual, ve_needs_jumphost, ve_needs_demo, ve_needs_external, ve_instance_type,
  ve_license_tier, ve_external_invalid, ve_vip_invalid, ve_external_not_ipv4, ve_vip_outside,
  ve_vip_aws_reserved, ve_vip_taken, ve_subnet, pass, fail, fail_if, ◌>>◌,
}

abbrev pub big_ip_ve_reserved_offsets : List ℕ
big_ip_ve_reserved_offsets = 50 ∷ 100 ∷ 110 ∷ 111 ∷ 112 ∷ 113 ∷ 200 ∷ 240 ∷ []

abbrev pub valid_tier : String → Bool
valid_tier t = str_eq t "Good" || str_eq t "Better" || str_eq t "Best"

abbrev pub bytes_or_nil : Option (List ℕ) → List ℕ
bytes_or_nil none = []
bytes_or_nil (some ip) = ip

-- The loop over the reserved offsets; `taken` are the addresses so far.
unfoldable pub check_reserved : String → String → List ℕ → Octets → List String → List ℕ → Check
check_reserved text cidr vip base taken [] = pass
check_reserved text cidr vip base taken (off ∷ offs) =
    let rip = show_ip4 (record base { o3 = off }) in
    let taken' = taken ++ rip ∷ [] in
    fail_if (equal_ip vip (bytes_or_nil (parse_ip rip))) (ve_vip_taken text cidr taken')
    >> check_reserved text cidr vip base taken' offs

abbrev pub aws_reserved : ℕ → Bool
aws_reserved off = leb off 3 || off == 255

abbrev pub check_base : String → String → List ℕ → Option Octets → Check
check_base text cidr vip none = fail (ve_external_not_ipv4 cidr)
check_base text cidr vip (some base) =
    check_reserved text cidr vip base [] big_ip_ve_reserved_offsets

abbrev pub check_host : String → String → List ℕ → IpNet → Option Octets → Check
check_host text cidr vip net none = fail (ve_vip_invalid text)
check_host text cidr vip net (some o) =
    fail_if (aws_reserved o.o3) (ve_vip_aws_reserved text o.o3)
    >> check_base text cidr vip (to4 net.ip)

abbrev pub check_inside : String → String → IpNet → Option (List ℕ) → Check
check_inside text cidr net none = fail (ve_vip_invalid text)
check_inside text cidr net (some vip) =
    fail_if (not (contains_ip net vip)) (ve_vip_outside text cidr)
    >> check_host text cidr vip net (to4 vip)

abbrev pub check_net : String → String → Option IpNet → Check
check_net text cidr none = fail (ve_external_invalid cidr)
check_net text cidr (some net) = check_inside text cidr net (parse_ip text)

abbrev pub external_of : Option DataPathSpec → String
external_of none = ""
external_of (some dp) = dp.external.cidr

-- Rule 6: the VIP.
unfoldable pub check_vip : String → String → Check
check_vip text cidr =
    fail_if (is_empty cidr) ve_needs_external >> check_net text cidr (parse_cidr cidr)

unfoldable pub validate_big_ip_ve : Cluster → BigIpVeSpec → Check
validate_big_ip_ve c ve =
    fail_if (not (has_internal_interface c)) (ve_needs_dual c.pattern_name)
    >> fail_if (not (jumphost_enabled c)) ve_needs_jumphost
    >> fail_if (not (demo_on c.demo)) ve_needs_demo
    >> fail_if (not (match_string instance_type_re ve.instance_type))
        (ve_instance_type ve.instance_type)
    >> fail_if (not (valid_tier ve.license_tier)) (ve_license_tier ve.license_tier)
    >> check_vip ve.vip (external_of c.network.data_path)
    >> fail_if (out_of_range ve.mgmt_subnet_index c.network.subnets.public)
        (ve_subnet ve.mgmt_subnet_index (length c.network.subnets.public))
