-- ===== src/Intent/Defaults/Addresses.antt =====
-- The availability zones and the self IPs of applyDefaults.
use Prim.Native.String
use awsbnkctl.Base.{
  ℕ, suc, ◌%◌, String, Bool, true, false, ◌&&◌, ◌||◌, not, Option, none, some, List, [], ◌∷◌,
  str_eq, pos, if◌then◌else◌, is_empty, length, get_or, null, or_else_ℤ,
}
use awsbnkctl.Intent.Schema.{Cluster, Network, SubnetSpec, DataPathSpec, SelfIpsSpec}
use awsbnkctl.Intent.Pattern.{is_bnk_pattern, has_internal_interface}
use awsbnkctl.Intent.Address.{derive_self_ip}

abbrev pub is_auto : String → Bool
is_auto az = is_empty az || str_eq az "auto"

abbrev pub all_auto : List SubnetSpec → Bool
all_auto [] = true
all_auto (s ∷ ss) = is_auto s.az && all_auto ss

abbrev auto_if_used : SubnetSpec → Bool
auto_if_used s = is_empty s.cidr || is_auto s.az

abbrev data_path_auto : Option DataPathSpec → Bool
data_path_auto none = true
data_path_auto (some dp) = auto_if_used dp.external && auto_if_used dp.internal

abbrev data_path_used : Option DataPathSpec → Bool
data_path_used none = false
data_path_used (some dp) = not (is_empty dp.external.cidr) || not (is_empty dp.internal.cidr)

-- allSubnetAZsEmptyOrAuto: some subnet is there, and none names a zone.
unfoldable pub all_subnet_azs_empty_or_auto : Network → Bool
all_subnet_azs_empty_or_auto n =
    all_auto n.subnets.public
    && all_auto n.subnets.private
    && data_path_auto n.data_path
    && (not (null n.subnets.public) || not (null n.subnets.private) || data_path_used n.data_path)

-- Round `i` of the loops over the subnets.
unfoldable pub fill_azs : List String → ℕ → List SubnetSpec → List SubnetSpec
fill_azs azs i [] = []
fill_azs azs i (s ∷ ss) =
    (if is_auto s.az then record s { az = get_or azs (i % length azs) "" } else s)
    ∷ fill_azs azs (suc i) ss

abbrev pub fill_az : List String → SubnetSpec → SubnetSpec
fill_az azs s =
    if not (is_empty s.cidr) && is_auto s.az then record s { az = get_or azs 0 "" } else s

abbrev pub fill_data_path : List String → Option DataPathSpec → Option DataPathSpec
fill_data_path azs none = none
fill_data_path azs (some dp) =
    some (record dp { external = fill_az azs dp.external; internal = fill_az azs dp.internal })

abbrev pub network_azs : String → Network → List String
unfolding all_subnet_azs_empty_or_auto
network_azs region n =
    if null n.azs && not (is_empty region) && all_subnet_azs_empty_or_auto n
    then String.◌++◌ region "a" ∷ String.◌++◌ region "b" ∷ []
    else n.azs

-- The zones are spread over the subnets, if there are any.
unfoldable pub spread : List String → Network → Network
unfolding fill_azs
spread azs n = if null azs then record n { azs = azs } else record n {
  azs = azs;
  subnets = record {
    public = fill_azs azs 0 n.subnets.public;
    private = fill_azs azs 0 n.subnets.private;
  };
  data_path = fill_data_path azs n.data_path;
}

unfoldable pub default_network : String → Network → Network
unfolding all_subnet_azs_empty_or_auto spread
default_network region n = spread (network_azs region n) n

unfoldable pub default_azs : Cluster → Cluster
default_azs c = record c { network = default_network c.metadata.region c.network }

abbrev zero_self_ips : SelfIpsSpec
zero_self_ips = record { external = ""; internal = ""; prefix_len = pos 0 }

abbrev pub or_zero : Option SelfIpsSpec → SelfIpsSpec
or_zero none = zero_self_ips
or_zero (some sip) = sip

-- A derived address and its prefix length, unless the derivation gave the empty text.
abbrev pub set_external : String × ℕ → SelfIpsSpec → SelfIpsSpec
set_external (ip, p) sip =
    if is_empty ip
    then sip
    else record sip { external = ip; prefix_len = or_else_ℤ sip.prefix_len (pos p) }

abbrev pub set_internal : String × ℕ → SelfIpsSpec → SelfIpsSpec
set_internal (ip, p) sip =
    if is_empty ip
    then sip
    else record sip { internal = ip; prefix_len = or_else_ℤ sip.prefix_len (pos p) }

unfoldable pub derive_external : String → SelfIpsSpec → SelfIpsSpec
derive_external cidr sip =
    if is_empty sip.external then set_external (derive_self_ip cidr 240) sip else sip

unfoldable pub derive_internal : Bool → String → SelfIpsSpec → SelfIpsSpec
derive_internal has cidr sip =
    if has && is_empty sip.internal then set_internal (derive_self_ip cidr 240) sip else sip

unfoldable pub default_prefix_len : SelfIpsSpec → SelfIpsSpec
default_prefix_len sip = record sip { prefix_len = or_else_ℤ sip.prefix_len (pos 24) }

unfoldable pub self_ips_of : Bool → DataPathSpec → SelfIpsSpec
unfolding derive_external derive_internal default_prefix_len
self_ips_of has dp =
    default_prefix_len (
      derive_internal has dp.internal.cidr (derive_external dp.external.cidr (or_zero dp.self_ips)))

abbrev pub with_self_ips : Bool → Option DataPathSpec → Option DataPathSpec
unfolding self_ips_of
with_self_ips has none = none
with_self_ips has (some dp) = some (record dp { self_ips = some (self_ips_of has dp) })

-- Only a BNK pattern has self IPs; only dual-interface has an internal one.
unfoldable pub network_self_ips : Bool → Bool → Network → Network
unfolding self_ips_of
network_self_ips bnk has n = record n {
  data_path = if bnk then with_self_ips has n.data_path else n.data_path;
}

unfoldable pub default_self_ips : Cluster → Cluster
default_self_ips c = record c {
  network = network_self_ips (is_bnk_pattern c) (has_internal_interface c) c.network;
}
