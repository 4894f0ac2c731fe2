-- ===== src/Intent/Address.antt =====
-- The addresses that internal/intent/cluster.go derives from the data-path subnets.
pub mod SelfIps
use Prim.Native.String
use awsbnkctl.Base.{
  ℕ, ◌+◌, ◌-◌, ◌%◌, String, Bool, true, false, ◌&&◌, ◌||◌, not, Option, none, some, List, [], ◌∷◌,
  ltb, leb, ◌==◌, if◌then◌else◌, is_empty, cut, split, join, length, ℤ, pos, ltb_ℤ,
}
use awsbnkctl.Net.{Octets, IpNet, parse_ip, parse_cidr, to4, show_ip4}
use awsbnkctl.Intent.Schema.{Cluster, DataPathSpec}

pub data AddressError : Type 0 where
  cidr_not_set : AddressError
  malformed_cidr : String → AddressError
  non_ipv4_cidr : String → AddressError
  not_ipv4 : String → AddressError
  reserved_block : String → AddressError

pub data Derived (A : Type 0) : Type 0 where
  ok : A → Derived A
  err : AddressError → Derived A

abbrev external_cidr : Option DataPathSpec → String
external_cidr none = ""
external_cidr (some dp) = dp.external.cidr

-- The first three parts with a host part behind them.
with_host : String → String → List String → Derived String
with_host cidr host (a ∷ b ∷ c ∷ d ∷ []) = ok (join "." (a ∷ b ∷ c ∷ host ∷ []))
with_host cidr host _ = err (non_ipv4_cidr cidr)

abbrev host_of_network : String → String → Option (String × String) → Derived String
host_of_network cidr host none = err (malformed_cidr cidr)
host_of_network cidr host (some (network, mask)) =
    if is_empty network then err (malformed_cidr cidr) else with_host cidr host (split b'.' network)

-- The body that DefaultVIP and DefaultJumphostExtIP share, at their host part.
default_host : String → String → Derived String
unfolding with_host split join cut
default_host host cidr =
    if is_empty cidr then err cidr_not_set else host_of_network cidr host (cut b'/' cidr)

-- StateDir
unfoldable pub state_dir : Cluster → String
state_dir c = String.◌++◌ ".awsbnkctl/" c.metadata.name

unfoldable pub default_vip : Cluster → Derived String
unfolding default_host
default_vip c = default_host "100" (external_cidr c.network.data_path)

unfoldable pub default_jumphost_ext_ip : Cluster → Derived String
unfolding default_host
default_jumphost_ext_ip c = default_host "200" (external_cidr c.network.data_path)

unfoldable pub is_reserved_gateway_vip_offset : ℤ → Bool
is_reserved_gateway_vip_offset offset = not (ltb_ℤ offset (pos 100)) && not (ltb_ℤ (pos 119) offset)

-- SelfIPPoolPrefix is 27, so a block has 32 addresses and the mask is 31.
abbrev pub pool_mask : ℕ
pool_mask = 31

-- The pool around an address: bytes wrap at 256.
unfoldable pub pool_range : String → Octets → Derived (Octets × Octets)
pool_range self_ip o =
    let first = o.o3 - o.o3 % (pool_mask + 1) in
    if first == 0
    then err (reserved_block self_ip)
    else ok (record o { o3 = first }, record o { o3 = (first + pool_mask + 255) % 256 })

abbrev pool_of : String → Option Octets → Derived (Octets × Octets)
pool_of self_ip none = err (not_ipv4 self_ip)
pool_of self_ip (some o) = pool_range self_ip o

-- nil has no 4-byte form.
abbrev pub to4? : Option (List ℕ) → Option Octets
to4? none = none
to4? (some ip) = to4 ip

abbrev show_range : Derived (Octets × Octets) → Derived (String × String)
show_range (err e) = err e
show_range (ok (a, b)) = ok (show_ip4 a, show_ip4 b)

unfoldable pub self_ip_pool_range : String → Derived (String × String)
self_ip_pool_range self_ip = show_range (pool_of self_ip (to4? (parse_ip self_ip)))

abbrev derive_from : ℕ → ℕ → Option Octets → String × ℕ
derive_from host_offset prefix none = ("", prefix)
derive_from host_offset prefix (some base) =
    if not (prefix == 24) || ltb host_offset 1 || ltb 254 host_offset
    then ("", prefix)
    else (show_ip4 (record base { o3 = host_offset }), prefix)

abbrev derive_in : ℕ → Option IpNet → String × ℕ
derive_in host_offset none = ("", 0)
derive_in host_offset (some n) = derive_from host_offset n.ones (to4 n.ip)

-- DeriveSelfIP; its callers pass the constant offset 240.
unfoldable pub derive_self_ip : String → ℕ → String × ℕ
derive_self_ip cidr host_offset = derive_in host_offset (parse_cidr cidr)
