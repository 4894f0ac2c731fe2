-- ===== src/Tests/Networks.antt =====
-- Addresses, pools and durations at concrete inputs.
use awsbnkctl.Base.{◌≡◌, ◌≢◌, refl, none, some, [], ◌∷◌, negsuc, arith, cut, show_byte}
use awsbnkctl.Net.{Octets, parse_ip, parse_addr, parse_cidr, show_ip4, to4, mask_bytes}
use awsbnkctl.Net.Ip4.{parse_v4}
use awsbnkctl.Net.Ip6.{parse_v6}
use awsbnkctl.Net.RoundTrip.{AreBytes}
use awsbnkctl.Duration.{parse_duration}
use awsbnkctl.Intent.Address.{ok, derive_self_ip, self_ip_pool_range}
use awsbnkctl.Intent.Address.SelfIps.{IsPool, self_ip_pool_range-IsPool}
use awsbnkctl.Samples.{plain}

parse_v4_run : parse_ip "1.20.255.4" ≡ some (1 ∷ 20 ∷ 255 ∷ 4 ∷ [])
unfolding parse_ip parse_addr parse_v4 parse_v6
parse_v4_run = refl

parse_v4_zero_run : parse_ip "1.20.255.04" ≡ none
unfolding parse_ip parse_addr parse_v4 parse_v6
parse_v4_zero_run = refl

parse_v6_run :
    parse_ip "fe80::1:2"
    ≡ some (0xfe ∷ 0x80 ∷ 0 ∷ 0 ∷ 0 ∷ 0 ∷ 0 ∷ 0 ∷ 0 ∷ 0 ∷ 0 ∷ 0 ∷ 0 ∷ 1 ∷ 0 ∷ 2 ∷ [])
unfolding parse_ip parse_addr parse_v4 parse_v6
parse_v6_run = refl

parse_duration_run : parse_duration plain "-1h15m" ≡ some (negsuc 4499999999999)
unfolding parse_duration
parse_duration_run = refl

abbrev self_ip : Octets
self_ip = record { o0 = 10; o1 = 0; o2 = 10; o3 = 240 }

abbrev gateway : Octets
gateway = record { o0 = 10; o1 = 0; o2 = 10; o3 = 1 }

self_ip-AreBytes : AreBytes self_ip
self_ip-AreBytes = record { b0 = omega arith; b1 = omega arith; b2 = omega arith; b3 = omega arith }

gateway-AreBytes : AreBytes gateway
gateway-AreBytes = record { b0 = omega arith; b1 = omega arith; b2 = omega arith; b3 = omega arith }

self_ip_pool_range-IsPool_example :
    (a : Octets) × (b : Octets) × (self_ip_pool_range (show_ip4 self_ip)
      ≡ ok (show_ip4 a, show_ip4 b))
    × IsPool self_ip a b
self_ip_pool_range-IsPool_example = self_ip_pool_range-IsPool self_ip self_ip-AreBytes (omega arith)

derived_run : derive_self_ip "10.0.10.0/24" 240 ≡ ("10.0.10.240", 24)
unfolding derive_self_ip parse_cidr cut parse_ip parse_addr parse_v4 to4 mask_bytes show_ip4
    show_byte
derived_run = refl

derived_named : (derive_self_ip "10.0.10.0/24" 240).0 ≢ ""
derived_named = rw derived_run (λ e. cc)
