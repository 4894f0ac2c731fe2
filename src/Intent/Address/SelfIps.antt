-- ===== src/Intent/Address/SelfIps.antt =====
-- The self-IP pools and the self IPs that are derived for them.
use awsbnkctl.Base.{
  ℕ, ◌+◌, ◌-◌, ◌%◌, ◌<◌, ◌≤◌, ◌≡◌, ◌≢◌, refl, String, Option, none, some, [], ◌∷◌, arith,
}
use awsbnkctl.Net.{Octets, IpNet, parse_cidr, to4, show_ip4}
use awsbnkctl.Net.RoundTrip.{AreBytes, parse_ip-show_ip4}
use awsbnkctl.Net.Cidr.{parse_cidr-AreBytes}
use awsbnkctl.Intent.Address.{
  ok, err, reserved_block, pool_range, show_range, self_ip_pool_range, derive_from, derive_in,
  derive_self_ip,
}

-- A pool: the 31 addresses from a multiple of 32 on, in the network of an address.
abbrev pub IsPool : Octets → Octets → Octets → Type 0
IsPool o a b =
    (a.o0 ≡ o.o0)
    × (a.o1 ≡ o.o1)
    × (a.o2 ≡ o.o2)
    × (b.o0 ≡ o.o0)
    × (b.o1 ≡ o.o1)
    × (b.o2 ≡ o.o2)
    × (a.o3 % 32 ≡ 0)
    × (32 ≤ a.o3)
    × (b.o3 ≡ a.o3 + 30)
    × (b.o3 ≤ 254)
    × (a.o3 ≤ o.o3)
    × (o.o3 ≤ b.o3 + 1)

to4_bytes : (o : Octets) → to4 (o.o0 ∷ o.o1 ∷ o.o2 ∷ o.o3 ∷ []) ≡ some o
unfolding to4
to4_bytes o = refl

pool_range_reserved :
    (text : String) (o : Octets) → o.o3 < 32 → pool_range text o ≡ err (reserved_block text)
unfolding pool_range
pool_range_reserved text o h = ground arith

first_of_pool : Octets → Octets
first_of_pool o = record o { o3 = o.o3 - o.o3 % 32 }

last_of_pool : Octets → Octets
last_of_pool o = record o { o3 = o.o3 - o.o3 % 32 + 30 }

pool_range_free :
    (text : String) (o : Octets)
    → o.o3 < 256
    → 32 ≤ o.o3
    → pool_range text o ≡ ok (first_of_pool o, last_of_pool o)
unfolding pool_range first_of_pool last_of_pool
pool_range_free text o h k = ground arith

pool_of_text :
    (o : Octets)
    → AreBytes o
    → self_ip_pool_range (show_ip4 o) ≡ show_range (pool_range (show_ip4 o) o)
unfolding self_ip_pool_range
pool_of_text o h = rw (parse_ip-show_ip4 o h, to4_bytes o)

-- Every address of four bytes whose last byte is 32 or more has a pool: the text of the address
-- gives the texts of the first and the last address of it, and the last byte of the address is in
-- the pool or just behind it.
pub self_ip_pool_range-IsPool :
    (o : Octets)
    → AreBytes o
    → 32 ≤ o.o3
    → (a : Octets) × (b : Octets) × (self_ip_pool_range (show_ip4 o) ≡ ok (show_ip4 a, show_ip4 b))
      × IsPool o a b
unfolding first_of_pool last_of_pool
self_ip_pool_range-IsPool o h le = (
  first_of_pool o,
  last_of_pool o,
  rw (pool_of_text o h, pool_range_free (show_ip4 o) o h.b3 le),
  omega arith,
)

-- An address in the first 32 of its subnet is refused.
pub self_ip_pool_range_reserved :
    (o : Octets)
    → AreBytes o
    → o.o3 < 32
    → self_ip_pool_range (show_ip4 o) ≡ err (reserved_block (show_ip4 o))
self_ip_pool_range_reserved o h lt = rw (pool_of_text o h, pool_range_reserved (show_ip4 o) o lt)

derived_from :
    (k prefix : ℕ) (base : Octets)
    → (derive_from k prefix (some base)).0 ≢ ""
    → (prefix ≡ 24)
      × (derive_from k prefix (some base) ≡ (show_ip4 (record base { o3 = k }), 24))
      × (k ≤ 254)
derived_from k prefix base h = ground arith

-- What a derivation that gives an address has read.
pub derive_self_ip_parts :
    (cidr : String) (k : ℕ)
    → (derive_self_ip cidr k).0 ≢ ""
    → (base : Octets) × AreBytes base
      × (k ≤ 254)
      × (derive_self_ip cidr k ≡ (show_ip4 (record base { o3 = k }), 24))
unfolding derive_self_ip
derive_self_ip_parts cidr k h = from (parse_cidr cidr) refl h
  where
    in_net :
        (n : IpNet) (base : Option Octets)
        → parse_cidr cidr ≡ some n
        → to4 n.ip ≡ base
        → (derive_from k n.ones base).0 ≢ ""
        → (o : Octets) × AreBytes o
          × (k ≤ 254)
          × (derive_from k n.ones base ≡ (show_ip4 (record o { o3 = k }), 24))
    in_net n none e t h' = absurd (h' refl)
    in_net n (some o) e t h' =
        let parts = derived_from k n.ones o h' in
        (o, parse_cidr-AreBytes cidr n e parts.0 t, parts.2, parts.1)

    from :
        (net : Option IpNet)
        → parse_cidr cidr ≡ net
        → (derive_in k net).0 ≢ ""
        → (o : Octets) × AreBytes o
          × (k ≤ 254)
          × (derive_in k net ≡ (show_ip4 (record o { o3 = k }), 24))
    from none e h' = absurd (h' refl)
    from (some n) e h' = in_net n (to4 n.ip) e refl h'

-- A self IP that applyDefaults derives is one that validate accepts: whatever the CIDR is, if the
-- derivation at .240 gives an address, then its prefix is 24 and it has the pool .224 to .254.
pub derived_self_ip_has_pool :
    (cidr : String)
    → (derive_self_ip cidr 240).0 ≢ ""
    → ((derive_self_ip cidr 240).1 ≡ 24)
      × (o : Octets) × (self_ip_pool_range (derive_self_ip cidr 240).0
          ≡ ok (show_ip4 (record o { o3 = 224 }), show_ip4 (record o { o3 = 254 })))
unfolding first_of_pool last_of_pool
derived_self_ip_has_pool cidr h =
    let (base, bytes, le, e) = derive_self_ip_parts cidr 240 h in
    let o : Octets = record base { o3 = 240 } in
    let o_bytes : AreBytes o = record {
      b0 = bytes.b0;
      b1 = bytes.b1;
      b2 = bytes.b2;
      b3 = omega arith;
    } in
    rw e (
      refl,
      base,
      rw (pool_of_text o o_bytes, pool_range_free (show_ip4 o) o (omega arith) (omega arith)),
    )
