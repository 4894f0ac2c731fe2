-- ===== src/Intent/Validate/BigIp/Vip.antt =====
-- Which virtual-server addresses validateBigIPVE accepts.
use awsbnkctl.Base.{
  ℕ, ◌<◌, ◌≤◌, ◌≡◌, ◌≢◌, refl, sym, String, true, false, not, Option, none, some, List, [], ◌∷◌,
  ◌++◌, arith, All, ◌==◌, bytes_eq, is_empty,
}
use awsbnkctl.Net.{
  Octets, IpNet, parse_ip, parse_cidr, to4, show_ip4, mask_bytes, contains_ip, equal_ip, short,
  net_ones,
}
use awsbnkctl.Net.RoundTrip.{AreBytes, parse_ip-show_ip4}
use awsbnkctl.Net.Cidr.{parse_cidr-AreBytes}
use awsbnkctl.Intent.Check.{
  Passes, fail_if, ve_vip_taken, ve_vip_outside, ve_vip_aws_reserved, ve_needs_external,
}
use awsbnkctl.Intent.Check.Passing.{>>-Passes, fail_if-Passes}
use awsbnkctl.Intent.Validate.Pattern.Exact.{IsSlash24}
use awsbnkctl.Intent.Validate.BigIp.{
  big_ip_ve_reserved_offsets, bytes_or_nil, check_reserved, aws_reserved, check_base, check_host,
  check_inside, check_net, check_vip,
}

octets : Octets → List ℕ
octets o = o.o0 ∷ o.o1 ∷ o.o2 ∷ o.o3 ∷ []

short-to4 : (ip : List ℕ) (o : Octets) → to4 ip ≡ some o → short ip ≡ octets o
unfolding octets
short-to4 ip o e = rw (e, short)

short-octets : (o : Octets) → short (octets o) ≡ octets o
unfolding octets to4
short-octets o = refl

abbrev pub SameNet : Octets → Octets → Type 0
SameNet a b = (a.o0 ≡ b.o0) × (a.o1 ≡ b.o1) × (a.o2 ≡ b.o2)

masked_24 :
    (a b : Octets)
    → bytes_eq (mask_bytes 24 (octets a)) (mask_bytes 24 (octets b)) ≡ true
    → SameNet a b
unfolding mask_bytes octets
masked_24 a b h = ground arith

contains_24 :
    (n : IpNet) (vip : List ℕ) (base o : Octets)
    → to4 n.ip ≡ some base
    → to4 vip ≡ some o
    → n.bits ≡ 32
    → n.ones ≡ 24
    → contains_ip n vip ≡ true
    → SameNet base o
unfolding contains_ip
contains_24 n vip base o e f b k h =
    let wide : (n.bits == 128) ≡ false = ground arith in
    let ones : net_ones n ≡ 24 = ground arith in
    masked_24 base o (rw (ones, short-to4 n.ip base e, short-to4 vip o f) at h)

same_host :
    (base o : Octets) (off : ℕ)
    → SameNet base o
    → bytes_eq (octets o) (octets (record base { o3 = off })) ≡ false
    → o.o3 ≢ off
unfolding octets
same_host base o off (p, q, r) h same = ground arith

distinct_host :
    (vip : List ℕ) (base o : Octets) (off : ℕ)
    → to4 vip ≡ some o
    → SameNet base o
    → equal_ip vip (octets (record base { o3 = off })) ≡ false
    → o.o3 ≢ off
unfolding equal_ip
distinct_host vip base o off e s h =
    same_host base o off s
      (rw (sym (short-to4 vip o e), sym (short-octets (record base { o3 = off }))) h)

reserved_distinct :
    (text cidr : String) (vip : List ℕ) (base o : Octets) (taken : List String) (offs : List ℕ)
    → to4 vip ≡ some o
    → SameNet base o
    → AreBytes base
    → All (λ (off : ℕ). off < 256) offs
    → Passes (check_reserved text cidr vip base taken offs)
    → All (λ (off : ℕ). o.o3 ≢ off) offs
unfolding check_reserved octets
reserved_distinct text cidr vip base o taken [] e s b l h = tt
reserved_distinct text cidr vip base o taken (off ∷ offs) e s b (lt, l) h =
    let at_off : Octets = record base { o3 = off } in
    let bytes : AreBytes at_off = record { b0 = b.b0; b1 = b.b1; b2 = b.b2; b3 = lt } in
    let rip = show_ip4 at_off in
    let taken' = taken ++ rip ∷ [] in
    let first =
      fail_if (equal_ip vip (bytes_or_nil (parse_ip rip))) (ve_vip_taken text cidr taken') in
    let both = (>>-Passes first (check_reserved text cidr vip base taken' offs)).0 h in
    let differs = (fail_if-Passes _ (ve_vip_taken text cidr taken')).0 (both.0) in
    (
      distinct_host vip base o off e s (rw (parse_ip-show_ip4 at_off bytes) at differs),
      reserved_distinct text cidr vip base o taken' offs e s b l (both.1),
    )

-- The offsets that the infrastructure uses in the external subnet.
abbrev pub IsFreeHost : ℕ → Type 0
IsFreeHost n = (4 ≤ n) × (n ≢ 255) × All (λ (off : ℕ). n ≢ off) big_ip_ve_reserved_offsets

bytes_offsets : All (λ (off : ℕ). off < 256) big_ip_ve_reserved_offsets
bytes_offsets = (
  omega arith,
  (
    omega arith,
    (omega arith, (omega arith, (omega arith, (omega arith, (omega arith, (omega arith, tt)))))),
  ),
)

host_free :
    (text cidr : String) (vip : List ℕ) (n : IpNet) (o : Octets)
    → parse_cidr cidr ≡ some n
    → n.bits ≡ 32
    → n.ones ≡ 24
    → contains_ip n vip ≡ true
    → to4 vip ≡ some o
    → Passes (check_host text cidr vip n (some o))
    → (base : Octets) × (to4 n.ip ≡ some base) × SameNet base o × IsFreeHost o.o3
host_free text cidr vip n o parsed b k c t h =
    let both =
      (>>-Passes (fail_if (aws_reserved o.o3) (ve_vip_aws_reserved text o.o3))
          (check_base text cidr vip (to4 n.ip))).0
        h in
    from (to4 n.ip) refl (both.0) (both.1)
  where
    from :
        (base : Option Octets)
        → to4 n.ip ≡ base
        → Passes (fail_if (aws_reserved o.o3) (ve_vip_aws_reserved text o.o3))
        → Passes (check_base text cidr vip base)
        → (base' : Octets) × (base ≡ some base') × SameNet base' o × IsFreeHost o.o3
    from none e p q = cc
    from (some base) e p q =
        let same = contains_24 n vip base o e t b k c in
        let bytes = parse_cidr-AreBytes cidr n parsed k e in
        (
          base,
          refl,
          same,
          (
            ground arith,
            ground arith,
            reserved_distinct text cidr vip base o [] big_ip_ve_reserved_offsets t same bytes
                bytes_offsets q,
          ),
        )

-- An accepted VIP is a free host of the external subnet: where that subnet is a /24, the VIP
-- reads as an IPv4 address with the first three bytes of the subnet and a last byte that is none
-- of the five that AWS reserves and none of the reserved offsets.
pub check_vip_sound :
    (text cidr : String)
    → IsSlash24 cidr
    → Passes (check_vip text cidr)
    → (n : IpNet) × (vip : List ℕ) × (base : Octets) × (o : Octets) × (parse_cidr cidr ≡ some n)
      × (parse_ip text ≡ some vip)
      × (to4 n.ip ≡ some base)
      × (to4 vip ≡ some o)
      × SameNet base o
      × IsFreeHost o.o3
unfolding check_vip
check_vip_sound text cidr (n, e, b, k) h =
    let both =
      (>>-Passes (fail_if (is_empty cidr) ve_needs_external)
          (check_net text cidr (parse_cidr cidr))).0
        h in
    from (parse_ip text) refl (rw e at both.1)
  where
    in_net :
        (vip : List ℕ) (o : Option Octets)
        → parse_ip text ≡ some vip
        → to4 vip ≡ o
        → contains_ip n vip ≡ true
        → Passes (check_host text cidr vip n o)
        → (n' : IpNet) × (vip' : List ℕ) × (base : Octets) × (o' : Octets) × (parse_cidr cidr
            ≡ some n')
          × (parse_ip text ≡ some vip')
          × (to4 n'.ip ≡ some base)
          × (to4 vip' ≡ some o')
          × SameNet base o'
          × IsFreeHost o'.o3
    in_net vip none p t c q = cc
    in_net vip (some o) p t c q =
        let (base, found, same, free) = host_free text cidr vip n o e b k c t q in
        (n, vip, base, o, e, p, found, t, same, free)

    from :
        (a : Option (List ℕ))
        → parse_ip text ≡ a
        → Passes (check_inside text cidr n a)
        → (n' : IpNet) × (vip : List ℕ) × (base : Octets) × (o : Octets) × (parse_cidr cidr
            ≡ some n')
          × (parse_ip text ≡ some vip)
          × (to4 n'.ip ≡ some base)
          × (to4 vip ≡ some o)
          × SameNet base o
          × IsFreeHost o.o3
    from none p q = cc
    from (some vip) p q =
        let inside = fail_if (not (contains_ip n vip)) (ve_vip_outside text cidr) in
        let both = (>>-Passes inside (check_host text cidr vip n (to4 vip))).0 q in
        in_net vip (to4 vip) p refl (ground arith) (both.1)
