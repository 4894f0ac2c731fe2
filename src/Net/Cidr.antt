-- ===== src/Net/Cidr.antt =====
-- Networks with a 24-bit mask that have a 4-byte address are made of bytes.
use awsbnkctl.Base.{
  ℕ, ◌-◌, ◌≤◌, ◌≡◌, ◌⊎◌, refl, inl, inr, String, false, Option, none, some, List, [], ◌∷◌, arith,
  All, length, codes, cut, unsigned, Bool-cases, ◌==◌,
}
use awsbnkctl.Net.Ip4.Bytes.{IsByte, AreBytesOf, parse_v4-IsByte}
use awsbnkctl.Net.Ip6.Long.{IsLong, parse_v6-IsLong}
use awsbnkctl.Net.RoundTrip.{AreBytes}
use awsbnkctl.Net.{
  Octets, IpNet, parse_addr, parse_ip, mask_bytes, net_of, net_parts, parse_cidr, to4, four,
}

-- An address is made of bytes, or is long.
abbrev IsShaped : Option (List ℕ) → Type 0
IsShaped o = AreBytesOf o ⊎ IsLong o

parse_addr-IsShaped : (all s : List ℕ) → IsShaped (parse_addr all s)
unfolding parse_addr
parse_addr-IsShaped all [] = inl tt
parse_addr-IsShaped all (c ∷ s) = elim (Bool-cases (c == b'.')) [
  | inl dot ↦ rw dot (inl (parse_v4-IsByte all))
  | inr d ↦ rw d (elim (Bool-cases (c == b':')) [
    | inl colon ↦ rw colon (inr (parse_v6-IsLong all))
    | inr e ↦ rw e (elim (Bool-cases (c == b'%')) [
      | inl zone ↦ rw zone (inl tt)
      | inr f ↦ rw f (parse_addr-IsShaped all s)
    ])
  ])
]

mask_bytes-IsByte : (n : ℕ) (ip : List ℕ) → All IsByte ip → All IsByte (mask_bytes n ip)
unfolding mask_bytes
mask_bytes-IsByte n [] h = tt
mask_bytes-IsByte n (b ∷ ip) (h, k) = (grind arith, mask_bytes-IsByte (n - 8) ip k)

length-mask_bytes : (n : ℕ) (ip : List ℕ) → length (mask_bytes n ip) ≡ length ip
unfolding mask_bytes
length-mask_bytes n [] = refl
length-mask_bytes n (b ∷ ip) = omega (arith, length-mask_bytes (n - 8) ip)

-- Under a 24-bit mask a long address is no IPv4 address.
long_to4 : (ip : List ℕ) → 16 ≤ length ip → to4 (mask_bytes 24 ip) ≡ none
unfolding to4 mask_bytes
long_to4 (a ∷ b ∷ c ∷ d ∷ e ∷ f ∷ g ∷ h ∷ i ∷ j ∷ k ∷ l ∷ m ∷ n ∷ o ∷ p ∷ s) le = ground arith
long_to4 _ le = absurd (omega arith)

four-AreBytes :
    (ip : List ℕ) {o : Octets} → All IsByte ip → to4 ip ≡ some o → length ip ≡ 4 → AreBytes o
unfolding to4
four-AreBytes (a ∷ b ∷ c ∷ d ∷ []) (p, (q, (r, (s, _)))) e l = ground arith
four-AreBytes _ h e l = absurd (omega arith)

short-to4 :
    (ip : List ℕ) {o : Octets}
    → (length ip == 4) ≡ false
    → (length ip == 16) ≡ false
    → to4 ip ≡ some o
    → ⊥
unfolding to4
short-to4 ip h k e = ground arith

shaped_to4 :
    (ip : List ℕ) {o : Octets}
    → All IsByte ip ⊎ (16 ≤ length ip)
    → to4 (mask_bytes 24 ip) ≡ some o
    → AreBytes o
shaped_to4 ip (inr long) e = absurd (cc (long_to4 ip long))
shaped_to4 ip (inl bytes) e =
    let masked = mask_bytes 24 ip in
    let size = length-mask_bytes 24 ip in
    elim (Bool-cases (length masked == 4)) [
      | inl four ↦ four-AreBytes masked (mask_bytes-IsByte 24 ip bytes) e (ground arith)
      | inr more ↦ elim (Bool-cases (length masked == 16)) [
        | inl long ↦ absurd (cc (long_to4 ip (ground arith)))
        | inr other ↦ absurd (short-to4 masked more other e)
      ]
    ]

net_of-AreBytes :
    (a : Option (List ℕ)) (m : Option ℕ) (n : IpNet) {o : Octets}
    → IsShaped a
    → net_of a m ≡ some n
    → n.ones ≡ 24
    → to4 n.ip ≡ some o
    → AreBytes o
net_of-AreBytes none m n s e h t = absurd (cc)
net_of-AreBytes (some ip) none n s e h t = absurd (cc)
net_of-AreBytes (some ip) (some k) n s e h t = shaped_to4 ip s (ground arith)

-- The network address of a /24 that has an IPv4 form is made of bytes.
pub parse_cidr-AreBytes :
    (cidr : String) (n : IpNet) {o : Octets}
    → parse_cidr cidr ≡ some n
    → n.ones ≡ 24
    → to4 n.ip ≡ some o
    → AreBytes o
unfolding parse_cidr parse_ip parse_addr
parse_cidr-AreBytes cidr n {o} e h t = from (cut b'/' cidr) e
  where
    from : (parts : Option (String × String)) → net_parts parts ≡ some n → AreBytes o
    from none e' = absurd (cc)
    from (some (addr, mask)) e' =
        net_of-AreBytes (parse_ip addr) (unsigned (codes mask)) n
          (parse_addr-IsShaped (codes addr) (codes addr)) e' h t
