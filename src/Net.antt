-- ===== src/Net.antt =====
-- The textual addresses of Go's `net` package, as internal/intent/cluster.go uses them. A net.IP is
-- the list of its bytes: 4, or 16. ParseIP gives an IPv4 address in its 16-byte form; every use
-- goes through To4, Contains or Equal, which do not tell the two forms apart.
pub mod Ip4
pub mod Ip6
pub mod RoundTrip
pub mod Cidr
use awsbnkctl.Base.{
  ℕ, ◌+◌, ◌-◌, ◌*◌, ◌/◌, ◌%◌, ◌^◌, String, Bool, true, false, ◌&&◌, Option, none, some, List, [],
  ◌∷◌, ltb, leb, ◌==◌, if◌then◌else◌, codes, cut, unsigned, show_byte, length, drop, bytes_eq,
}
use Prim.Native.String
use Prim.Native.Nat.{min}
use Ip4.{parse_v4}
use Ip6.{parse_v6, has}

-- netip.ParseAddr, less the addresses with a zone, which ParseIP and ParseCIDR refuse.
unfoldable pub parse_addr : List ℕ → List ℕ → Option (List ℕ)
parse_addr all [] = none
parse_addr all (c ∷ s) =
    let rest = parse_addr all s in
    if c == b'.'
    then parse_v4 all
    else if c == b':'
    then parse_v6 all
    else if c == b'%'
    then none
    else rest

-- net.ParseIP; `none` is nil.
unfoldable pub parse_ip : String → Option (List ℕ)
parse_ip s = parse_addr (codes s) (codes s)

pub record Octets : Type 0 where
  pub o0 : ℕ
  pub o1 : ℕ
  pub o2 : ℕ
  pub o3 : ℕ

abbrev mapped : List ℕ → Bool
mapped (a ∷ b ∷ []) = a == 255 && b == 255
mapped (z ∷ s) = z == 0 && mapped s
mapped [] = false

abbrev four : List ℕ → Option Octets
four (a ∷ b ∷ c ∷ d ∷ []) = some (record { o0 = a; o1 = b; o2 = c; o3 = d })
four _ = none

abbrev first_12 : List ℕ → List ℕ
first_12 (a ∷ b ∷ c ∷ d ∷ e ∷ f ∷ g ∷ h ∷ i ∷ j ∷ k ∷ l ∷ s) =
    a ∷ b ∷ c ∷ d ∷ e ∷ f ∷ g ∷ h ∷ i ∷ j ∷ k ∷ l ∷ []
first_12 _ = []

-- net.IP.To4.
unfoldable pub to4 : List ℕ → Option Octets
to4 ip =
    if length ip == 4
    then four ip
    else if length ip == 16 && mapped (first_12 ip)
    then four (drop 12 ip)
    else none

-- net.IPv4(a, b, c, d).String().
unfoldable pub show_ip4 : Octets → String
show_ip4 o = String.◌++◌ (show_byte o.o0) (
    String.◌++◌ "." (
      String.◌++◌ (show_byte o.o1)
        (String.◌++◌ "." (String.◌++◌ (show_byte o.o2) (String.◌++◌ "." (show_byte o.o3))))))

-- The bytes under a mask of `n` leading ones.
unfoldable pub mask_bytes : ℕ → List ℕ → List ℕ
mask_bytes n [] = []
mask_bytes n (b ∷ s) = (b / 2 ^ (8 - min n 8) * 2 ^ (8 - min n 8)) ∷ mask_bytes (n - 8) s

-- *net.IPNet: the masked address, and the mask as its ones and its size in bits.
pub record IpNet : Type 0 where
  pub ip : List ℕ
  pub ones : ℕ
  pub bits : ℕ

abbrev net_of : Option (List ℕ) → Option ℕ → Option IpNet
net_of (some a) (some n) =
    if leb n (8 * length a)
    then some (record { ip = mask_bytes n a; ones = n; bits = 8 * length a })
    else none
net_of _ _ = none

abbrev net_parts : Option (String × String) → Option IpNet
net_parts none = none
net_parts (some (addr, mask)) = net_of (parse_ip addr) (unsigned (codes mask))

-- net.ParseCIDR; `none` is an error. A mask length that Go's dtoi gives up on exceeds 128.
unfoldable pub parse_cidr : String → Option IpNet
unfolding unsigned
parse_cidr s = net_parts (cut b'/' s)

-- The form of an address that Contains compares: 4 bytes where To4 gives them.
abbrev pub short : List ℕ → List ℕ
short ip = elim (to4 ip) [ none ↦ ip | some o ↦ o.o0 ∷ o.o1 ∷ o.o2 ∷ o.o3 ∷ [] ]

-- The ones of the mask that fall on the compared bytes; nil if a 4-byte mask meets 16 bytes.
abbrev pub net_ones : IpNet → ℕ
net_ones n = if length (short n.ip) == 4 && n.bits == 128 then n.ones - 96 else n.ones

-- net.IPNet.Contains.
unfoldable pub contains_ip : IpNet → List ℕ → Bool
contains_ip n ip =
    let k = net_ones n in bytes_eq (mask_bytes k (short n.ip)) (mask_bytes k (short ip))

-- net.IP.Equal.
unfoldable pub equal_ip : List ℕ → List ℕ → Bool
equal_ip a b = bytes_eq (short a) (short b)
