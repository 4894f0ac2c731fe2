-- ===== src/Net/Ip6.antt =====
-- Colon separated addresses: netip.parseIPv6.
pub mod Long
use awsbnkctl.Base.{
  ℕ, zero, suc, ◌+◌, ◌-◌, ◌*◌, ◌/◌, ◌%◌, Bool, true, false, not, ◌&&◌, ◌||◌, Option, none, some,
  List, [], ◌∷◌, ◌++◌, ltb, leb, ◌==◌, if◌then◌else◌, is_digit, length, take, drop, replicate, null,
}
use awsbnkctl.Net.Ip4.{parse_v4}

abbrev pub has : ℕ → List ℕ → Bool
has a [] = false
has a (c ∷ s) = c == a || has a s

abbrev hex_value : ℕ → Option ℕ
hex_value c =
    if is_digit c
    then some (c - b'0')
    else if leb b'a' c && leb c b'f'
    then some (c - b'a' + 10)
    else if leb b'A' c && leb c b'F'
    then some (c - b'A' + 10)
    else none

-- A group of at most four hexadecimal digits: its value, its length and what follows it.
hex_group : List ℕ → ℕ → ℕ → Option (ℕ × ℕ × List ℕ)
hex_group [] acc off = some (acc, off, [])
hex_group (c ∷ s) acc off = elim (hex_value c) [
  | none ↦ some (acc, off, c ∷ s)
  | some v ↦ if ltb 3 off then none else hex_group s (acc * 16 + v) (off + 1)
]

-- After the loop: `::` at byte `e` stands for the zeros that are missing.
finish : List ℕ → List ℕ → Option ℕ → Option (List ℕ)
finish (c ∷ s) ip e = none
finish [] ip none = if ltb (length ip) 16 then none else some ip
finish [] ip (some e) =
    if ltb (length ip) 16
    then some (take e ip ++ (replicate (16 - length ip) 0 ++ drop e ip))
    else none

abbrev absent {ℓ} : {A : Type ℓ} → Option A → Bool
absent none = true
absent (some _) = false

-- The trailing IPv4 address takes the last four bytes.
embedded : List ℕ → List ℕ → Option ℕ → Option (List ℕ)
embedded s ip e =
    if (absent e && not (length ip == 12)) || ltb 12 (length ip)
    then none
    else elim (parse_v4 s) [ none ↦ none | some f ↦ finish [] (ip ++ f) e ]

-- What follows a group: the end, or a colon that is followed by more.
separator :
    (List ℕ → List ℕ → Option ℕ → Option (List ℕ)) → List ℕ → List ℕ → Option ℕ → Option (List ℕ)
separator loop [] ip e = finish [] ip e
separator loop (c ∷ []) ip e = none
separator loop (c ∷ d ∷ s) ip e =
    if not (c == b':')
    then none
    else if not (d == b':')
    then loop (d ∷ s) ip e
    else if not (absent e)
    then none
    else if null s
    then finish [] ip (some (length ip))
    else loop s ip (some (length ip))

after_group :
    (List ℕ → List ℕ → Option ℕ → Option (List ℕ))
    → List ℕ
    → Option (ℕ × ℕ × List ℕ)
    → List ℕ
    → Option ℕ
    → Option (List ℕ)
after_group loop s none ip e = none
after_group loop s (some (acc, off, [])) ip e =
    if off == 0 then none else finish [] (ip ++ acc / 256 ∷ acc % 256 ∷ []) e
after_group loop s (some (acc, off, c ∷ rest)) ip e =
    if off == 0
    then none
    else if c == b'.'
    then embedded s ip e
    else separator loop (c ∷ rest) (ip ++ acc / 256 ∷ acc % 256 ∷ []) e

-- The loop over the groups that still fit.
groups : ℕ → List ℕ → List ℕ → Option ℕ → Option (List ℕ)
groups zero s ip e = finish s ip e
groups (suc n) s ip e = after_group (groups n) s (hex_group s 0 0) ip e

start : List ℕ → Option (List ℕ)
start (c ∷ d ∷ s) =
    if c == b':' && d == b':'
    then (if null s then some (replicate 16 0) else groups 8 s [] (some 0))
    else groups 8 (c ∷ d ∷ s) [] none
start s = groups 8 s [] none

-- An address with a zone is refused by the callers, and `%` begins no other text that parses.
unfoldable pub parse_v6 : List ℕ → Option (List ℕ)
unfolding start groups after_group separator embedded finish hex_group parse_v4
parse_v6 s = if has b'%' s then none else start s
