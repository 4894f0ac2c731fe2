-- ===== src/Net/RoundTrip.antt =====
-- Printing an IPv4 address and parsing it again.
use mathlib.Core.List.{append-nil}
use Prim.Native.String
use awsbnkctl.Base.{
  ℕ, ◌+◌, ◌*◌, ◌/◌, ◌%◌, ◌<◌, ◌≡◌, refl, ap, inl, inr, some, List, [], ◌∷◌, ◌++◌, arith, Bool-cases,
  ltb, codes, digit, show_byte, codes-append, codes-digit, length, if◌then◌else◌,
}
use awsbnkctl.Net.Ip4.{fields_v4, parse_v4}
use awsbnkctl.Net.{Octets, parse_addr, parse_ip, show_ip4}

-- The digits of a byte, and how many they are.
digits : ℕ → List ℕ
digits n =
    if ltb n 10
    then (48 + n) ∷ []
    else if ltb n 100
    then (48 + n / 10) ∷ (48 + n % 10) ∷ []
    else (48 + n / 100) ∷ (48 + n / 10 % 10) ∷ (48 + n % 10) ∷ []

width : ℕ → ℕ
width n = if ltb n 10 then 1 else if ltb n 100 then 2 else 3

codes-show_byte : (n : ℕ) → n < 256 → codes (show_byte n) ≡ digits n
unfolding show_byte digits
codes-show_byte n h = elim (Bool-cases (ltb n 10)) [
  | inl one ↦ rw one (codes-digit n (ground arith))
  | inr more ↦ rw more (elim (Bool-cases (ltb n 100)) [
    | inl two ↦ rw (
      two,
      codes-append (digit (n / 10)) (digit (n % 10)),
      codes-digit (n / 10) (ground arith),
      codes-digit (n % 10) (omega arith),
    )
    | inr three ↦ rw (
      three,
      codes-append (digit (n / 100)) (String.◌++◌ (digit (n / 10 % 10)) (digit (n % 10))),
      codes-append (digit (n / 10 % 10)) (digit (n % 10)),
      codes-digit (n / 100) (omega arith),
      codes-digit (n / 10 % 10) (omega arith),
      codes-digit (n % 10) (omega arith),
    )
  ])
]

-- One more digit, if the octet has no leading zero and stays a byte.
fields-digit :
    (d v k : ℕ) (rest fields : List ℕ)
    → d < 10
    → (k ≡ 1 → 0 < v)
    → v * 10 + d < 256
    → fields_v4 ((48 + d) ∷ rest) v k fields ≡ fields_v4 rest (v * 10 + d) (k + 1) fields
unfolding fields_v4
fields-digit d v k rest fields h z b = ground arith

-- Reading the digits of a byte leaves its value.
fields-digits :
    (n : ℕ) (rest fields : List ℕ)
    → n < 256
    → fields_v4 (digits n ++ rest) 0 0 fields ≡ fields_v4 rest n (width n) fields
unfolding digits width
fields-digits n rest fields h = elim (Bool-cases (ltb n 10)) [
  | inl one ↦
      rw (one, fields-digit n 0 0 rest fields (ground arith) (omega arith) (omega arith))
        (ap (λ (m : ℕ). fields_v4 rest m 1 fields) (omega arith))
  | inr more ↦ rw more (elim (Bool-cases (ltb n 100)) [
    | inl two ↦
        rw
          (
            two,
            fields-digit (n / 10) 0 0 ((48 + n % 10) ∷ rest) fields (ground arith) (omega arith)
                (omega arith),
            fields-digit (n % 10) (0 * 10 + n / 10) (0 + 1) rest fields (omega arith)
                (λ _. ground arith) (omega arith),
          )
          (ap (λ (m : ℕ). fields_v4 rest m 2 fields) (omega arith))
    | inr three ↦
        rw
          (
            three,
            fields-digit (n / 100) 0 0 ((48 + n / 10 % 10) ∷ (48 + n % 10) ∷ rest) fields
                (omega arith) (omega arith) (omega arith),
            fields-digit (n / 10 % 10) (0 * 10 + n / 100) (0 + 1) ((48 + n % 10) ∷ rest) fields
                (omega arith) (λ _. ground arith) (omega arith),
            fields-digit (n % 10) ((0 * 10 + n / 100) * 10 + n / 10 % 10) (0 + 1 + 1) rest fields
                (omega arith) (omega arith) (omega arith),
          )
          (ap (λ (m : ℕ). fields_v4 rest m 3 fields) (omega arith))
  ])
]

fields-dot :
    (c : ℕ) (rest : List ℕ) (n k : ℕ) (fields : List ℕ)
    → 0 < k
    → length fields < 3
    → fields_v4 (b'.' ∷ c ∷ rest) n k fields ≡ fields_v4 (c ∷ rest) 0 0 (fields ++ n ∷ [])
unfolding fields_v4
fields-dot c rest n k fields h l = ground arith

-- Every byte has a digit.
digits-cons : (n : ℕ) (rest : List ℕ) → (c : ℕ) × (t : List ℕ) × (digits n ++ rest ≡ c ∷ t)
unfolding digits
digits-cons n rest = elim (Bool-cases (ltb n 10)) [
  | inl one ↦ (48 + n, rest, rw one)
  | inr more ↦ elim (Bool-cases (ltb n 100)) [
    | inl two ↦ (48 + n / 10, (48 + n % 10) ∷ rest, rw (more, two))
    | inr three ↦ (48 + n / 100, (48 + n / 10 % 10) ∷ (48 + n % 10) ∷ rest, rw (more, three))
  ]
]

width-pos : (n : ℕ) → 0 < width n
unfolding width
width-pos n = ground arith

-- A byte and the point behind it.
fields-octet :
    (n m : ℕ) (rest fields : List ℕ)
    → n < 256
    → length fields < 3
    → fields_v4 (digits n ++ b'.' ∷ (digits m ++ rest)) 0 0 fields
      ≡ fields_v4 (digits m ++ rest) 0 0 (fields ++ n ∷ [])
fields-octet n m rest fields h l =
    let (c, t, e) = digits-cons m rest in
    rw (fields-digits n (b'.' ∷ (digits m ++ rest)) fields h, e)
      (fields-dot c t n (width n) fields (width-pos n) l)

dotted : Octets → List ℕ
dotted o = digits o.o0 ++ b'.' ∷ (digits o.o1 ++ b'.' ∷ (digits o.o2 ++ b'.' ∷ (digits o.o3 ++ [])))

pub record AreBytes (o : Octets) : Type 0 where
  pub b0 : o.o0 < 256
  pub b1 : o.o1 < 256
  pub b2 : o.o2 < 256
  pub b3 : o.o3 < 256

parse_v4-dotted :
    (o : Octets) → AreBytes o → parse_v4 (dotted o) ≡ some (o.o0 ∷ o.o1 ∷ o.o2 ∷ o.o3 ∷ [])
unfolding parse_v4 dotted
parse_v4-dotted o h =
    rw
      (
        fields-octet o.o0 o.o1 (b'.' ∷ (digits o.o2 ++ b'.' ∷ (digits o.o3 ++ []))) [] h.b0
            (omega arith),
        fields-octet o.o1 o.o2 (b'.' ∷ (digits o.o3 ++ [])) (o.o0 ∷ []) h.b1 (omega arith),
        fields-octet o.o2 o.o3 [] (o.o0 ∷ o.o1 ∷ []) h.b2 (omega arith),
        fields-digits o.o3 [] (o.o0 ∷ o.o1 ∷ o.o2 ∷ []) h.b3,
      )
      (unfold fields_v4 in refl)

parse_addr-digits :
    (all : List ℕ) (n : ℕ) (rest : List ℕ)
    → n < 256
    → parse_addr all (digits n ++ b'.' ∷ rest) ≡ parse_v4 all
unfolding parse_addr digits
parse_addr-digits all n rest h = ground arith

codes-show_ip4 : (o : Octets) → AreBytes o → codes (show_ip4 o) ≡ dotted o
unfolding show_ip4 dotted
codes-show_ip4 o h = simp (
  codes-append,
  codes-show_byte o.o0 h.b0,
  codes-show_byte o.o1 h.b1,
  codes-show_byte o.o2 h.b2,
  codes-show_byte o.o3 h.b3,
  append-nil,
)

-- An address of four bytes is read back from its print.
pub parse_ip-show_ip4 :
    (o : Octets) → AreBytes o → parse_ip (show_ip4 o) ≡ some (o.o0 ∷ o.o1 ∷ o.o2 ∷ o.o3 ∷ [])
unfolding parse_ip dotted
parse_ip-show_ip4 o h =
    rw (codes-show_ip4 o h, parse_addr-digits (dotted o) o.o0 _ h.b0) (parse_v4-dotted o h)
