-- ===== src/Net/Ip4/Bytes.antt =====
-- The dotted decimal parser gives bytes.
use awsbnkctl.Base.{
  ℕ, ◌+◌, ◌-◌, ◌*◌, ◌<◌, ◌≡◌, refl, Bool, true, false, ◌&&◌, ◌||◌, Option, none, some, List, [],
  ◌∷◌, ◌++◌, arith, All, All-append, length, ◌==◌, ltb, is_digit, null, if◌then◌else◌,
}
use awsbnkctl.Net.Ip4.{fields_v4, parse_v4}

abbrev pub IsByte : ℕ → Type 0
IsByte n = n < 256

-- The bytes of a result, if there is one.
abbrev pub AreBytesOf : Option (List ℕ) → Type 0
AreBytesOf none = Unit
AreBytesOf (some ip) = All IsByte ip

if_bytes :
    (b : Bool) (x y : Option (List ℕ))
    → (b ≡ true → AreBytesOf x)
    → (b ≡ false → AreBytesOf y)
    → AreBytesOf (if b then x else y)
if_bytes true x y h k = h refl
if_bytes false x y h k = k refl

fields-IsByte :
    (s : List ℕ) (val k : ℕ) (fields : List ℕ)
    → IsByte val
    → All IsByte fields
    → AreBytesOf (fields_v4 s val k fields)
unfolding fields_v4
fields-IsByte [] val k fields v h =
    if_bytes (ltb (length fields) 3) none (some (fields ++ val ∷ [])) (λ _. tt)
      (λ _. All-append IsByte fields (val ∷ []) h (v, tt))
fields-IsByte (c ∷ s) val k fields v h =
    let digit = fields_v4 s (val * 10 + (c - b'0')) (k + 1) fields in
    let next = fields_v4 s 0 0 (fields ++ val ∷ []) in
    let big = ltb 255 (val * 10 + (c - b'0')) in
    if_bytes (is_digit c) _ _
      (λ _.
        if_bytes (k == 1 && val == 0) none _ (λ _. tt)
          (λ _.
            if_bytes big none digit (λ _. tt)
              (λ small. fields-IsByte s (val * 10 + (c - b'0')) (k + 1) fields (ground arith) h)))
      (λ _.
        if_bytes (c == b'.') _ none
          (λ _.
            if_bytes (k == 0 || null s || length fields == 3) none next (λ _. tt)
              (λ _.
                fields-IsByte s 0 0 (fields ++ val ∷ []) (omega arith)
                  (All-append IsByte fields (val ∷ []) h (v, tt))))
          (λ _. tt))

pub parse_v4-IsByte : (s : List ℕ) → AreBytesOf (parse_v4 s)
unfolding parse_v4
parse_v4-IsByte s = fields-IsByte s 0 0 [] (omega arith) tt
