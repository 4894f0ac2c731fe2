-- ===== src/Base/Decimals.antt =====
-- Numbers in decimal, as `%d` prints them, and that they are read back.
use Prim.Native.String
use Prim.Native.String.{String}
use Prim.Native.Nat.{ℕ, zero, suc, ◌+◌, ◌-◌, ◌*◌, ◌/◌, ◌%◌, ◌<◌}
use mathlib.Core.Path.{◌≡◌, refl, ap, ◌∙◌}
use mathlib.Core.Bool.{true}
use mathlib.Core.Logic.{inl, inr}
use mathlib.Core.List.{List, [], ◌∷◌, ◌++◌}
use native.Mathlib.Omega.{arith}
use awsbnkctl.Base.Tests.{ltb, if◌then◌else◌, Bool-cases}
use awsbnkctl.Base.Text.{codes, digit, is_digit}
use awsbnkctl.Base.TextLaws.{codes-append, codes-digit}

-- Each round divides by ten, so as many rounds as the number is large are enough.
unfoldable pub show_digits : ℕ → ℕ → String
unfolding digit
show_digits zero n = ""
show_digits (suc fuel) n =
    let front = show_digits fuel (n / 10) in
    if ltb n 10 then digit n else String.◌++◌ front (digit (n % 10))

unfoldable pub show_nat : ℕ → String
unfolding show_digits
show_nat n = show_digits (suc n) n

-- The number at the front of a text, and the rest.
abbrev pub read_nat : ℕ → List ℕ → ℕ × List ℕ
read_nat n [] = (n, [])
read_nat n (c ∷ s) = if is_digit c then read_nat (n * 10 + (c - b'0')) s else (n, c ∷ s)

append_one : (xs : List ℕ) (c : ℕ) (ys : List ℕ) → (xs ++ (c ∷ [])) ++ ys ≡ xs ++ (c ∷ ys)
append_one [] c ys = refl
append_one (x ∷ xs) c ys = ap (λ zs. x ∷ zs) (append_one xs c ys)

read_nat-digit :
    (a n : ℕ) (ys : List ℕ) → n < 10 → read_nat a ((48 + n) ∷ ys) ≡ read_nat (a * 10 + n) ys
read_nat-digit a n ys h =
    let same : (48 + n) - b'0' ≡ n = omega arith in
    let yes_digit : is_digit (48 + n) ≡ true = ground arith in rw (yes_digit, same) refl

read_nat-show_digits :
    (fuel n : ℕ) (ys : List ℕ)
    → n < fuel
    → read_nat 0 (codes (show_digits fuel n) ++ ys) ≡ read_nat n ys
unfolding show_digits
read_nat-show_digits zero n ys h = absurd (omega arith)
read_nat-show_digits (suc fuel) n ys h = elim (Bool-cases (ltb n 10)) [
  | inl e ↦
      let small : n < 10 = ground arith in
      let same : 0 * 10 + n ≡ n = omega arith in
      rw (e, codes-digit n small) (read_nat-digit 0 n ys small ∙ ap (λ k. read_nat k ys) same)
  | inr e ↦
      let digit_small : n % 10 < 10 = ground arith in
      let whole : n / 10 * 10 + n % 10 ≡ n = omega arith in
      rw
        (
          e,
          codes-append (show_digits fuel (n / 10)) (digit (n % 10)),
          codes-digit (n % 10) digit_small,
          append_one (codes (show_digits fuel (n / 10))) (48 + n % 10) ys,
          read_nat-show_digits fuel (n / 10) ((48 + n % 10) ∷ ys) (ground arith),
        )
        (read_nat-digit (n / 10) (n % 10) ys digit_small ∙ ap (λ k. read_nat k ys) whole)
]

pub read_nat-show_nat :
    (n : ℕ) (ys : List ℕ) → read_nat 0 (codes (show_nat n) ++ ys) ≡ read_nat n ys
unfolding show_nat
read_nat-show_nat n ys = read_nat-show_digits (suc n) n ys (omega arith)
