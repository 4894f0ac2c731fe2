-- ===== src/Float64.antt =====
-- Go's float64, as far as values are compared. Every finite double is an integer multiple of 2^-1074,
-- so `finite z` is z * 2^-1074; the two zeros compare equal and are one value here.
use awsbnkctl.Base.{ℕ, zero, ◌*◌, ◌^◌, Bool, true, false, ℤ, pos, ltb_ℤ}

pub data Float64 : Type 0 where
  nan : Float64
  neg_inf : Float64
  pos_inf : Float64
  finite : ℤ → Float64

-- Comparisons with a finite value.
abbrev pub lt_finite : Float64 → ℤ → Bool
lt_finite nan z = false
lt_finite neg_inf z = true
lt_finite pos_inf z = false
lt_finite (finite y) z = ltb_ℤ y z

abbrev pub is_zero : Float64 → Bool
is_zero (finite (pos zero)) = true
is_zero _ = false

abbrev pub is_negative : Float64 → Bool
is_negative x = lt_finite x (pos 0)

-- x <= 0
abbrev pub le_zero : Float64 → Bool
le_zero x = lt_finite x (pos 1)

unfoldable pub one : ℤ
one = pos (2 ^ 1074)

-- The double m * 2^(e - 1074).
unfoldable pub double : ℕ → ℕ → Float64
double m e = finite (pos (m * 2 ^ e))
