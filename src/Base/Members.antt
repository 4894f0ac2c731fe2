-- ===== src/Base/Members.antt =====
-- The membership test against the library's membership.
use Prim.Native.String.{String}
use mathlib.Core.Path.{◌≡◌, sym}
use mathlib.Core.Bool.{true, Bool-set}
use mathlib.Core.Logic.{inl, inr}
use mathlib.Core.Logic.Or
use mathlib.Core.List.{List, [], ◌∷◌, Mem, mem-cons, not-mem-nil}
use text.Mathlib.Text.{◌==◌ as str_eq}
use text.Mathlib.TextEquality.{eq_iff}
use native.Mathlib.Omega.{arith}
use awsbnkctl.Base.Tests.{Bool-cases}
use awsbnkctl.Base.Lists.{contains}

pub contains-Mem : (xs : List String) (a : String) → contains xs a ≡ true → Mem a xs
contains-Mem [] a h = absurd (cc)
contains-Mem (x ∷ xs) a h = elim (Bool-cases (str_eq x a)) [
  | inl e ↦ mem-cons.1 (Or.inl (sym ((eq_iff x a).0 e)))
  | inr n ↦ mem-cons.1 (Or.inr (contains-Mem xs a (ground arith)))
]

pub Mem-contains : (xs : List String) (a : String) → Mem a xs → contains xs a ≡ true
Mem-contains [] a h = absurd (not-mem-nil h)
Mem-contains (x ∷ xs) a h =
    Or.elim (Bool-set _ _) (mem-cons.0 h) (λ e. ground (arith, eq_iff x a))
      (λ m. ground (arith, Mem-contains xs a m))
