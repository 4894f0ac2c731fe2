-- ===== src/Base/Laws.antt =====
-- Laws of the helpers that fill in defaults, and of association lists.
use Prim.Native.String.{String}
use mathlib.Core.Path.{◌≡◌, refl}
use mathlib.Core.Option.{some}
use mathlib.Core.List.{List, [], ◌∷◌}
use text.Mathlib.Text.{◌==◌ as str_eq}
use text.Mathlib.TextEquality.{eq_iff}
use native.Mathlib.Omega.{arith}
use awsbnkctl.Base.Tests.{if◌then◌else◌}
use awsbnkctl.Base.Int.{ℤ, or_else_ℤ}
use awsbnkctl.Base.Text.{or_else}
use awsbnkctl.Base.Lists.{lookup, insert}

pub or_else_idem : (s d : String) → or_else (or_else s d) d ≡ or_else s d
unfolding or_else
or_else_idem s d = ground arith

pub or_else_ℤ_idem : (n d : ℤ) → or_else_ℤ (or_else_ℤ n d) d ≡ or_else_ℤ n d
unfolding or_else_ℤ
or_else_ℤ_idem n d = ground arith

module _ {ℓ} {V : Type ℓ} where
  pub lookup-insert :
      (k j : String) (v : V) (m : List (String × V))
      → lookup j (insert k v m) ≡ (if str_eq k j then some v else lookup j m)
  lookup-insert k j v [] = refl
  lookup-insert k j v ((i, w) ∷ m) =
      ground (arith, eq_iff k j, eq_iff i k, eq_iff i j, lookup-insert k j v m)
