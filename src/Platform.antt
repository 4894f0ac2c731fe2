-- ===== src/Platform.antt =====
-- What the sources take from the machine they run on.
use awsbnkctl.Base.{ℕ, String, Bool, List}

pub record Platform : Type 0 where
  -- os.Getenv: the empty text for a variable that is not set
  pub getenv : String → String
  -- float64(f) * (float64(unit) / 10^digits), truncated: the floating-point step of
  -- time.ParseDuration, at the fraction `f` of `digits` digits
  pub fraction : (f unit digits : ℕ) → ℕ
  -- the order in which a loop over a Go map visits the entries
  pub map_order : List (String × Bool) → List (String × Bool)
