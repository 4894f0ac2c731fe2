-- ===== src/Regex.antt =====
-- Anchored regular expressions, as Go's `regexp` reads the patterns of internal/intent. Matching is
-- by derivatives: no expression is unrolled.
use awsbnkctl.Base.{
  ℕ, zero, suc, Bool, true, false, ◌&&◌, ◌||◌, String, List, [], ◌∷◌, leb, if◌then◌else◌, codes,
}

pub data Regex : Type 0 where
  fail : Regex
  eps : Regex
  class : List (ℕ × ℕ) → Regex
  alt : Regex → Regex → Regex
  seq : Regex → Regex → Regex
  star : Regex → Regex
  -- `r{0,n}`
  upto : ℕ → Regex → Regex

-- A character class is a list of ranges, both ends included.
abbrev pub in_class : List (ℕ × ℕ) → ℕ → Bool
in_class [] c = false
in_class ((lo, hi) ∷ rs) c = (leb lo c && leb c hi) || in_class rs c

pub nullable : Regex → Bool
nullable fail = false
nullable eps = true
nullable (class rs) = false
nullable (alt r s) = nullable r || nullable s
nullable (seq r s) = nullable r && nullable s
nullable (star r) = true
nullable (upto n r) = true

-- Constructors that simplify, so that derivatives stay small.
abbrev pub alt_of : Regex → Regex → Regex
alt_of fail s = s
alt_of r s = alt r s

abbrev pub seq_of : Regex → Regex → Regex
seq_of fail s = fail
seq_of eps s = s
seq_of r s = seq r s

pub deriv : ℕ → Regex → Regex
unfolding nullable
deriv c fail = fail
deriv c eps = fail
deriv c (class rs) = if in_class rs c then eps else fail
deriv c (alt r s) = alt_of (deriv c r) (deriv c s)
deriv c (seq r s) =
    let d = deriv c s in
    if nullable r then alt_of (seq_of (deriv c r) s) d else seq_of (deriv c r) s
deriv c (star r) = seq_of (deriv c r) (star r)
deriv c (upto zero r) = fail
deriv c (upto (suc n) r) = seq_of (deriv c r) (upto n r)

pub match_codes : Regex → List ℕ → Bool
unfolding nullable
match_codes r [] = nullable r
match_codes r (c ∷ s) = match_codes (deriv c r) s

-- Regexp.MatchString of `^r$`.
unfoldable pub match_string : Regex → String → Bool
unfolding match_codes deriv
match_string r s = match_codes r (codes s)

abbrev pub plus : Regex → Regex
plus r = seq r (star r)

abbrev pub char : ℕ → Regex
char c = class ((c, c) ∷ [])
