-- ===== src/Duration.antt =====
-- Go's time.ParseDuration, which reads demo.ttl. Characters are code points; the unit texts are told
-- apart as well by them as by bytes.
use awsbnkctl.Base.{
  ℕ, zero, suc, ◌+◌, ◌-◌, ◌*◌, ◌/◌, ◌%◌, ◌^◌, String, Bool, true, false, ◌&&◌, ◌||◌, not, Option,
  none, some, List, [], ◌∷◌, ltb, ◌==◌, if◌then◌else◌, codes, is_digit, null, length, bytes_eq, ℤ,
  pos, negsuc,
}
use awsbnkctl.Platform.{Platform}

abbrev pub limit : ℕ
limit = 2 ^ 63

-- leadingInt: `none` is overflow.
leading_int : List ℕ → ℕ → Option (ℕ × List ℕ)
leading_int [] x = some (x, [])
leading_int (c ∷ s) x =
    let rest = leading_int s (x * 10 + (c - b'0')) in
    if not (is_digit c)
    then some (x, c ∷ s)
    else if ltb (limit / 10) x || ltb limit (x * 10 + (c - b'0'))
    then none
    else rest

-- leadingFraction: the digits kept, how many they are, and the rest; digits past an overflow are
-- skipped.
leading_fraction : List ℕ → ℕ → ℕ → Bool → ℕ × ℕ × List ℕ
leading_fraction [] x k full = (x, k, [])
leading_fraction (c ∷ s) x k full =
    let skip = leading_fraction s x k true in
    let keep = leading_fraction s (x * 10 + (c - b'0')) (k + 1) false in
    if not (is_digit c)
    then (x, k, c ∷ s)
    else if full || ltb ((limit - 1) / 10) x || ltb limit (x * 10 + (c - b'0'))
    then skip
    else keep

-- The unit reaches to the next digit or period.
unit_text : List ℕ → List ℕ × List ℕ
unit_text [] = ([], [])
unit_text (c ∷ s) =
    let rest = unit_text s in if c == b'.' || is_digit c then ([], c ∷ s) else (c ∷ rest.0, rest.1)

-- unitMap, in nanoseconds.
abbrev unit_of : List ℕ → Option ℕ
unit_of u =
    if bytes_eq u (codes "ns")
    then some 1
    else if bytes_eq u (codes "us") || bytes_eq u (codes "µs") || bytes_eq u (codes "μs")
    then some 1000
    else if bytes_eq u (codes "ms")
    then some 1000000
    else if bytes_eq u (codes "s")
    then some 1000000000
    else if bytes_eq u (codes "m")
    then some 60000000000
    else if bytes_eq u (codes "h")
    then some 3600000000000
    else none

abbrev starts_digit : List ℕ → Bool
starts_digit [] = false
starts_digit (c ∷ s) = is_digit c

abbrev starts_number : List ℕ → Bool
starts_number [] = false
starts_number (c ∷ s) = c == b'.' || is_digit c

-- The fraction behind an integer part: its digits, their number, whether there is one, and the rest.
after_point : List ℕ → ℕ × ℕ × Bool × List ℕ
unfolding leading_fraction
after_point [] = (0, 0, false, [])
after_point (c ∷ s) =
    let (f, k, rest) = leading_fraction s 0 0 false in
    if c == b'.' then (f, k, starts_digit s, rest) else (0, 0, false, c ∷ s)

-- uint64 addition
abbrev pub add_64 : ℕ → ℕ → ℕ
add_64 a b = (a + b) % 2 ^ 64

module _ (p : Platform) where
  -- The value of a number in a unit; `none` is overflow.
  scaled : (v f k unit : ℕ) → Option ℕ
  scaled v f k unit =
      let fine = v * unit + p.fraction f unit k in
      if ltb (limit / unit) v
      then none
      else if ltb 0 f
      then (if ltb limit fine then none else some fine)
      else some (v * unit)

  with_unit : (v f k : ℕ) → List ℕ × List ℕ → Option (ℕ × List ℕ)
  with_unit v f k (u, rest) = elim (unit_of u) [
    | none ↦ none
    | some unit ↦ elim (scaled v f k unit) [ none ↦ none | some n ↦ some (n, rest) ]
  ]

  -- One number with its unit: its nanoseconds and what follows.
  term : List ℕ → Option (ℕ × List ℕ)
  unfolding leading_int after_point unit_text scaled with_unit
  term s = if not (starts_number s) then none else elim (leading_int s 0) [
    | none ↦ none
    | some (v, s') ↦
        let (f, k, post, rest) = after_point s' in
        if not (starts_digit s) && not post then none else with_unit v f k (unit_text rest)
  ]

  -- The loop; `s` is not empty. Every round takes a character, so the length of the text is enough
  -- fuel.
  terms : ℕ → List ℕ → ℕ → Option ℕ
  unfolding term
  terms zero s d = none
  terms (suc fuel) s d = elim (term s) [
    | none ↦ none
    | some (n, rest) ↦
        let total = add_64 d n in
        let more = terms fuel rest total in
        if ltb limit total then none else if null rest then some total else more
  ]

  abbrev negated : ℕ → ℤ
  negated zero = pos 0
  negated (suc n) = negsuc n

  abbrev signed : Bool → Option ℕ → Option ℤ
  signed neg none = none
  signed true (some d) = some (negated d)
  signed false (some d) = if ltb (limit - 1) d then none else some (pos d)

  magnitude : Bool → List ℕ → Option ℤ
  unfolding terms
  magnitude neg s =
      if bytes_eq s (codes "0")
      then some (pos 0)
      else if null s
      then none
      else signed neg (terms (length s) s 0)

  duration_of : List ℕ → Option ℤ
  unfolding magnitude
  duration_of [] = none
  duration_of (c ∷ s) =
      if c == b'-'
      then magnitude true s
      else if c == b'+'
      then magnitude false s
      else magnitude false (c ∷ s)

  -- In nanoseconds; `none` is an error.
  unfoldable pub parse_duration : String → Option ℤ
  unfolding duration_of
  parse_duration s = duration_of (codes s)
