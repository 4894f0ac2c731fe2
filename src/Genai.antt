-- ===== src/Genai.antt =====
-- internal/genai/prometheus.go: the parser of a Prometheus text exposition. A text is the list of its
-- code points, and an index into a text is the parts on both sides of it.
pub mod Labels
pub mod RoundTrip
use Prim.Native.Nat.{zero}
use awsbnkctl.Base.{
  ℕ, suc, Bool, true, false, not, ◌&&◌, ◌||◌, Option, none, some, List, [], ◌∷◌, length, null, ◌==◌,
  bytes_eq, is_space, if◌then◌else◌,
}
use awsbnkctl.Float64.{Float64, nan}

abbrev pub Text : Type 0
Text = List ℕ

-- The map of the labels of a sample.
abbrev pub LabelMap : Type 0
LabelMap = List (Text × Text)

abbrev pub put_label : Text → Text → LabelMap → LabelMap
put_label k v [] = (k, v) ∷ []
put_label k v ((j, w) ∷ m) = if bytes_eq j k then (k, v) ∷ m else (j, w) ∷ put_label k v m

pub record Sample : Type 0 where
  pub name : Text
  pub labels : LabelMap
  pub value : Float64

abbrev pub put_char : ℕ → Option (Text × Text) → Option (Text × Text)
put_char c none = none
put_char c (some (s, t)) = some (c ∷ s, t)

-- `strings.IndexAny(line, "{ \t")`
abbrev pub is_name_end : ℕ → Bool
is_name_end c = c == b'{' || c == 32 || c == 9

unfoldable pub cut_name : Text → Option (Text × Text)
cut_name [] = none
cut_name (c ∷ s) =
    let rest = put_char c (cut_name s) in if is_name_end c then some ([], c ∷ s) else rest

-- `strings.IndexByte(body, '=')`, with the byte left out
unfoldable pub cut_equals : Text → Option (Text × Text)
cut_equals [] = none
cut_equals (c ∷ s) =
    let rest = put_char c (cut_equals s) in if c == b'=' then some ([], s) else rest

unfoldable pub trim_front : Text → Text
trim_front [] = []
trim_front (c ∷ s) = let rest = trim_front s in if is_space c then rest else c ∷ s

unfoldable pub trim_back : Text → Text
trim_back [] = []
trim_back (c ∷ s) = let rest = trim_back s in if is_space c && null rest then [] else c ∷ rest

-- `strings.TrimSpace`
unfoldable pub trim : Text → Text
unfolding trim_front trim_back
trim s = trim_back (trim_front s)

-- Where labelBlockEnd is: `inQuote`, and whether the next byte is skipped.
pub data Quote : Type 0 where
  outside inside escaped : Quote

abbrev pub next_quote : Quote → ℕ → Quote
next_quote outside c = if c == b'"' then inside else outside
next_quote inside c = if c == b'\\' then escaped else if c == b'"' then outside else inside
next_quote escaped c = inside

abbrev pub closes : Quote → ℕ → Bool
closes outside c = c == b'}'
closes other c = false

-- The parts on both sides of the closing brace.
unfoldable pub label_block : Quote → Text → Option (Text × Text)
label_block q [] = none
label_block q (c ∷ s) =
    let rest = put_char c (label_block (next_quote q c) s) in
    if closes q c then some ([], s) else rest

abbrev pub unescape : ℕ → ℕ
unescape c = if c == b'n' then 10 else c

abbrev pub value_step : Bool → ℕ → Text → Text × Text → Text × Text
value_step true c s (v, rest) = (unescape c ∷ v, rest)
value_step false c s (v, rest) =
    if c == b'"' then ([], s) else if c == b'\\' then (v, rest) else (c ∷ v, rest)

-- The value up to its closing quote, and what follows; the flag is a backslash just before. One at the
-- end of the body stands for itself.
unfoldable pub read_value : Bool → Text → Text × Text
read_value true [] = (b'\\' ∷ [], [])
read_value false [] = ([], [])
read_value slashed (c ∷ s) = value_step slashed c s (read_value (not slashed && c == b'\\') s)

unfoldable pub skip_separators : Text → Text
skip_separators [] = []
skip_separators (c ∷ s) =
    let rest = skip_separators s in if c == b',' || c == 32 then rest else c ∷ s

abbrev pub with_key :
    Option (Text × Text) → LabelMap → (Text → Text → LabelMap → LabelMap) → LabelMap
with_key none into next = into
with_key (some (k, [])) into next = into
with_key (some (k, c ∷ s)) into next = if c == b'"' then next k s into else into

-- Each round reads an equals sign, so as many rounds as the body is long are enough.
unfoldable pub parse_labels : ℕ → Text → LabelMap → LabelMap
unfolding cut_equals trim read_value skip_separators
parse_labels zero body into = into
parse_labels (suc fuel) body into = with_key (cut_equals body) into (λ k s m.
    let (v, rest) = read_value false s in
    parse_labels fuel (skip_separators rest) (put_label (trim k) v m))

-- `strings.Fields(rest)[0]`, empty when there is none
unfoldable pub field_chars : Text → Text
field_chars [] = []
field_chars (c ∷ s) = let rest = field_chars s in if is_space c then [] else c ∷ rest

unfoldable pub first_field : Text → Text
unfolding trim_front field_chars
first_field s = field_chars (trim_front s)

-- `strings.Split(text, "\n")`
abbrev grow_line : ℕ → List Text → List Text
grow_line c [] = (c ∷ []) ∷ []
grow_line c (l ∷ ls) = (c ∷ l) ∷ ls

unfoldable pub lines : Text → List Text
lines [] = [] ∷ []
lines (c ∷ s) = let rest = lines s in if c == 10 then [] ∷ rest else grow_line c rest

abbrev is_nan : Float64 → Bool
is_nan nan = true
is_nan other = false

abbrev is_comment : Text → Bool
is_comment [] = true
is_comment (c ∷ s) = c == b'#'

-- strconv.ParseFloat with 64 bits; `none` is an error.
module _ (parse_float : Text → Option Float64) where
  abbrev pub with_value : Text → LabelMap → Option Float64 → Option Sample
  with_value name labels none = none
  with_value name labels (some v) = some (record { name = name; labels = labels; value = v })

  unfoldable pub sample_of : Text → LabelMap → Text → Option Sample
  unfolding first_field
  sample_of name labels rest =
      if null (first_field rest)
      then none
      else with_value name labels (parse_float (first_field rest))

  abbrev pub with_block : Text → Option (Text × Text) → Option Sample
  with_block name none = none
  with_block name (some (body, rest)) = sample_of name (parse_labels (length body) body []) rest

  abbrev pub with_name : Option (Text × Text) → Option Sample
  with_name none = none
  with_name (some (name, [])) = sample_of name [] []
  with_name (some (name, c ∷ s)) =
      if c == b'{' then with_block name (label_block outside s) else sample_of name [] (c ∷ s)

  unfoldable pub parse_sample_line : Text → Option Sample
  unfolding cut_name sample_of parse_labels label_block
  parse_sample_line line = with_name (cut_name line)

  abbrev pub keep_sample : Option Sample → List Sample → List Sample
  keep_sample none ss = ss
  keep_sample (some s) ss = if is_nan s.value then ss else s ∷ ss

  unfoldable pub parse_lines : List Text → List Sample
  unfolding trim parse_sample_line
  parse_lines [] = []
  parse_lines (l ∷ ls) =
      let rest = parse_lines ls in
      if is_comment (trim l) then rest else keep_sample (parse_sample_line (trim l)) rest

  unfoldable pub parse_exposition : Text → List Sample
  unfolding lines parse_lines
  parse_exposition text = parse_lines (lines text)
