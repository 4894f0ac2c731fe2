-- ===== src/Genai/Labels.antt =====
-- internal/genai/prometheus.go: labels in the text format are read back.
pub mod Blocks
use Prim.Native.Nat.{zero}
use awsbnkctl.Base.{
  ◌≡◌, refl, sym, ap, ◌∙◌, arith, inl, inr, ℕ, suc, ◌≤◌, ◌+◌, Bool, true, false, not, ◌&&◌, ◌||◌,
  Option, none, some, List, [], ◌∷◌, ◌++◌, length, length-append, null, All, leb, ◌==◌, is_space,
  Bool-cases, if◌then◌else◌,
}
use awsbnkctl.Genai.{
  Text, LabelMap, put_label, put_char, cut_equals, trim_front, trim_back, trim, Quote, outside,
  inside, escaped, label_block, unescape, read_value, skip_separators, parse_labels,
}

-- A character of the key of a label.
abbrev pub is_key_char : ℕ → Bool
is_key_char c =
    (leb b'a' c && leb c b'z')
    || (leb b'A' c && leb c b'Z')
    || (leb b'0' c && leb c b'9')
    || c == b'_'

abbrev pub IsKey : Text → Type 0
IsKey = All (λ c. is_key_char c ≡ true)

-- A value with its backslashes, quotes and ends of lines escaped.
abbrev pub escape : Text → Text
escape [] = []
escape (c ∷ s) =
    if c == 10
    then b'\\' ∷ b'n' ∷ escape s
    else if c == b'"' || c == b'\\'
    then b'\\' ∷ c ∷ escape s
    else c ∷ escape s

abbrev separated : Text → Text
separated [] = []
separated (c ∷ s) = b',' ∷ c ∷ s

-- The labels as the text format writes them, without the braces.
pub labels_text : LabelMap → Text
labels_text [] = []
labels_text ((k, v) ∷ ls) = k ++ (b'=' ∷ b'"' ∷ (escape v ++ (b'"' ∷ separated (labels_text ls))))

-- The labels, put into a map from the front.
abbrev pub put_labels : LabelMap → LabelMap → LabelMap
put_labels [] into = into
put_labels ((k, v) ∷ ls) into = put_labels ls (put_label k v into)

abbrev pub AreKeys : LabelMap → Type 0
AreKeys = All (λ (l : Text × Text). IsKey l.0)

key_bounds : (c : ℕ) → is_key_char c ≡ true → (48 ≤ c) × (c ≤ 122)
key_bounds c h = ground arith

not_space : (c : ℕ) → 48 ≤ c → c ≤ 122 → is_space c ≡ false
not_space c low high = ground arith

not_quote : (c : ℕ) → is_key_char c ≡ true → (c == b'"') ≡ false
not_quote c h = ground (arith, key_bounds c h)

not_equals : (c : ℕ) → is_key_char c ≡ true → (c == b'=') ≡ false
not_equals c h = ground arith

not_brace : (c : ℕ) → is_key_char c ≡ true → (c == b'}') ≡ false
not_brace c h = ground (arith, key_bounds c h)

not_separator : (c : ℕ) → is_key_char c ≡ true → (c == b',' || c == 32) ≡ false
not_separator c h = ground (arith, key_bounds c h)

pub key_space : (c : ℕ) → is_key_char c ≡ true → is_space c ≡ false
key_space c h = let (low, high) = key_bounds c h in not_space c low high

cut_equals-key : (k s : Text) → IsKey k → cut_equals (k ++ (b'=' ∷ s)) ≡ some (k, s)
unfolding cut_equals
cut_equals-key [] s h = refl
cut_equals-key (c ∷ k) s h = rw (not_equals c h.0) (ap (put_char c) (cut_equals-key k s h.1))

trim_back-key : (k : Text) → IsKey k → trim_back k ≡ k
unfolding trim_back
trim_back-key [] h = refl
trim_back-key (c ∷ k) h = rw (key_space c h.0) (ap (λ t. c ∷ t) (trim_back-key k h.1))

trim-key : (k : Text) → IsKey k → trim k ≡ k
unfolding trim trim_front
trim-key [] h = refl
trim-key (c ∷ k) h = rw (key_space c h.0) (trim_back-key (c ∷ k) h)

skip_separators-key : (k s : Text) → IsKey k → skip_separators (k ++ (b'=' ∷ s)) ≡ k ++ (b'=' ∷ s)
unfolding skip_separators
skip_separators-key [] s h = refl
skip_separators-key (c ∷ k) s h = rw (not_separator c h.0) refl

skip_separated : (t : Text) → skip_separators t ≡ t → skip_separators (separated t) ≡ t
unfolding skip_separators
skip_separated [] h = refl
skip_separated (c ∷ t) h = h

skip-labels_text : (ls : LabelMap) → AreKeys ls → skip_separators (labels_text ls) ≡ labels_text ls
unfolding labels_text skip_separators
skip-labels_text [] h = refl
skip-labels_text ((k, v) ∷ ls) h =
    skip_separators-key k (b'"' ∷ (escape v ++ (b'"' ∷ separated (labels_text ls)))) h.0

read_value-escape : (v s : Text) → read_value false (escape v ++ (b'"' ∷ s)) ≡ (v, s)
unfolding read_value
read_value-escape [] s = refl
read_value-escape (c ∷ v) s =
    let rest = read_value-escape v s in
    elim (Bool-cases (c == 10)) [
      | inl nl ↦ let same : c ≡ 10 = ground arith in rw (same, rest) refl
      | inr n ↦ elim (Bool-cases (c == b'"' || c == b'\\')) [
        | inl e ↦ let letter : (c == b'n') ≡ false = ground arith in rw (n, e, rest, letter) refl
        | inr e ↦
            let quote : (c == b'"') ≡ false = ground arith in
            let slash : (c == b'\\') ≡ false = ground arith in
            rw (n, e) (rw (quote, slash, rest) refl)
      ]
    ]

separated_longer : (s : Text) → length s ≤ length (separated s)
separated_longer [] = omega arith
separated_longer (c ∷ s) = omega arith

parse_labels-nil : (fuel : ℕ) (into : LabelMap) → parse_labels fuel [] into ≡ into
unfolding parse_labels cut_equals
parse_labels-nil zero into = refl
parse_labels-nil (suc fuel) into = refl

-- The labels are read back into the map, one after the other.
pub parse_labels-text :
    (ls : LabelMap) (fuel : ℕ) (into : LabelMap)
    → AreKeys ls
    → length ls ≤ fuel
    → parse_labels fuel (labels_text ls) into ≡ put_labels ls into
unfolding parse_labels labels_text
parse_labels-text [] fuel into h enough = parse_labels-nil fuel into
parse_labels-text ((k, v) ∷ ls) zero into h enough = absurd (omega arith)
parse_labels-text ((k, v) ∷ ls) (suc fuel) into h enough =
    let text = labels_text ls in
    let found = cut_equals-key k (b'"' ∷ (escape v ++ (b'"' ∷ separated text))) h.0 in
    let rest = skip_separated text (skip-labels_text ls h.1) in
    let fewer : length ls ≤ fuel = omega arith in
    rw (found) (
      rw (read_value-escape v (separated text), trim-key k h.0, rest)
        (parse_labels-text ls fuel (put_label k v into) h.1 fewer))

-- The body has a character for each label at least.
pub length-labels_text : (ls : LabelMap) → length ls ≤ length (labels_text ls)
unfolding labels_text
length-labels_text [] = omega arith
length-labels_text ((k, v) ∷ ls) =
    let rest = length-labels_text ls in
    let more = separated_longer (labels_text ls) in
    let tail = length-append (escape v) (b'"' ∷ separated (labels_text ls)) in
    omega (arith, length-append k (b'=' ∷ b'"' ∷ (escape v ++ (b'"' ∷ separated (labels_text ls)))))
