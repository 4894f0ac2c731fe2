-- ===== src/Genai/RoundTrip.antt =====
-- internal/genai/prometheus.go: a sample in the text format is read back.
use awsbnkctl.Base.{
  ◌≡◌, ◌≢◌, refl, ap, false, Option, some, [], ◌∷◌, ◌++◌, length, null, All, is_space,
}
use awsbnkctl.Float64.{Float64}
use awsbnkctl.Genai.{
  Text, LabelMap, put_char, is_name_end, cut_name, trim_front, field_chars, first_field, sample_of,
  parse_sample_line,
}
use awsbnkctl.Genai.Labels.{labels_text, put_labels, AreKeys, parse_labels-text, length-labels_text}
use awsbnkctl.Genai.Labels.Blocks.{label_block-labels}

abbrev pub IsName : Text → Type 0
IsName = All (λ c. is_name_end c ≡ false)

-- A field has no space.
abbrev pub IsField : Text → Type 0
IsField = All (λ c. is_space c ≡ false)

-- A sample as the text format writes it.
abbrev pub sample_text : Text → LabelMap → Text → Text
sample_text name ls v = name ++ (b'{' ∷ (labels_text ls ++ (b'}' ∷ 32 ∷ v)))

cut_name-text :
    (name s : Text) → IsName name → cut_name (name ++ (b'{' ∷ s)) ≡ some (name, b'{' ∷ s)
unfolding cut_name
cut_name-text [] s h = refl
cut_name-text (c ∷ name) s h = rw (h.0) (ap (put_char c) (cut_name-text name s h.1))

field_chars-field : (v : Text) → IsField v → field_chars v ≡ v
unfolding field_chars
field_chars-field [] h = refl
field_chars-field (c ∷ v) h = rw (h.0) (ap (λ t. c ∷ t) (field_chars-field v h.1))

first_field-value : (v : Text) → IsField v → first_field (32 ∷ v) ≡ v
unfolding first_field trim_front
first_field-value [] h = refl
first_field-value (c ∷ v) h = rw (h.0) (field_chars-field (c ∷ v) h)

not_null : (v : Text) → v ≢ [] → null v ≡ false
not_null [] h = absurd (h refl)
not_null (c ∷ v) h = refl

-- A line in the text format, with a name, labels and a value that ParseFloat reads, is parsed into the
-- sample with that name, the value, and the labels put into the map one after the other, whatever
-- characters the values of the labels have.
pub parse_sample_line-text :
    (parse_float : Text → Option Float64) (name : Text) (ls : LabelMap) (v : Text) (x : Float64)
    → IsName name
    → AreKeys ls
    → IsField v
    → v ≢ []
    → parse_float v ≡ some x
    → parse_sample_line parse_float (sample_text name ls v)
      ≡ some (record { name = name; labels = put_labels ls []; value = x })
unfolding parse_sample_line sample_of
parse_sample_line-text parse_float name ls v x is_name keys field found read =
    let rest = labels_text ls ++ (b'}' ∷ 32 ∷ v) in
    let body = parse_labels-text ls (length (labels_text ls)) [] keys (length-labels_text ls) in
    rw (cut_name-text name rest is_name) (
      rw (label_block-labels ls (32 ∷ v) keys)
        (rw (first_field-value v field, not_null v found, read, body) refl))
