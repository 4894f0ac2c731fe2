-- ===== src/Genai/Labels/Blocks.antt =====
-- internal/genai/prometheus.go: labelBlockEnd finds the brace behind labels in the text format.
use awsbnkctl.Base.{
  ◌≡◌, refl, sym, ap, ◌∙◌, arith, inl, inr, false, ◌||◌, Option, some, [], ◌∷◌, ◌++◌, ◌==◌,
  Bool-cases,
}
use awsbnkctl.Genai.{Text, LabelMap, put_char, outside, inside, label_block}
use awsbnkctl.Genai.Labels.{IsKey, AreKeys, escape, separated, labels_text, not_brace, not_quote}

put_all : Text → Option (Text × Text) → Option (Text × Text)
put_all [] o = o
put_all (c ∷ s) o = put_char c (put_all s o)

put_all-some : (s t u : Text) → put_all s (some (t, u)) ≡ some (s ++ t, u)
unfolding put_all
put_all-some [] t u = refl
put_all-some (c ∷ s) t u = ap (put_char c) (put_all-some s t u)

label_block-key :
    (k s : Text) → IsKey k → label_block outside (k ++ s) ≡ put_all k (label_block outside s)
unfolding label_block put_all
label_block-key [] s h = refl
label_block-key (c ∷ k) s h =
    rw (not_brace c h.0, not_quote c h.0) (ap (put_char c) (label_block-key k s h.1))

label_block-escape :
    (v s : Text) → label_block inside (escape v ++ s) ≡ put_all (escape v) (label_block inside s)
unfolding label_block put_all
label_block-escape [] s = refl
label_block-escape (c ∷ v) s =
    let rest = label_block-escape v s in
    elim (Bool-cases (c == 10)) [
      | inl nl ↦
          let same : c ≡ 10 = ground arith in
          rw (same) (ap (λ o. put_char b'\\' (put_char b'n' o)) rest)
      | inr n ↦ elim (Bool-cases (c == b'"' || c == b'\\')) [
        | inl e ↦ rw (n, e) (ap (λ o. put_char b'\\' (put_char c o)) rest)
        | inr e ↦
            let quote : (c == b'"') ≡ false = ground arith in
            let slash : (c == b'\\') ≡ false = ground arith in
            rw (n, e) (rw (quote, slash) (ap (put_char c) rest))
      ]
    ]

label_block-separated :
    (t s : Text)
    → label_block outside (t ++ s) ≡ put_all t (label_block outside s)
    → label_block outside (separated t ++ s) ≡ put_all (separated t) (label_block outside s)
unfolding label_block put_all
label_block-separated [] s h = h
label_block-separated (c ∷ t) s h = ap (put_char b',') h

append_assoc : (s t u : Text) → (s ++ t) ++ u ≡ s ++ (t ++ u)
append_assoc [] t u = refl
append_assoc (c ∷ s) t u = ap (λ v. c ∷ v) (append_assoc s t u)

put_all-append :
    (s t : Text) (o : Option (Text × Text)) → put_all (s ++ t) o ≡ put_all s (put_all t o)
unfolding put_all
put_all-append [] t o = refl
put_all-append (c ∷ s) t o = ap (put_char c) (put_all-append s t o)

label_block-text :
    (ls : LabelMap) (s : Text)
    → AreKeys ls
    → label_block outside (labels_text ls ++ s) ≡ put_all (labels_text ls) (label_block outside s)
unfolding labels_text label_block put_all
label_block-text [] s h = refl
label_block-text ((k, v) ∷ ls) s h =
    let after = b'"' ∷ separated (labels_text ls) in
    let quoted = b'=' ∷ b'"' ∷ (escape v ++ after) in
    let rest = label_block-separated (labels_text ls) s (label_block-text ls s h.1) in
    let value : label_block inside ((escape v ++ after) ++ s)
        ≡ put_all (escape v ++ after) (label_block outside s) =
      ap (label_block inside) (append_assoc (escape v) after s)
      ∙ label_block-escape v (after ++ s)
      ∙ ap (λ o. put_all (escape v) (put_char b'"' o)) rest
      ∙ sym (put_all-append (escape v) after (label_block outside s)) in
    ap (label_block outside) (append_assoc k quoted s)
    ∙ label_block-key k (quoted ++ s) h.0
    ∙ ap (λ o. put_all k (put_char b'=' (put_char b'"' o))) value
    ∙ sym (put_all-append k quoted (label_block outside s))

append_nil : (s : Text) → s ++ [] ≡ s
append_nil [] = refl
append_nil (c ∷ s) = ap (λ t. c ∷ t) (append_nil s)

-- The brace behind the labels is found, whatever their values hold.
pub label_block-labels :
    (ls : LabelMap) (s : Text)
    → AreKeys ls
    → label_block outside (labels_text ls ++ (b'}' ∷ s)) ≡ some (labels_text ls, s)
unfolding label_block
label_block-labels ls s h =
    label_block-text ls (b'}' ∷ s) h
    ∙ put_all-some (labels_text ls) [] s
    ∙ ap (λ t. some (t, s)) (append_nil (labels_text ls))
