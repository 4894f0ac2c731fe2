-- ===== src/Cache/Lines.antt =====
-- Lines, and the parts of an entry, are read back from a text that is put together of them.
use Prim.Native.Char.{Char, code}
use Prim.Native.String
use text.Mathlib.TextLemmas.{nil-append, cons-append}
use awsbnkctl.Cache.{scan_lines, drop_last_empty}
use awsbnkctl.Base.{
  ℕ, ◌≡◌, refl, inl, inr, Bool-cases, String, Bool, true, false, ◌&&◌, not, some, List, [], ◌∷◌,
  arith, cut, split, grow_first, ◌==◌,
}

-- A code does not stand in a text.
abbrev pub is_free : ℕ → String → Bool
is_free sep String.[] = true
is_free sep (String.◌∷◌ c s) = not (code c == sep) && is_free sep s

one-append : (c : Char) (t : String) → String.◌++◌ (String.◌∷◌ c "") t ≡ String.◌∷◌ c t
one-append c t = rw (cons-append c "" t, nil-append t)

newline-append : (t : String) → split 10 (String.◌++◌ "\n" t) ≡ "" ∷ split 10 t
unfolding split
newline-append t = rw (one-append "\n" t) refl

split-other :
    (c : Char) (s p : String) (ps : List String)
    → (code c == 10) ≡ false
    → split 10 s ≡ p ∷ ps
    → split 10 (String.◌∷◌ c s) ≡ String.◌∷◌ c p ∷ ps
unfolding split grow_first
split-other c s p ps apart e = rw (apart, e) refl

-- A line without an end of line inside comes off a text as it is.
pub split-line :
    (a t : String)
    → is_free 10 a ≡ true
    → split 10 (String.◌++◌ a (String.◌++◌ "\n" t)) ≡ a ∷ split 10 t
split-line String.[] t h = rw (nil-append (String.◌++◌ "\n" t)) (newline-append t)
split-line (String.◌∷◌ c a) t h =
    let apart : (code c == 10) ≡ false = ground arith in
    rw (cons-append c a (String.◌++◌ "\n" t)) (
      split-other c (String.◌++◌ a (String.◌++◌ "\n" t)) a (split 10 t) apart
        (split-line a t (ground arith)))

pub cut-entry :
    (k v : String)
    → is_free b'=' k ≡ true
    → cut b'=' (String.◌++◌ k (String.◌++◌ "=" v)) ≡ some (k, v)
unfolding cut
cut-entry String.[] v h = rw (nil-append (String.◌++◌ "=" v), one-append "=" v) refl
cut-entry (String.◌∷◌ c k) v h =
    let apart : (code c == b'=') ≡ false = ground arith in
    rw (cons-append c k (String.◌++◌ "=" v), apart, cut-entry k v (ground arith)) refl

grow_first_cons :
    (c : Char) (ps : List String) → (p : String) × (qs : List String) × (grow_first c ps ≡ p ∷ qs)
unfolding grow_first
grow_first_cons c [] = (String.◌∷◌ c "", [], refl)
grow_first_cons c (p ∷ ps) = (String.◌∷◌ c p, ps, refl)

split_cons : (sep : ℕ) (t : String) → (p : String) × (ps : List String) × (split sep t ≡ p ∷ ps)
unfolding split
split_cons sep String.[] = ("", [], refl)
split_cons sep (String.◌∷◌ c t) = elim (Bool-cases (code c == sep)) [
  | inl e ↦ ("", split sep t, rw e refl)
  | inr n ↦ let (p, ps, e) = grow_first_cons c (split sep t) in (p, ps, rw n e)
]

drop_last_empty-cons_cons :
    (a p : String) (ps : List String) → drop_last_empty (a ∷ p ∷ ps) ≡ a ∷ drop_last_empty (p ∷ ps)
unfolding drop_last_empty
drop_last_empty-cons_cons a p ps = refl

-- A line comes off a text as the first line of it.
pub scan_lines-line :
    (a t : String)
    → is_free 10 a ≡ true
    → scan_lines (String.◌++◌ a (String.◌++◌ "\n" t)) ≡ a ∷ scan_lines t
unfolding scan_lines
scan_lines-line a t free =
    let (p, ps, e) = split_cons 10 t in
    rw (split-line a t free, e) (drop_last_empty-cons_cons a p ps)
