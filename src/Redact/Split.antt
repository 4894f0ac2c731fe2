-- ===== src/Redact/Split.antt =====
-- Scanning a part of a text and what is kept of it gives what scanning the whole gives.
use awsbnkctl.Base.{
  ℕ, zero, suc, ◌-◌, ◌≤◌, ◌<◌, ◌≡◌, ◌≢◌, refl, sym, ap, ◌∙◌, ◌⊎◌, inl, inr, Bool, true, false, none,
  some, List, [], ◌∷◌, ◌++◌, length, arith, All, Bool-cases, Option-cases,
}
use mathlib.Core.List.{append_assoc}
use awsbnkctl.Redact.{
  Bytes, redact_marker, starts_with, first_match, any_prefix, is_potential_prefix, before,
  scan_from,
}

starts_with-append : (s d t : Bytes) → starts_with s d ≡ true → starts_with s (d ++ t) ≡ true
unfolding starts_with
starts_with-append [] d t h = refl
starts_with-append (x ∷ s) [] t h = cc
starts_with-append (x ∷ s) (c ∷ d) t h = ground (arith, starts_with-append s d t)

-- A secret that matches only with what follows is one that the text is a strict prefix of.
starts_with-cut :
    (s d t : Bytes)
    → starts_with s (d ++ t) ≡ true
    → starts_with s d ≡ false
    → (length d < length s) × (starts_with d s ≡ true)
unfolding starts_with
starts_with-cut [] d t h k = cc
starts_with-cut (x ∷ s) [] t h k = (ground arith, refl)
starts_with-cut (x ∷ s) (c ∷ d) t h k =
    (ground (arith, starts_with-cut s d t), ground (arith, starts_with-cut s d t))

length-starts_with : (s d : Bytes) → starts_with s d ≡ true → length s ≤ length d
unfolding starts_with
length-starts_with [] d h = omega arith
length-starts_with (x ∷ s) [] h = cc
length-starts_with (x ∷ s) (c ∷ d) h = ground (arith, length-starts_with s d)

comparable :
    (s u d : Bytes)
    → starts_with s d ≡ true
    → starts_with u d ≡ true
    → (starts_with s u ≡ true) ⊎ (starts_with u s ≡ true)
unfolding starts_with
comparable [] u d h k = inl refl
comparable (x ∷ s) [] d h k = inr refl
comparable (x ∷ s) (y ∷ u) [] h k = cc
comparable (x ∷ s) (y ∷ u) (c ∷ d) h k = ground (arith, comparable s u d)

abbrev Alike : Bytes → Bytes → Type 0
Alike s u =
    (starts_with s u ≡ true → length s ≡ length u) × (starts_with u s ≡ true → length s ≡ length u)

-- No secret starts a longer one.
abbrev pub IsPrefixFree : List Bytes → Type 0
IsPrefixFree ss = All (λ (s : Bytes). All (Alike s) ss) ss

first_match-found :
    {P : Bytes → Type 0} (ss : List Bytes) (d : Bytes) (n : ℕ)
    → All P ss
    → first_match ss d ≡ some n
    → (s : Bytes) × P s × (starts_with s d ≡ true) × (length s ≡ n)
unfolding first_match
first_match-found [] d n ps h = cc
first_match-found (s ∷ ss) d n (p, ps) h = elim (Bool-cases (starts_with s d)) [
  | inl e ↦ (s, p, e, ground arith)
  | inr f ↦ first_match-found ss d n ps (rw f at h)
]

first_match-kept :
    (ss : List Bytes) (d t : Bytes) (n : ℕ)
    → first_match ss d ≡ some n
    → first_match ss (d ++ t) ≢ none
unfolding first_match
first_match-kept [] d t n h e = cc
first_match-kept (s ∷ ss) d t n h e = elim (Bool-cases (starts_with s d)) [
  | inl y ↦ ground (arith, starts_with-append s d t y)
  | inr f ↦ first_match-kept ss d t n (ground arith) (ground arith)
]

same_length :
    (s d : Bytes) (ss : List Bytes)
    → starts_with s d ≡ true
    → All (Alike s) ss
    → All (λ (u : Bytes). starts_with u d ≡ true → length u ≡ length s) ss
same_length s d [] h k = tt
same_length s d (u ∷ ss) h (a, k) = (
  λ e. elim (comparable s u d h e) [ inl x ↦ sym (a.0 x) | inr y ↦ sym (a.1 y) ],
  same_length s d ss h k,
)

only_length :
    (ss : List Bytes) (d : Bytes) (n : ℕ)
    → All (λ (u : Bytes). starts_with u d ≡ true → length u ≡ n) ss
    → first_match ss d ≢ none
    → first_match ss d ≡ some n
unfolding first_match
only_length [] d n h k = absurd (k refl)
only_length (s ∷ ss) d n (a, h) k = elim (Bool-cases (starts_with s d)) [
  | inl e ↦ rw e (ap some (a e))
  | inr f ↦ rw f (only_length ss d n h (λ e. k (rw f e)))
]

-- A match stays what it is when more bytes follow.
first_match-append :
    (ss : List Bytes) (d t : Bytes) (n : ℕ)
    → IsPrefixFree ss
    → first_match ss d ≡ some n
    → first_match ss (d ++ t) ≡ some n
first_match-append ss d t n free h =
    let (s, alike, starts, size) = first_match-found ss d n free h in
    only_length ss (d ++ t) n
      (rw (sym size) (same_length s (d ++ t) ss (starts_with-append s d t starts) alike))
      (first_match-kept ss d t n h)

no_match-append :
    (ss : List Bytes) (d t : Bytes)
    → first_match ss d ≡ none
    → any_prefix ss d ≡ false
    → first_match ss (d ++ t) ≡ none
unfolding first_match any_prefix
no_match-append [] d t h k = refl
no_match-append (s ∷ ss) d t h k = elim (Bool-cases (starts_with s d)) [
  | inl e ↦ absurd (ground arith)
  | inr f ↦ elim (Bool-cases (starts_with s (d ++ t))) [
    | inl e ↦ let (short, starts) = starts_with-cut s d t e f in absurd (ground arith)
    | inr g ↦ rw g (no_match-append ss d t (ground arith) (ground arith))
  ]
]

abbrev pub final_scan : List Bytes → ℕ → Bytes → Bytes
final_scan ss skip d = (scan_from ss true skip d).0

-- What is given out for a part, followed by the scan of what was kept of it and of the rest.
abbrev pub rejoined : List Bytes → ℕ → Bytes → Bytes → Bytes
rejoined ss skip d t =
    (scan_from ss false skip d).0 ++ final_scan ss 0 ((scan_from ss false skip d).1 ++ t)

scan_match :
    (ss : List Bytes) (final : Bool) (c : ℕ) (d : Bytes) (n : ℕ)
    → first_match ss (c ∷ d) ≡ some n
    → scan_from ss final 0 (c ∷ d) ≡ before redact_marker (scan_from ss final (n - 1) d)
unfolding scan_from
scan_match ss final c d n e = rw (e, scan_from) refl

scan_held :
    (ss : List Bytes) (c : ℕ) (d : Bytes)
    → first_match ss (c ∷ d) ≡ none
    → any_prefix ss (c ∷ d) ≡ true
    → scan_from ss false 0 (c ∷ d) ≡ ([], c ∷ d)
unfolding scan_from is_potential_prefix
scan_held ss c d e h = rw (e, h, scan_from) refl

scan_clear :
    (ss : List Bytes) (c : ℕ) (d : Bytes)
    → first_match ss (c ∷ d) ≡ none
    → any_prefix ss (c ∷ d) ≡ false
    → scan_from ss false 0 (c ∷ d) ≡ before (c ∷ []) (scan_from ss false 0 d)
unfolding scan_from is_potential_prefix
scan_clear ss c d e h = rw (e, h, scan_from) refl

scan_last :
    (ss : List Bytes) (c : ℕ) (d : Bytes)
    → first_match ss (c ∷ d) ≡ none
    → scan_from ss true 0 (c ∷ d) ≡ before (c ∷ []) (scan_from ss true 0 d)
unfolding scan_from
scan_last ss c d e = rw (e, scan_from) refl

scan_nil : (ss : List Bytes) (final : Bool) (skip : ℕ) → scan_from ss final skip [] ≡ ([], [])
unfolding scan_from
scan_nil ss final skip = refl

scan_skip :
    (ss : List Bytes) (final : Bool) (n c : ℕ) (d : Bytes)
    → scan_from ss final (suc n) (c ∷ d) ≡ scan_from ss final n d
unfolding scan_from
scan_skip ss final n c d = refl

first_match-length :
    (ss : List Bytes) (c : ℕ) (d : Bytes) (n : ℕ)
    → first_match ss (c ∷ d) ≡ some n
    → n - 1 ≤ length d
unfolding first_match
first_match-length [] c d n h = cc
first_match-length (s ∷ ss) c d n h = elim (Bool-cases (starts_with s (c ∷ d))) [
  | inl e ↦ ground (arith, length-starts_with s (c ∷ d) e)
  | inr f ↦ first_match-length ss c d n (rw f at h)
]

pub scan_split :
    (ss : List Bytes) (skip : ℕ) (d t : Bytes)
    → IsPrefixFree ss
    → skip ≤ length d
    → rejoined ss skip d t ≡ final_scan ss skip (d ++ t)
scan_split ss zero [] t free h = rw (scan_nil ss false 0) refl
scan_split ss (suc n) [] t free h = absurd (omega arith)
scan_split ss (suc n) (c ∷ d) t free h = rw (scan_skip ss false n c d) (
    scan_split ss n d t free (omega arith)
    ∙ ap (λ (r : Bytes × Bytes). r.0) (sym (scan_skip ss true n c (d ++ t))))
scan_split ss zero (c ∷ d) t free h = elim (Option-cases (first_match ss (c ∷ d))) [
  | inl none_found ↦ elim (Bool-cases (any_prefix ss (c ∷ d))) [
    | inl held ↦ rw (scan_held ss c d none_found held) refl
    | inr clear ↦ rw (scan_clear ss c d none_found clear) (
        ap (λ (xs : Bytes). c ∷ xs) (scan_split ss zero d t free (omega arith))
        ∙ ap (λ (r : Bytes × Bytes). r.0)
            (sym (scan_last ss c (d ++ t) (no_match-append ss (c ∷ d) t none_found clear))))
  ]
  | inr (n, found) ↦ rw (scan_match ss false c d n found) (
      append_assoc redact_marker _ _
      ∙ ap (λ (xs : Bytes). redact_marker ++ xs)
          (scan_split ss (n - 1) d t free (first_match-length ss c d n found))
      ∙ ap (λ (r : Bytes × Bytes). r.0)
          (sym (scan_match ss true c (d ++ t) n (first_match-append ss (c ∷ d) t n free found))))
]
