-- ===== src/Intent/Validate/Ai/Signs.antt =====
-- The signs of the synthetic block after its defaults.
use mathlib.Core.Option.{some-injective}
use awsbnkctl.Base.{
  ◌≡◌, refl, sym, String, Bool, false, Option, none, some, List, [], ◌∷◌, All, ℤ, pos, ltb_ℤ,
  Bool-cases, arith, inl, inr, lookup, str_eq,
}
use awsbnkctl.Float64.{Float64, is_negative, double}
use awsbnkctl.Intent.Schema.Ai.{SyntheticSpec}
use awsbnkctl.Intent.Ai.{
  profile_of, synthetic_profiles, zero_synthetic, or_positive, or_positive_float, fill_from,
  apply_synthetic_defaults,
}
use awsbnkctl.Intent.Validate.Ai.{sign_entries}

abbrev pub IsUnsigned : SyntheticSpec → Type 0
IsUnsigned s = All (λ (e : String × Bool). e.1 ≡ false) (sign_entries s)

or_positive-sign : (n d : ℤ) → ltb_ℤ d (pos 0) ≡ false → ltb_ℤ (or_positive n d) (pos 0) ≡ false
unfolding or_positive
or_positive-sign n d h = ground arith

or_positive_float-sign :
    (x d : Float64) → is_negative d ≡ false → is_negative (or_positive_float x d) ≡ false
unfolding or_positive_float
or_positive_float-sign x d h = ground arith

fill_from-IsUnsigned : (p s : SyntheticSpec) → IsUnsigned p → IsUnsigned (fill_from p s)
unfolding sign_entries fill_from
fill_from-IsUnsigned p s (a, (b, (c, (d, (e, (f, (g, u))))))) = (
  or_positive-sign s.replicas (pos 1) refl,
  (
    or_positive-sign s.ttft_base_ms p.ttft_base_ms b,
    (
      or_positive-sign s.prefill_us_per_token p.prefill_us_per_token c,
      (
        or_positive_float-sign s.itl_ms p.itl_ms d,
        (
          or_positive-sign s.max_num_seqs p.max_num_seqs e,
          (
            or_positive-sign s.max_model_len p.max_model_len f,
            (or_positive-sign s.kv_cache_blocks p.kv_cache_blocks g, tt),
          ),
        ),
      ),
    ),
  ),
)

lookup-All :
    (P : SyntheticSpec → Type 0) (name : String) (m : List (String × SyntheticSpec))
    (s : SyntheticSpec)
    → All (λ (e : String × SyntheticSpec). P e.1) m
    → lookup name m ≡ some s
    → P s
lookup-All P name [] s h e = cc
lookup-All P name ((k, v) ∷ m) s (h, hs) e = elim (Bool-cases (str_eq k name)) [
  | inl y ↦ let same : v ≡ s = some-injective v s (rw y at e) in rw (sym same) h
  | inr n ↦ lookup-All P name m s hs (rw n at e)
]

profiles-IsUnsigned : All (λ (e : String × SyntheticSpec). IsUnsigned e.1) synthetic_profiles
unfolding synthetic_profiles zero_synthetic sign_entries double
profiles-IsUnsigned = (
  (refl, (refl, (refl, (refl, (refl, (refl, (refl, tt))))))),
  (
    (refl, (refl, (refl, (refl, (refl, (refl, (refl, tt))))))),
    ((refl, (refl, (refl, (refl, (refl, (refl, (refl, tt))))))), tt),
  ),
)

found-IsUnsigned :
    (name : String) (o : Option SyntheticSpec)
    → lookup name synthetic_profiles ≡ o
    → IsUnsigned (elim o [ none ↦ zero_synthetic | some s ↦ s ])
unfolding zero_synthetic sign_entries
found-IsUnsigned name none e = (refl, (refl, (refl, (refl, (refl, (refl, (refl, tt)))))))
found-IsUnsigned name (some s) e =
    lookup-All IsUnsigned name synthetic_profiles s profiles-IsUnsigned e

profile_of-IsUnsigned : (name : String) → IsUnsigned (profile_of name)
unfolding profile_of
profile_of-IsUnsigned name = found-IsUnsigned name (lookup name synthetic_profiles) refl

-- After the defaults no entry that validateSynthetic tests for its sign is negative, whatever the
-- block was.
pub apply_synthetic_defaults-IsUnsigned :
    (s : SyntheticSpec) → IsUnsigned (apply_synthetic_defaults s)
unfolding apply_synthetic_defaults
apply_synthetic_defaults-IsUnsigned s = fill_from-IsUnsigned _ _ (profile_of-IsUnsigned _)
