-- ===== src/Intent/Validate/Ai/Gpus.antt =====
-- What the SageMaker preflight lets through, and what its hint names.
use awsbnkctl.Base.{
  ◌≡◌, ◌≢◌, ◌↔◌, ◌&&◌, not, inl, inr, refl, String, true, some, ℤ, pos, ltb_ℤ, ◌≤ℤ◌, lookup,
  is_empty, eq_iff, arith, Bool-cases,
}
use awsbnkctl.Intent.Schema.Ai.{SageMakerSpec}
use awsbnkctl.Intent.Ai.{sm_instance_gpu_count}
use awsbnkctl.Regex.{match_string}
use awsbnkctl.Intent.Names.{sage_maker_instance_type_re}
use awsbnkctl.Intent.Check.{Passes, IntentError, when, fail_if}
use awsbnkctl.Intent.Check.Passing.{>>_iff, when_iff, check_some-Passes, OnSome}
use awsbnkctl.Intent.Validate.Ai.{check_gpus, validate_sage_maker, example_with, candidates}

-- The name of an instance type, or none.
abbrev pub IsTypeName : String → Type 0
IsTypeName t = t ≢ "" → match_string sage_maker_instance_type_re t ≡ true

-- An instance type that is in the table has the GPUs that are asked for.
abbrev pub FitsGpus : SageMakerSpec → Type 0
FitsGpus s =
    pos 1 ≤ℤ s.tensor_parallel_size
    → s.instance_type ≢ ""
    → OnSome (λ (gpus : ℤ). s.tensor_parallel_size ≤ℤ gpus)
        (lookup s.instance_type sm_instance_gpu_count)

gpus-Passes :
    (s : SageMakerSpec)
    → Passes (check_gpus s)
      ↔ OnSome
          (λ (gpus : ℤ). s.tensor_parallel_size ≤ℤ gpus)
          (lookup s.instance_type sm_instance_gpu_count)
unfolding check_gpus
gpus-Passes s =
    check_some-Passes _ (lookup s.instance_type sm_instance_gpu_count)
      (λ gpus. (λ h. ground arith, λ h. ground arith))

fits-Passes :
    (s : SageMakerSpec)
    → Passes (
        when
          (ltb_ℤ (pos 0) s.tensor_parallel_size && not (is_empty s.instance_type))
          (check_gpus s))
      ↔ FitsGpus s
fits-Passes s =
    let both =
      when_iff (ltb_ℤ (pos 0) s.tensor_parallel_size && not (is_empty s.instance_type))
        (check_gpus s) (gpus-Passes s) in
    (
      λ h le named. both.0 h (ground (arith, eq_iff s.instance_type "")),
      λ h. both.1 (λ e. h (ground arith) (ground (arith, eq_iff s.instance_type ""))),
    )

-- What an endpoint must be.
abbrev pub IsEndpoint : SageMakerSpec → Type 0
IsEndpoint s =
    (s.model ≢ "")
    × IsTypeName s.instance_type
    × (pos 0 ≤ℤ s.tensor_parallel_size)
    × (s.tensor_parallel_size ≤ℤ pos 8)
    × (pos 0 ≤ℤ s.max_model_len)
    × FitsGpus s

model-Passes : (t : String) (e : IntentError) → Passes (fail_if (is_empty t) e) ↔ (t ≢ "")
model-Passes t e = (λ h. ground (arith, eq_iff t ""), λ h. ground (arith, eq_iff t ""))

type-Passes :
    (t : String) (e : IntentError)
    → Passes (fail_if (not (is_empty t) && not (match_string sage_maker_instance_type_re t)) e)
      ↔ IsTypeName t
type-Passes t e = (λ h named. ground (arith, eq_iff t ""), λ h. ground (arith, eq_iff t "", h))

below-Passes : (a b : ℤ) (e : IntentError) → Passes (fail_if (ltb_ℤ a b) e) ↔ (b ≤ℤ a)
below-Passes a b e = (λ h. ground arith, λ h. ground arith)

-- The SageMaker preflight accepts an enabled endpoint exactly when it names a model, its instance
-- type is empty or an ML instance type, it asks for 0 to 8 GPUs and no negative length, and an
-- instance type that the table knows has that many GPUs. A disabled one is always accepted.
pub validate_sage_maker_iff :
    (s : SageMakerSpec) → Passes (validate_sage_maker s) ↔ (s.enabled ≡ true → IsEndpoint s)
unfolding validate_sage_maker
validate_sage_maker_iff s =
    let parts = when_iff s.enabled _ (
      >>_iff _ _
        (>>_iff _ _
          (>>_iff _ _
            (>>_iff _ _ (>>_iff _ _ (model-Passes s.model _) (type-Passes s.instance_type _))
              (below-Passes s.tensor_parallel_size (pos 0) _))
            (below-Passes (pos 8) s.tensor_parallel_size _))
          (below-Passes s.max_model_len (pos 0) _))
        (fits-Passes s)) in
    (
      λ h on. let (((((a, b), c), d), e), f) = parts.0 h on in (a, b, c, d, e, f),
      λ h. parts.1 (λ on. let (a, b, c, d, e, f) = h on in (((((a, b), c), d), e), f)),
    )

-- For every number of GPUs up to eight, the hint of the preflight finds an instance type whose
-- count in the table is at least that number.
pub example_with_found :
    (n : ℤ)
    → n ≤ℤ pos 8
    → (t : String) × (gpus : ℤ) × (example_with n candidates ≡ some t)
      × (lookup t sm_instance_gpu_count ≡ some gpus)
      × (n ≤ℤ gpus)
unfolding example_with
example_with_found n h = elim (Bool-cases (ltb_ℤ (pos 4) n)) [
  | inl more ↦ ("ml.g5.48xlarge", pos 8, ground arith, refl, h)
  | inr few ↦ ("ml.g5.12xlarge", pos 4, ground arith, refl, ground arith)
]
