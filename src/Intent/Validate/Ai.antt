-- ===== src/Intent/Validate/Ai.antt =====
-- validateSageMaker and validateSynthetic.
pub mod Gpus
pub mod Signs
use awsbnkctl.Base.{
  String, Bool, true, false, ◌&&◌, ◌||◌, not, Option, none, some, List, [], ◌∷◌, is_empty, lookup,
  ℤ, pos, ltb_ℤ, if◌then◌else◌,
}
use awsbnkctl.Platform.{Platform}
use awsbnkctl.Regex.{match_string}
use awsbnkctl.Float64.{is_negative, is_zero, lt_finite, one}
use awsbnkctl.Intent.Schema.Ai.{SageMakerSpec, SyntheticSpec}
use awsbnkctl.Intent.Ai.{sm_instance_gpu_count, synthetic_profiles}
use awsbnkctl.Intent.Names.{sage_maker_instance_type_re}
use awsbnkctl.Intent.Validate.Demo.{is_some}
use awsbnkctl.Intent.Check.{
  Check, sage_model_required, sage_instance_type, tensor_negative, tensor_over_8, max_len_negative,
  tensor_over_gpus, synthetic_profile, synthetic_negative, load_factor_below_1, pass, fail_if, when,
  ◌>>◌, check_some,
}

abbrev pub candidates : List String
candidates =
    "ml.g5.12xlarge" ∷ "ml.g5.24xlarge" ∷ "ml.g5.48xlarge" ∷ "ml.g6.12xlarge" ∷ "ml.g6.24xlarge"
    ∷ "ml.g6.48xlarge" ∷ []

abbrev enough : ℤ → Option ℤ → Bool
enough n none = false
enough n (some gpus) = not (ltb_ℤ gpus n)

-- The first candidate of the hint with enough GPUs.
unfoldable pub example_with : ℤ → List String → Option String
example_with n [] = none
example_with n (t ∷ ts) =
    if enough n (lookup t sm_instance_gpu_count) then some t else example_with n ts

-- The preflight against the table of GPU counts; a type that is not in it passes.
unfoldable pub check_gpus : SageMakerSpec → Check
unfolding example_with
check_gpus s = check_some (lookup s.instance_type sm_instance_gpu_count) (λ gpus.
    fail_if (ltb_ℤ gpus s.tensor_parallel_size) (
      tensor_over_gpus s.tensor_parallel_size s.instance_type gpus
        (example_with s.tensor_parallel_size candidates)))

unfoldable pub validate_sage_maker : SageMakerSpec → Check
unfolding check_gpus match_string
validate_sage_maker s = when s.enabled (
    fail_if (is_empty s.model) sage_model_required
    >> fail_if
        (not (is_empty s.instance_type)
          && not (match_string sage_maker_instance_type_re s.instance_type))
        (sage_instance_type s.instance_type)
    >> fail_if (ltb_ℤ s.tensor_parallel_size (pos 0)) (tensor_negative s.tensor_parallel_size)
    >> fail_if (ltb_ℤ (pos 8) s.tensor_parallel_size) (tensor_over_8 s.tensor_parallel_size)
    >> fail_if (ltb_ℤ s.max_model_len (pos 0)) (max_len_negative s.max_model_len)
    >> when (ltb_ℤ (pos 0) s.tensor_parallel_size && not (is_empty s.instance_type)) (check_gpus s))

-- The entries of the map literal: the name, and whether the value is negative.
unfoldable pub sign_entries : SyntheticSpec → List (String × Bool)
sign_entries s =
    ("replicas", ltb_ℤ s.replicas (pos 0))
    ∷ ("ttftBaseMs", ltb_ℤ s.ttft_base_ms (pos 0))
    ∷ ("prefillUsPerToken", ltb_ℤ s.prefill_us_per_token (pos 0))
    ∷ ("itlMs", is_negative s.itl_ms)
    ∷ ("maxNumSeqs", ltb_ℤ s.max_num_seqs (pos 0))
    ∷ ("maxModelLen", ltb_ℤ s.max_model_len (pos 0))
    ∷ ("kvCacheBlocks", ltb_ℤ s.kv_cache_blocks (pos 0))
    ∷ []

unfoldable pub check_signs : List (String × Bool) → Check
check_signs [] = pass
check_signs ((name, negative) ∷ entries) =
    fail_if negative (synthetic_negative name) >> check_signs entries

unfoldable pub validate_synthetic : Platform → SyntheticSpec → Check
unfolding check_signs sign_entries
validate_synthetic p s = when s.enabled (
    fail_if (not (is_empty s.profile) && not (is_some (lookup s.profile synthetic_profiles)))
      (synthetic_profile s.profile)
    >> check_signs (p.map_order (sign_entries s))
    >> fail_if (not (is_zero s.time_factor_under_load) && lt_finite s.time_factor_under_load one)
        load_factor_below_1)
