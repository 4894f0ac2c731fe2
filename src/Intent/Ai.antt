-- ===== src/Intent/Ai.antt =====
-- internal/intent/sagemaker.go: the synthetic model profiles, the defaults of the ai block and the
-- predicates that read it.
use awsbnkctl.Base.{
  String, Bool, true, false, ◌||◌, not, Option, none, some, List, [], ◌∷◌, ltb_ℤ, ℤ, pos, lookup,
  if◌then◌else◌, or_else, null,
}
use awsbnkctl.Float64.{Float64, finite, double, le_zero}
use awsbnkctl.Intent.Schema.{Cluster, ClusterSpec, NodeGroupSpec, is_gpu}
use awsbnkctl.Intent.Schema.Ai.{AiSpec, SageMakerSpec, SyntheticSpec}

abbrev pub sm_instance_gpu_count : List (String × ℤ)
sm_instance_gpu_count =
    ("ml.g5.xlarge", pos 1)
    ∷ ("ml.g5.2xlarge", pos 1)
    ∷ ("ml.g5.4xlarge", pos 1)
    ∷ ("ml.g5.8xlarge", pos 1)
    ∷ ("ml.g5.16xlarge", pos 1)
    ∷ ("ml.g5.12xlarge", pos 4)
    ∷ ("ml.g5.24xlarge", pos 4)
    ∷ ("ml.g5.48xlarge", pos 8)
    ∷ ("ml.g6.xlarge", pos 1)
    ∷ ("ml.g6.2xlarge", pos 1)
    ∷ ("ml.g6.4xlarge", pos 1)
    ∷ ("ml.g6.8xlarge", pos 1)
    ∷ ("ml.g6.16xlarge", pos 1)
    ∷ ("ml.g6.12xlarge", pos 4)
    ∷ ("ml.g6.24xlarge", pos 4)
    ∷ ("ml.g6.48xlarge", pos 8)
    ∷ []

abbrev pub default_synthetic_image : String
default_synthetic_image = "ghcr.io/llm-d/llm-d-inference-sim:v0.11.2"

abbrev pub default_synthetic_profile : String
default_synthetic_profile = "llama-3.1-8b"

-- The zero value of the struct.
unfoldable pub zero_synthetic : SyntheticSpec
zero_synthetic = record {
  enabled = false;
  image = "";
  profile = "";
  model = "";
  served_model_name = "";
  replicas = pos 0;
  ttft_base_ms = pos 0;
  prefill_us_per_token = pos 0;
  itl_ms = finite (pos 0);
  max_num_seqs = pos 0;
  time_factor_under_load = finite (pos 0);
  max_model_len = pos 0;
  kv_cache_blocks = pos 0;
}

-- 4.6, 13.8, 38, 2.5 and 2 as doubles.
unfoldable pub synthetic_profiles : List (String × SyntheticSpec)
unfolding zero_synthetic double
synthetic_profiles =
    (
      "llama-3.1-8b",
      record zero_synthetic {
        model = "NousResearch/Meta-Llama-3.1-8B-Instruct";
        ttft_base_ms = pos 7;
        prefill_us_per_token = pos 18;
        itl_ms = double 2589569785738035 1025;
        max_num_seqs = pos 256;
        time_factor_under_load = double 5 1073;
        max_model_len = pos 131072;
        kv_cache_blocks = pos 7000;
      },
    )
    ∷ (
      "llama-3.3-70b",
      record zero_synthetic {
        model = "unsloth/Llama-3.3-70B-Instruct";
        ttft_base_ms = pos 14;
        prefill_us_per_token = pos 45;
        itl_ms = double 3884354678607053 1026;
        max_num_seqs = pos 256;
        time_factor_under_load = double 2 1074;
        max_model_len = pos 131072;
        kv_cache_blocks = pos 12000;
      },
    )
    ∷ (
      "llama-3.1-405b",
      record zero_synthetic {
        model = "NousResearch/Hermes-3-Llama-3.1-405B";
        ttft_base_ms = pos 30;
        prefill_us_per_token = pos 120;
        itl_ms = double 38 1074;
        max_num_seqs = pos 128;
        time_factor_under_load = double 2 1074;
        max_model_len = pos 131072;
        kv_cache_blocks = pos 7000;
      },
    )
    ∷ []

-- A Go map read gives the zero value where the key is missing.
unfoldable pub profile_of : String → SyntheticSpec
unfolding synthetic_profiles
profile_of name = elim (lookup name synthetic_profiles) [ none ↦ zero_synthetic | some s ↦ s ]

unfoldable pub apply_sage_maker_defaults : SageMakerSpec → SageMakerSpec
apply_sage_maker_defaults s = record s { instance_type = or_else s.instance_type "ml.g5.2xlarge" }

-- `if n <= 0 { n = d }`
unfoldable pub or_positive : ℤ → ℤ → ℤ
or_positive n d = if ltb_ℤ n (pos 1) then d else n

unfoldable pub or_positive_float : Float64 → Float64 → Float64
or_positive_float x d = if le_zero x then d else x

-- The fields that take the value of a profile.
unfoldable pub fill_from : SyntheticSpec → SyntheticSpec → SyntheticSpec
unfolding or_else or_positive or_positive_float
fill_from p s = record s {
  model = or_else s.model p.model;
  served_model_name = or_else s.served_model_name "llama3";
  replicas = or_positive s.replicas (pos 1);
  ttft_base_ms = or_positive s.ttft_base_ms p.ttft_base_ms;
  prefill_us_per_token = or_positive s.prefill_us_per_token p.prefill_us_per_token;
  itl_ms = or_positive_float s.itl_ms p.itl_ms;
  max_num_seqs = or_positive s.max_num_seqs p.max_num_seqs;
  time_factor_under_load = or_positive_float s.time_factor_under_load p.time_factor_under_load;
  max_model_len = or_positive s.max_model_len p.max_model_len;
  kv_cache_blocks = or_positive s.kv_cache_blocks p.kv_cache_blocks;
}

unfoldable pub apply_synthetic_defaults : SyntheticSpec → SyntheticSpec
unfolding or_else
apply_synthetic_defaults s =
    let profile = or_else s.profile default_synthetic_profile in
    fill_from (profile_of profile)
      (record s { image = or_else s.image default_synthetic_image; profile = profile })

abbrev ai_sagemaker : Option AiSpec → Option SageMakerSpec
ai_sagemaker none = none
ai_sagemaker (some ai) = ai.sagemaker

abbrev ai_synthetic : Option AiSpec → Option SyntheticSpec
ai_synthetic none = none
ai_synthetic (some ai) = ai.synthetic

abbrev sagemaker_on : Option SageMakerSpec → Bool
sagemaker_on none = false
sagemaker_on (some s) = s.enabled

abbrev synthetic_on : Option SyntheticSpec → Bool
synthetic_on none = false
synthetic_on (some s) = s.enabled

unfoldable pub sage_maker_enabled : Cluster → Bool
sage_maker_enabled c = sagemaker_on (ai_sagemaker c.ai)

unfoldable pub synthetic_ai_enabled : Cluster → Bool
synthetic_ai_enabled c = synthetic_on (ai_synthetic c.ai)

-- The loops that look for a GPU node group.
unfoldable pub any_gpu : List NodeGroupSpec → Bool
any_gpu [] = false
any_gpu (ng ∷ ngs) = is_gpu ng || any_gpu ngs

abbrev pub groups_of : Option ClusterSpec → List NodeGroupSpec
groups_of none = []
groups_of (some cs) = cs.node_groups

unfoldable pub has_gpu_node_group : Cluster → Bool
unfolding any_gpu
has_gpu_node_group c = any_gpu (groups_of c.cluster_spec)

unfoldable pub uses_synthetic_ai : Option Cluster → Bool
unfolding synthetic_ai_enabled any_gpu
uses_synthetic_ai none = false
uses_synthetic_ai (some c) =
    if synthetic_ai_enabled c
    then true
    else if null (groups_of c.cluster_spec)
    then false
    else not (any_gpu (groups_of c.cluster_spec))

abbrev synthetic_or_zero : Option SyntheticSpec → SyntheticSpec
unfolding zero_synthetic
synthetic_or_zero none = zero_synthetic
synthetic_or_zero (some s) = s

abbrev synthetic_of : Option Cluster → SyntheticSpec
synthetic_of none = synthetic_or_zero none
synthetic_of (some c) = synthetic_or_zero (ai_synthetic c.ai)

unfoldable pub resolved_synthetic : Option Cluster → SyntheticSpec
unfolding apply_synthetic_defaults zero_synthetic
resolved_synthetic c = apply_synthetic_defaults (synthetic_of c)

-- A nil map is empty.
unfoldable pub simulator_tags : Option Cluster → List (String × String)
unfolding uses_synthetic_ai resolved_synthetic
simulator_tags c =
    let s = resolved_synthetic c in
    if uses_synthetic_ai c
    then ("model_server", "llm-d-inference-sim")
      ∷ ("sim_profile", s.profile)
      ∷ ("sim_model", s.model)
      ∷ []
    else []
