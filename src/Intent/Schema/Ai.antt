-- ===== src/Intent/Schema/Ai.antt =====
-- The types of internal/intent/sagemaker.go.
use awsbnkctl.Base.{String, Bool, Option, ℤ}
use awsbnkctl.Float64.{Float64}

pub record SyntheticSpec : Type 0 where
  pub enabled : Bool
  pub image : String
  pub profile : String
  pub model : String
  pub served_model_name : String
  pub replicas : ℤ
  pub ttft_base_ms : ℤ
  pub prefill_us_per_token : ℤ
  pub itl_ms : Float64
  pub max_num_seqs : ℤ
  pub time_factor_under_load : Float64
  pub max_model_len : ℤ
  pub kv_cache_blocks : ℤ

pub record SageMakerSpec : Type 0 where
  pub enabled : Bool
  pub model : String
  pub instance_type : String
  pub scale_to_zero : Bool
  pub image_uri : String
  pub tensor_parallel_size : ℤ
  pub max_model_len : ℤ

pub record AiSpec : Type 0 where
  pub sagemaker : Option SageMakerSpec
  pub synthetic : Option SyntheticSpec
