-- ===== src/Intent/Check.antt =====
-- What a validation function of internal/intent does: the warnings it prints to the standard error,
-- and the error it returns, if any. Each constructor stands for one message with what it formats.
pub mod Passing
use awsbnkctl.Base.{
  ℕ, suc, ◌≡◌, String, Bool, true, false, Option, none, some, List, [], ◌∷◌, ◌++◌, ℤ, if◌then◌else◌,
}
use awsbnkctl.Intent.Address.{AddressError}

pub data Warning : Type 0 where
  kubernetes_untested : String → Warning
  sriov_experimental : Warning
  unknown_manifest : String → Warning

pub data IntentError : Type 0 where
  name_pattern : String → IntentError
  region_required : IntentError
  external_self_ip internal_self_ip : AddressError → IntentError
  azs_required public_required private_required vpc_cidr_required : IntentError
  node_groups_required : IntentError
  node_group_name : String → IntentError
  version_shape version_major version_minor version_floor : String → IntentError
  capacity_type_invalid : ℕ → String → String → IntentError
  taint_effect_invalid : ℕ → String → ℕ → String → IntentError
  group_az_unknown : ℕ → String → String → List String → IntentError
  group_az_denied : ℕ → String → String → String → List String → IntentError
  pattern_unknown data_path_required external_incomplete single_interface : String → IntentError
  internal_incomplete : IntentError
  cidr_invalid : String → String → IntentError
  cidr_not_24 : String → String → ℕ → IntentError
  external_az_unknown internal_az_unknown : String → List String → IntentError
  quorum : String → ℕ → ℤ → IntentError
  jumphost_needs_data_path : IntentError
  jumphost_type : String → IntentError
  jumphost_subnet : ℤ → ℕ → IntentError
  far_archive_required jwt_required : IntentError
  cert_manager_mismatch : String → IntentError
  ttl_invalid ttl_not_positive : String → IntentError
  demo_needs_jumphost : IntentError
  ve_needs_dual : String → IntentError
  ve_needs_jumphost ve_needs_demo ve_needs_external : IntentError
  ve_instance_type ve_license_tier ve_external_invalid ve_vip_invalid : String → IntentError
  ve_external_not_ipv4 : String → IntentError
  ve_vip_outside : String → String → IntentError
  ve_vip_aws_reserved : String → ℕ → IntentError
  ve_vip_taken : String → String → List String → IntentError
  ve_subnet : ℤ → ℕ → IntentError
  sage_model_required : IntentError
  sage_instance_type : String → IntentError
  tensor_negative tensor_over_8 max_len_negative : ℤ → IntentError
  tensor_over_gpus : ℤ → String → ℤ → Option String → IntentError
  synthetic_profile synthetic_negative : String → IntentError
  load_factor_below_1 : IntentError

abbrev pub Check : Type 0
Check = List Warning × Option IntentError

abbrev pub pass : Check
pass = ([], none)

abbrev pub fail : IntentError → Check
fail e = ([], some e)

abbrev pub warn_if : Bool → Warning → Check
warn_if b w = (if b then w ∷ [] else [], none)

-- `if b { return e }`
abbrev pub fail_if : Bool → IntentError → Check
fail_if b e = if b then fail e else pass

-- `if b { if err := k; err != nil { return err } }`
abbrev pub when : Bool → Check → Check
when b k = if b then k else pass

infixl 5 ◌>>◌
abbrev pub ◌>>◌ : Check → Check → Check
(ws, some e) >> k = (ws, some e)
(ws, none) >> k = (ws ++ k.0, k.1)

-- A block that may be absent.
abbrev pub check_some {ℓ} : {A : Type ℓ} → Option A → (A → Check) → Check
check_some none k = pass
check_some (some a) k = k a

-- A loop whose round `i` may return an error.
unfoldable pub check_each {ℓ} : {A : Type ℓ} → (ℕ → A → Check) → ℕ → List A → Check
check_each f i [] = pass
check_each f i (x ∷ xs) = f i x >> check_each f (suc i) xs

abbrev pub Passes : Check → Type 0
Passes k = k.1 ≡ none
