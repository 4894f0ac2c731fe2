-- ===== src/Intent/Defaults/Blocks.antt =====
-- The defaults of the blocks that read nothing outside themselves are idempotent.
use awsbnkctl.Base.{
  ◌≡◌, refl, ap, arith, String, Option, none, some, ℤ, or_else_idem, or_else_ℤ_idem,
}
use awsbnkctl.Float64.{Float64}
use awsbnkctl.Intent.Schema.{BnkSpec, TestingSpec, JumphostSpec, DemoSpec, BigIpVeSpec}
use awsbnkctl.Intent.Schema.Ai.{AiSpec, SageMakerSpec, SyntheticSpec}
use awsbnkctl.Intent.Pattern.{normalize_pattern}
use awsbnkctl.Intent.Ai.{
  apply_sage_maker_defaults, apply_synthetic_defaults, fill_from, or_positive, or_positive_float,
}
use awsbnkctl.Intent.Defaults.{
  on_some, default_bnk, default_testing, default_jumphost, default_demo, default_big_ip_ve,
  default_ai,
}

pub normalize_pattern_idem :
    (p : String) → normalize_pattern (normalize_pattern p) ≡ normalize_pattern p
unfolding normalize_pattern
normalize_pattern_idem p = ground arith

pub on_some_idem {ℓ} :
    {A : Type ℓ} (f : A → A)
    → ((a : A) → f (f a) ≡ f a)
    → (o : Option A) → on_some f (on_some f o) ≡ on_some f o
on_some_idem f h none = refl
on_some_idem f h (some a) = ap some (h a)

pub default_bnk_idem : (b : BnkSpec) → default_bnk (default_bnk b) ≡ default_bnk b
unfolding default_bnk
default_bnk_idem b = simp (or_else_idem, or_else_ℤ_idem)

default_jumphost_idem :
    (jh : JumphostSpec) → default_jumphost (default_jumphost jh) ≡ default_jumphost jh
unfolding default_jumphost
default_jumphost_idem jh = simp or_else_idem

pub default_testing_idem :
    (t : TestingSpec) → default_testing (default_testing t) ≡ default_testing t
unfolding default_testing
default_testing_idem t = simp (on_some_idem default_jumphost default_jumphost_idem)

pub default_demo_idem : (d : DemoSpec) → default_demo (default_demo d) ≡ default_demo d
unfolding default_demo
default_demo_idem d = ground (arith, or_else_idem d.ttl "24h")

pub default_big_ip_ve_idem :
    (ve : BigIpVeSpec) → default_big_ip_ve (default_big_ip_ve ve) ≡ default_big_ip_ve ve
unfolding default_big_ip_ve
default_big_ip_ve_idem ve = ground (
  arith,
  or_else_idem ve.instance_type "c5n.2xlarge",
  or_else_idem ve.vip "10.0.10.120",
  or_else_idem ve.license_tier "Good",
)

or_positive_idem : (n d : ℤ) → or_positive (or_positive n d) d ≡ or_positive n d
unfolding or_positive
or_positive_idem n d = ground arith

or_positive_float_idem :
    (x d : Float64) → or_positive_float (or_positive_float x d) d ≡ or_positive_float x d
unfolding or_positive_float
or_positive_float_idem x d = ground arith

fill_from_idem : (p s : SyntheticSpec) → fill_from p (fill_from p s) ≡ fill_from p s
unfolding fill_from
fill_from_idem p s = simp (or_else_idem, or_positive_idem, or_positive_float_idem)

sage_maker_idem :
    (s : SageMakerSpec)
    → apply_sage_maker_defaults (apply_sage_maker_defaults s) ≡ apply_sage_maker_defaults s
unfolding apply_sage_maker_defaults
sage_maker_idem s = simp or_else_idem

synthetic_idem :
    (s : SyntheticSpec)
    → apply_synthetic_defaults (apply_synthetic_defaults s) ≡ apply_synthetic_defaults s
unfolding apply_synthetic_defaults fill_from
synthetic_idem s = simp (or_else_idem, or_positive_idem, or_positive_float_idem)

pub default_ai_idem : (ai : AiSpec) → default_ai (default_ai ai) ≡ default_ai ai
unfolding default_ai
default_ai_idem ai = simp (
  on_some_idem apply_sage_maker_defaults sage_maker_idem,
  on_some_idem apply_synthetic_defaults synthetic_idem,
)
