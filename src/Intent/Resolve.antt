-- ===== src/Intent/Resolve.antt =====
-- The settings that internal/intent/cluster.go resolves by priority: environment, file, default. A
-- nil receiver is `none`.
use Prim.Native.String
use awsbnkctl.Base.{
  String, Bool, true, false, not, Option, none, some, is_empty, if◌then◌else◌, or_else,
}
use awsbnkctl.Platform.{Platform}
use awsbnkctl.Release.{flo_chart_for, default_flo_chart}
use awsbnkctl.Intent.Schema.{ForgeSpec, FloSpec, LbControllerSpec, AddonsSpec, Cluster}

abbrev pub default_forge_rest_url : String
default_forge_rest_url = "http://localhost:8000"

-- A field of a block that may be absent; the empty text then.
abbrev pub field {ℓ} : {A : Type ℓ} → Option A → (A → String) → String
field none get = ""
field (some a) get = get a

module _ (p : Platform) where
  unfoldable pub resolve_url : Option ForgeSpec → String
  resolve_url f =
      or_else (p.getenv "AWSBNKCTL_FORGE_URL")
        (or_else (field f (λ x. x.url)) default_forge_rest_url)

  unfoldable pub resolve_password : Option ForgeSpec → String × Bool
  resolve_password f =
      if not (is_empty (p.getenv "AWSBNKCTL_FORGE_PASSWORD"))
      then (p.getenv "AWSBNKCTL_FORGE_PASSWORD", false)
      else if not (is_empty (field f (λ x. x.password)))
      then (field f (λ x. x.password), false)
      else ("changeme", true)

  unfoldable pub resolve_agent_token : Option ForgeSpec → String
  resolve_agent_token f =
      or_else (p.getenv "AWSBNKCTL_FORGE_AGENT_TOKEN")
        (or_else (field f (λ x. x.agent_token)) (field f (λ x. x.agent_token_camel)))

  unfoldable pub resolve_environment : Option ForgeSpec → String
  resolve_environment f =
      or_else (p.getenv "AWSBNKCTL_FORGE_ENVIRONMENT")
        (or_else (field f (λ x. x.environment)) "dev")

  unfoldable pub resolve_project_name : Option ForgeSpec → String → String
  resolve_project_name f workspace =
      or_else (p.getenv "AWSBNKCTL_FORGE_PROJECT")
        (or_else (field f (λ x. x.project_name)) (String.◌++◌ "awsbnkctl-" workspace))

unfoldable pub resolve_username : Option ForgeSpec → String
resolve_username f = or_else (field f (λ x. x.username)) "admin"

unfoldable pub resolve_project_type : Option ForgeSpec → String
resolve_project_type f = or_else (field f (λ x. x.project_type)) "cloud-aws"

abbrev switch : Bool → Option Bool → Bool
switch d none = d
switch d (some b) = b

unfoldable pub flo_enabled : Option FloSpec → Bool
flo_enabled none = true
flo_enabled (some f) = switch true f.enabled

-- FloSpec.FLOVersion
unfoldable pub flo_spec_version : Option FloSpec → String
flo_spec_version f = or_else (field f (λ x. x.version)) default_flo_chart

unfoldable pub lb_controller_enabled : Option LbControllerSpec → Bool
lb_controller_enabled none = false
lb_controller_enabled (some l) = switch false l.enabled_flag

abbrev pub default_lb_controller_version : String
default_lb_controller_version = "1.8.1"

unfoldable pub lb_controller_version : Option LbControllerSpec → String
lb_controller_version l = or_else (field l (λ x. x.version)) default_lb_controller_version

abbrev addons_flo : Option AddonsSpec → Option FloSpec
addons_flo none = none
addons_flo (some a) = a.flo

abbrev chart_or_default : Option String → String
chart_or_default none = default_flo_chart
chart_or_default (some chart) = chart

-- Cluster.FLOVersion
unfoldable pub flo_version : Option Cluster → String
flo_version none = default_flo_chart
flo_version (some c) =
    if not (is_empty (field (addons_flo c.addons) (λ f. f.version)))
    then field (addons_flo c.addons) (λ f. f.version)
    else if not (is_empty (field c.bnk (λ b. b.flo_version)))
    then field c.bnk (λ b. b.flo_version)
    else if not (is_empty (field c.bnk (λ b. b.manifest_version)))
    then chart_or_default (flo_chart_for (field c.bnk (λ b. b.manifest_version)))
    else default_flo_chart
