-- ===== src/Bnkscan.antt =====
-- internal/k8s/bnkscan: the readiness verdict on an index of the cluster, from readiness.go and
-- types.go. The index has the fields that the verdict reads.
pub mod Verdict
pub mod Advice
pub mod Waiting
use Prim.Native.String
use awsbnkctl.Base.{
  ℕ, suc, ◌+◌, String, Bool, true, false, not, List, [], ◌∷◌, ◌++◌, length, null, join, contains,
  ◌&&◌, ◌||◌, is_empty, str_eq, ltb, ℤ, pos, negsuc, ltb_ℤ, show_nat, if◌then◌else◌,
}

pub data Generation : Type 0 where
  gen23 gen24 gen_mixed gen_none : Generation

pub record Object : Type 0 where
  pub namespace : String
  pub name : String
  pub ready : Bool
  pub detail : String

pub record Controller : Type 0 where
  pub namespace : String
  pub name : String
  pub found : Bool
  pub desired : ℤ
  pub available : ℤ
  pub ready : Bool

pub record Tmm : Type 0 where
  pub namespace : String
  pub name : String
  pub found : Bool
  pub desired : ℤ
  pub ready : ℤ
  pub pending : List String

pub record Legacy : Type 0 where
  pub f5_bnk_gateways : ℕ
  pub bnk_sec_policies : ℕ
  pub bnk_net_policies : ℕ
  pub f5_spk_vlans : ℕ
  pub f5_spk_egresses : ℕ

pub record Index : Type 0 where
  pub generation : Generation
  pub groups : List String
  pub infras : List Object
  pub gateways : List Object
  pub persistence_profiles : List Object
  pub ai_gateway_profiles : List Object
  pub ai_gateways : List Object
  pub controller : Controller
  pub tmm : Tmm
  pub legacy : Legacy

pub record Tally : Type 0 where
  pub total : ℕ
  pub ready : ℕ

pub record Readiness : Type 0 where
  pub generation : Generation
  pub ready : Bool
  pub problems : List String
  pub infras : Tally
  pub gateways : Tally
  pub controller : Controller
  pub tmm : Tmm
  pub legacy_crds : Bool
  pub legacy_crs : ℕ

abbrev pub gateway_f5_group : String
gateway_f5_group = "gateway.k8s.f5.com"

abbrev pub legacy_policy_group : String
legacy_policy_group = "gateway.k8s.f5net.com"

unfoldable pub show_int : ℤ → String
show_int (pos n) = show_nat n
show_int (negsuc n) = String.◌++◌ "-" (show_nat (suc n))

-- The texts of `fmt.Sprintf`, piece by piece.
abbrev texts : List String → String
texts = join ""

-- `ns/name`
abbrev slashed : String → String → String
slashed ns name = texts (ns ∷ "/" ∷ name ∷ [])

unfoldable pub id : Object → String
unfolding join
id o = if is_empty o.namespace then o.name else slashed o.namespace o.name

unfoldable pub complete : Tmm → Bool
complete t = t.found && ltb_ℤ (pos 0) t.desired && not (ltb_ℤ t.ready t.desired)

unfoldable pub count : Legacy → ℕ
count l =
    l.f5_bnk_gateways + l.bnk_sec_policies + l.bnk_net_policies + l.f5_spk_vlans + l.f5_spk_egresses

-- `Any` of the legacy kinds
unfoldable pub any : Legacy → Bool
unfolding count
any l = ltb 0 (count l)

unfoldable pub generation_problems : Bool → Generation → List String
generation_problems accept gen_none =
    "no BNK policy CRD group served (gateway.k8s.f5.com missing)" ∷ []
generation_problems false gen23 =
    "cluster serves the 2.3 API (gateway.k8s.f5net.com); run awsbnkctl bnk upgrade" ∷ []
generation_problems accept other = []

unfoldable pub controller_problems : Controller → List String
unfolding join show_int
controller_problems c =
    if not c.found
    then texts ("deployment " ∷ slashed c.namespace c.name ∷ " not found" ∷ []) ∷ []
    else if not c.ready
    then texts (
        "deployment "
        ∷ slashed c.namespace c.name
        ∷ ": "
        ∷ show_int c.available
        ∷ "/"
        ∷ show_int c.desired
        ∷ " replicas available"
        ∷ [])
      ∷ []
    else []

unfoldable pub tmm_problem : Tmm → String
unfolding join show_int
tmm_problem t =
    let msg = texts (
      "daemonset "
      ∷ slashed t.namespace t.name
      ∷ ": "
      ∷ show_int t.ready
      ∷ "/"
      ∷ show_int t.desired
      ∷ " TMM pods ready"
      ∷ []) in
    if null t.pending then msg else texts (msg ∷ "; " ∷ join "; " t.pending ∷ [])

unfoldable pub tmm_problems : Tmm → List String
unfolding complete tmm_problem
tmm_problems t = if t.found && not (complete t) then tmm_problem t ∷ [] else []

-- The loop over the objects of a kind, with the message of one that is not ready.
unfoldable pub unready : (Object → String) → List Object → List String
unready message [] = []
unready message (o ∷ os) =
    let rest = unready message os in if not o.ready then message o ∷ rest else rest

abbrev plain_message : String → Object → String
plain_message kind o = texts (kind ∷ " " ∷ id o ∷ ": " ∷ o.detail ∷ [])

abbrev profile_message : Controller → Object → String
profile_message c o =
    let msg = plain_message "F5BigPersistenceProfile" o in
    if c.found && not (is_empty o.namespace) && not (str_eq o.namespace c.namespace)
    then texts (
        msg
        ∷ "; the BNK 2.4.0 controller reconciles F5BigPersistenceProfile only in its own namespace ("
        ∷ c.namespace
        ∷ ") and a NetPolicy resolves the profile in its own namespace, so MCP session persistence needs the Gateway, NetPolicy and profile in "
        ∷ c.namespace ∷ [])
    else msg

unfoldable pub infra_problems : Generation → List Object → List String
unfolding join id unready
infra_problems gen23 os = []
infra_problems gen_none os = []
infra_problems other os =
    (if null os then "no Infra CR (gateway.k8s.f5.com) found" ∷ [] else [])
    ++ unready (plain_message "Infra") os

unfoldable pub object_problems : Index → List String
unfolding join id unready
object_problems idx =
    unready (plain_message "Gateway") idx.gateways
    ++ (unready (profile_message idx.controller) idx.persistence_profiles
        ++ (unready (plain_message "AIGatewayProfile") idx.ai_gateway_profiles
            ++ unready (plain_message "AIGateway") idx.ai_gateways))

unfoldable pub problems : Bool → Index → List String
unfolding generation_problems controller_problems tmm_problems infra_problems object_problems
problems accept idx =
    generation_problems accept idx.generation
    ++ (controller_problems idx.controller
        ++ (tmm_problems idx.tmm
            ++ (infra_problems idx.generation idx.infras ++ object_problems idx)))

unfoldable pub tally : List Object → Tally
tally [] = record { total = 0; ready = 0 }
tally (o ∷ os) =
    let rest = tally os in
    record { total = suc rest.total; ready = if o.ready then suc rest.ready else rest.ready }

unfoldable pub readiness : Bool → Index → Readiness
unfolding problems tally count
readiness accept idx =
    let found = problems accept idx in
    record {
      generation = idx.generation;
      ready = null found;
      problems = found;
      infras = tally idx.infras;
      gateways = tally idx.gateways;
      controller = idx.controller;
      tmm = idx.tmm;
      legacy_crds = contains idx.groups legacy_policy_group;
      legacy_crs = count idx.legacy;
    }

unfoldable pub detect_generation : List String → Generation
detect_generation groups =
    if contains groups gateway_f5_group
    then (if contains groups legacy_policy_group then gen_mixed else gen24)
    else if contains groups legacy_policy_group
    then gen23
    else gen_none

abbrev pub migrate_hint : String
migrate_hint = "run `awsbnkctl bnk migrate-2.4`"

abbrev pub serves_24 : Generation → Bool
serves_24 gen24 = true
serves_24 gen_mixed = true
serves_24 other = false

-- The switch on what is left of 2.3.
unfoldable pub advice_text : Bool → ℕ → String
unfolding join
advice_text crds crs =
    if crds && ltb 0 crs
    then texts (
        "legacy 2.3 CRDs ("
        ∷ legacy_policy_group
        ∷ ") still served and "
        ∷ show_nat crs
        ∷ " legacy CR(s) present; "
        ∷ migrate_hint
        ∷ [])
    else if crds
    then texts ("legacy 2.3 CRDs (" ∷ legacy_policy_group ∷ ") still served; " ∷ migrate_hint ∷ [])
    else if ltb 0 crs
    then texts (show_nat crs ∷ " legacy 2.3 CR(s) present; " ∷ migrate_hint ∷ [])
    else ""

unfoldable pub migration_advice : Readiness → String
unfolding advice_text
migration_advice r =
    if not (serves_24 r.generation) then "" else advice_text r.legacy_crds r.legacy_crs
