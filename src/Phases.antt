-- ===== src/Phases.antt =====
-- internal/aws/phases: the phases of `awsbnkctl up` that build the network. A phase is a step on the
-- cluster's configuration, the recorded ids, the file of ids and the cloud, which is a parameter.
pub mod Safe
pub mod Vpc
pub mod Gateway
pub mod Polling
pub mod Nat
pub mod Routes
pub mod Subnets
pub mod DryRun
pub mod Deadlines
pub mod Rerun
pub mod Again
pub mod Released
pub mod Failures
use Prim.Native.String
use awsbnkctl.Base.{
  ℕ, String, Bool, true, false, Option, none, some, List, [], ◌∷◌, is_empty, if◌then◌else◌,
}
use awsbnkctl.Tags.{Tags, Filter, key_name, required, merge, cluster_filter}
use awsbnkctl.Cache.{Entries, State, FileSystem, Opened, Disk, SaveError, get, set, save}
use awsbnkctl.Intent.Schema.{Cluster}

-- A call of the SDK: a result, or an error with the code that is found in its chain, the empty text
-- if there is none.
pub data Reply (A : Type 0) : Type 0 where
  reply : A → Reply A
  api_error : String → Reply A

pub data PhaseError : Type 0 where
  unauthenticated : PhaseError
  missing_key : String → PhaseError
  call_failed : (call code : String) → PhaseError
  nat_failed timed_out context_done out_of_fuel : PhaseError
  not_saved : SaveError → PhaseError

pub data Result (A : Type 0) : Type 0 where
  ok : A → Result A
  err : PhaseError → Result A

pub data VpcAttribute : Type 0 where
  dns_support dns_hostnames : VpcAttribute

pub record InternetGateway : Type 0 where
  pub igw_id : String
  pub attachments : List (Option String)

pub record Zone : Type 0 where
  pub zone_name : Option String
  pub zone_type : Option String

pub record Address : Type 0 where
  pub allocation_id : String
  pub association_id : Option String

pub record NatGateway : Type 0 where
  pub nat_id : String
  pub nat_state : String

-- The calls of the SDK that the phases make, and the rest of what they take from outside: whether
-- the session is valid, the clock in seconds, a wait, which tells whether the context ended, the
-- order in which Go visits a map, and the disk.
pub record Aws (S : Type 0) : Type 0 where
  pub authenticated : Bool
  pub clock : S → ℕ
  pub stamp : S → String
  pub sleep : ℕ → S → Bool × S
  pub tag_order : Tags → Tags
  pub entry_order : Entries → Entries
  pub disk : FileSystem
  pub describe_vpcs : List Filter → S → Reply (List (Option String)) × S
  pub create_vpc : String → Tags → S → Reply String × S
  pub modify_vpc_attribute : String → VpcAttribute → S → Reply Unit × S
  pub describe_internet_gateways : List Filter → S → Reply (List InternetGateway) × S
  pub create_internet_gateway : Tags → S → Reply String × S
  pub attach_internet_gateway : String → String → S → Reply Unit × S
  pub describe_availability_zones : List Filter → S → Reply (List Zone) × S
  pub describe_subnets : List Filter → S → Reply (List String) × S
  pub create_subnet : (vpc cidr az : String) → Tags → S → Reply String × S
  pub modify_subnet_attribute : String → S → Reply Unit × S
  pub describe_addresses : List Filter → S → Reply (List Address) × S
  pub describe_address : String → S → Reply (List Address) × S
  pub allocate_address : Tags → S → Reply String × S
  pub release_address : String → S → Reply Unit × S
  pub describe_nat_gateways : List Filter → S → Reply (List NatGateway) × S
  pub describe_nat_gateway : String → S → Reply (List NatGateway) × S
  pub create_nat_gateway : (subnet allocation : String) → Tags → S → Reply String × S
  pub delete_nat_gateway : String → S → Reply Unit × S

pub record World (S : Type 0) : Type 0 where
  pub cloud : S
  pub cluster : Cluster
  pub cache : State
  pub file : Opened
  pub temp : Opened

abbrev pub Action : Type 0 → Type 0 → Type 0
Action S A = World S → Result A × World S

abbrev pub replied : {A : Type 0} → String → Reply A → Result A
replied name (reply a) = ok a
replied name (api_error code) = err (call_failed name code)

abbrev pub require_of : String → String → Result String
require_of key v = if is_empty v then err (missing_key key) else ok v

module _ {S : Type 0} where
  abbrev pub pure : {A : Type 0} → A → Action S A
  pure a w = (ok a, w)

  abbrev pub raise : {A : Type 0} → PhaseError → Action S A
  raise e w = (err e, w)

  abbrev pub carry_on : {A B : Type 0} → Result A × World S → (A → Action S B) → Result B × World S
  carry_on (ok a, w) f = f a w
  carry_on (err e, w) f = (err e, w)

  infixl 5 ◌>>=◌ ◌>>◌
  abbrev pub ◌>>=◌ : {A B : Type 0} → Action S A → (A → Action S B) → Action S B
  ◌>>=◌ m f w = carry_on (m w) f

  abbrev pub ◌>>◌ : {B : Type 0} → Action S Unit → Action S B → Action S B
  m >> k = m >>= λ _. k

  abbrev pub gets : {A : Type 0} → (World S → A) → Action S A
  gets f w = (ok (f w), w)

  -- `st.Get`, `st.Set`
  unfoldable pub get_key : String → Action S String
  get_key key w = (ok (get w.cache key), w)

  unfoldable pub set_key : String → String → Action S Unit
  set_key key value w = (ok tt, record w { cache = set key value w.cache })

  -- A call whose error ends the phase.
  unfoldable pub call : {A : Type 0} → String → (S → Reply A × S) → Action S A
  call name f w = let (r, s) = f w.cloud in (replied name r, record w { cloud = s })

  -- An id that an earlier phase has recorded.
  unfoldable pub require_key : String → Action S String
  require_key key w = (require_of key (get w.cache key), w)

  module _ (aws : Aws S) where
    unfoldable pub check_auth_or_die : Action S Unit
    check_auth_or_die w = ((if aws.authenticated then ok tt else err unauthenticated), w)

    -- state.env and state.env.tmp
    abbrev pub disk_of : World S → Disk
    disk_of w = record { env = w.file; temp = w.temp }

    abbrev pub saved : Disk × Option SaveError → World S → Result Unit × World S
    saved (d, none) w = (ok tt, record w { file = d.env; temp = d.temp })
    saved (d, some e) w = (err (not_saved e), record w { file = d.env; temp = d.temp })

    unfoldable pub save_state : Action S Unit
    save_state w = saved (save aws.disk (aws.stamp w.cloud) aws.entry_order w.cache (disk_of w)) w
