-- ===== src/Phases/Routes.antt =====
-- internal/aws/phases/phase06_routetables.go: Phase06RouteTables. The calls on route tables are one
-- more parameter.
pub mod Joined
pub mod Filled
pub mod Down
use Prim.Native.String
use awsbnkctl.Base.{
  ◌==◌, String, Bool, true, false, ◌&&◌, ◌||◌, Option, none, some, List, [], ◌∷◌, ◌++◌, is_empty,
  not, codes, contains, split, trim_space, str_eq, if◌then◌else◌,
}
use awsbnkctl.Redact.{starts_with}
use awsbnkctl.Tags.{Tags, Filter, key_name, required, merge, cluster_filter}
use awsbnkctl.Intent.Schema.{Cluster}
use awsbnkctl.Phases.{
  Aws, Action, Result, ok, err, Reply, reply, api_error, call_failed, pure, ◌>>=◌, ◌>>◌, gets,
  get_key, set_key, call, require_key, check_auth_or_die, save_state,
}
use awsbnkctl.Phases.Polling.{is_not_found_code}
use awsbnkctl.Phases.Nat.{call_removing}

pub record Association : Type 0 where
  pub association_id : Option String
  pub subnet_id : Option String
  pub main : Option Bool

-- A table of the API has its id.
pub record RouteTable : Type 0 where
  pub rtb_id : String
  pub associations : List Association

-- Where a route leads.
pub data Target : Type 0 where
  gateway nat_gateway : String → Target
  nowhere : Target

-- The calls of the SDK that the phase makes.
pub record RouteApi (S : Type 0) : Type 0 where
  pub describe_route_tables : List Filter → S → Reply (List RouteTable) × S
  pub create_route_table : String → Tags → S → Reply String × S
  pub create_route : (rtb cidr : String) → Target → S → Reply Unit × S
  pub associate_route_table : (rtb subnet : String) → S → Reply Unit × S
  pub disassociate_route_table : String → S → Reply Unit × S
  pub delete_route_table : String → S → Reply Unit × S

abbrev keep_part : String → List String → List String
keep_part p ps = if is_empty p then ps else p ∷ ps

abbrev pub trimmed : List String → List String
trimmed [] = []
trimmed (p ∷ ps) = keep_part (trim_space p) (trimmed ps)

unfoldable pub split_csv : String → List String
unfolding split trim_space
split_csv csv = trimmed (split b',' csv)

abbrev pub is_dry_id : String → Bool
is_dry_id id = starts_with (codes "dry-run") (codes id)

abbrev pub first_rtb : List RouteTable → String
first_rtb [] = ""
first_rtb (rt ∷ rts) = rt.rtb_id

abbrev pub is_subnet : String → Option String → Bool
is_subnet subnet none = false
is_subnet subnet (some id) = str_eq id subnet

abbrev pub any_subnet : String → List Association → Bool
any_subnet subnet [] = false
any_subnet subnet (a ∷ more) = is_subnet subnet a.subnet_id || any_subnet subnet more

abbrev pub first_has : String → List RouteTable → Bool
first_has subnet [] = false
first_has subnet (rt ∷ rts) = any_subnet subnet rt.associations

abbrev pub target_of : (igw nat : String) → Target
target_of igw nat =
    if not (is_empty igw)
    then gateway igw
    else if not (is_empty nat)
    then nat_gateway nat
    else nowhere

abbrev pub route_made : Reply Unit → Result Unit
route_made (reply u) = ok tt
route_made (api_error code) =
    if str_eq code "RouteAlreadyExists" then ok tt else err (call_failed "CreateRoute" code)

module _ {S : Type 0} (api : RouteApi S) where
  -- DescribeRouteTables on one table.
  abbrev pub describe_rtb : String → S → Reply (List RouteTable) × S
  describe_rtb rtb =
      api.describe_route_tables (record { name = "route-table-id"; values = rtb ∷ [] } ∷ [])

  unfoldable pub find_rtb : (cluster_name vpc visibility : String) → Action S String
  unfolding call
  find_rtb cluster_name vpc visibility = do
    out ← call "DescribeRouteTables" (
        api.describe_route_tables (
          cluster_filter cluster_name
          ∷ record { name = "vpc-id"; values = vpc ∷ [] }
          ∷ record {
            name = String.◌++◌ "tag:" key_name;
            values = String.◌++◌ cluster_name (String.◌++◌ "-rtb-" visibility) ∷ [];
          }
          ∷ []))
    pure (first_rtb out)

  unfoldable pub ensure_route : (rtb cidr igw nat : String) → Action S Unit
  ensure_route rtb cidr igw nat w =
      let (r, s) = api.create_route rtb cidr (target_of igw nat) w.cloud in
      (route_made r, record w { cloud = s })

  abbrev pub associate_unless : (rtb subnet : String) → Bool → Action S Unit
  associate_unless rtb subnet there =
      if there then pure tt else call "AssociateRouteTable" (api.associate_route_table rtb subnet)

  unfoldable pub ensure_rtb_association : (rtb subnet : String) → Action S Unit
  unfolding call
  ensure_rtb_association rtb subnet = do
    out ← call "DescribeRouteTables" (describe_rtb rtb)
    associate_unless rtb subnet (first_has subnet out)

  unfoldable pub associate_all : String → List String → Action S Unit
  unfolding ensure_rtb_association
  associate_all rtb [] = pure tt
  associate_all rtb (s ∷ ss) = ensure_rtb_association rtb s >> associate_all rtb ss

  abbrev pub associate_path : (rtb subnet : String) → Action S Unit
  associate_path rtb subnet =
      if is_empty subnet || is_dry_id subnet then pure tt else ensure_rtb_association rtb subnet

  unfoldable pub associate_key : (rtb key : String) → Action S Unit
  unfolding get_key ensure_rtb_association
  associate_key rtb key = do subnet ← get_key key; associate_path rtb subnet

  unfoldable pub associate_keys : String → List String → Action S Unit
  unfolding associate_key
  associate_keys rtb [] = pure tt
  associate_keys rtb (key ∷ keys) = associate_key rtb key >> associate_keys rtb keys

  -- The route, the subnets and the subnets of the data path of a table, which is then recorded.
  unfoldable pub fill_table :
      (igw nat subnets_key : String) → List String → (rtb_key rtb : String) → Action S Unit
  unfolding ensure_route get_key set_key associate_all associate_keys split_csv
  fill_table igw nat subnets_key path_keys rtb_key rtb = do
    ensure_route rtb "0.0.0.0/0" igw nat
    subnets ← get_key subnets_key
    associate_all rtb (split_csv subnets)
    associate_keys rtb path_keys
    set_key rtb_key rtb

  abbrev pub fill_public : (igw rtb : String) → Action S Unit
  fill_public igw = fill_table igw "" "PUBLIC_SUBNETS" [] "PUBLIC_RTB"

  abbrev pub fill_private : (nat rtb : String) → Action S Unit
  fill_private nat =
      fill_table "" nat "PRIVATE_SUBNETS" ("BNK_EXT_SUBNET" ∷ "BNK_INT_SUBNET" ∷ []) "PRIVATE_RTB"

module _ {S : Type 0} (aws : Aws S) (api : RouteApi S) where
  abbrev pub rtb_tags : Cluster → String → Tags
  rtb_tags cl visibility = merge aws.tag_order (
      required cl.metadata.name "rtb"
      ∷ ((key_name, String.◌++◌ cl.metadata.name (String.◌++◌ "-rtb-" visibility)) ∷ [])
      ∷ cl.tags
      ∷ cl.metadata.labels
      ∷ [])

  abbrev pub rtb_or_new : Cluster → (vpc visibility existing : String) → Action S String
  rtb_or_new cl vpc visibility existing =
      if is_empty existing
      then call "CreateRouteTable" (api.create_route_table vpc (rtb_tags cl visibility))
      else pure existing

  abbrev pub unless_empty : String → (String → Action S Unit) → Action S Unit
  unless_empty id f = if not (is_empty id) then f id else pure tt

  unfoldable pub provide_rtb :
      Cluster → (vpc visibility : String) → (String → Action S Unit) → Action S Unit
  unfolding find_rtb call
  provide_rtb cl vpc visibility fill = do
    existing ← find_rtb api cl.metadata.name vpc visibility
    rtb ← rtb_or_new cl vpc visibility existing
    unless_empty rtb fill

  abbrev pub private_table : Cluster → (vpc nat : String) → Action S Unit
  private_table cl vpc nat =
      if not (is_empty nat) then provide_rtb cl vpc "private" (fill_private api nat) else pure tt

  unfoldable pub provide_route_tables : Cluster → (vpc igw nat : String) → Action S Unit
  unfolding provide_rtb fill_table save_state
  provide_route_tables cl vpc igw nat = do
    provide_rtb cl vpc "public" (fill_public api igw)
    private_table cl vpc nat
    save_state aws

  abbrev pub route_tables_for : Cluster → Bool → (vpc igw nat : String) → Action S Unit
  route_tables_for cl dry_run vpc igw nat =
      if dry_run
      then set_key "PUBLIC_RTB" "dry-run-rtb-pub"
        >> (if not (is_empty nat) then set_key "PRIVATE_RTB" "dry-run-rtb-priv" else pure tt)
      else provide_route_tables cl vpc igw nat

  unfoldable pub phase06_route_tables : Bool → Action S Unit
  unfolding check_auth_or_die require_key get_key
  phase06_route_tables dry_run = do
    check_auth_or_die aws
    cl ← gets (λ w. w.cluster)
    vpc ← require_key "VPC_ID"
    igw ← require_key "IGW_ID"
    nat ← get_key "NAT_GW_ID"
    route_tables_for cl dry_run vpc igw nat
