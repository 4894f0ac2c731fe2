-- ===== src/Phases/Routes/Down.antt =====
-- internal/aws/phases/phase06_routetables.go: Phase06RouteTablesDown.
pub mod Collected
pub mod Tables
pub mod Deleted
use awsbnkctl.Base.{
  String, Bool, true, false, ◌||◌, Option, none, some, List, [], ◌∷◌, ◌++◌, is_empty, not, contains,
  if◌then◌else◌,
}
use awsbnkctl.Tags.{Filter, cluster_filter}
use awsbnkctl.Intent.Schema.{Cluster}
use awsbnkctl.Phases.{
  Aws, Action, Result, ok, err, Reply, reply, api_error, call_failed, pure, ◌>>=◌, ◌>>◌, gets,
  get_key, set_key, check_auth_or_die, save_state,
}
use awsbnkctl.Phases.Polling.{is_not_found_code}
use awsbnkctl.Phases.Nat.{call_removing}
use awsbnkctl.Phases.Routes.{Association, RouteTable, RouteApi, describe_rtb}

abbrev pub is_main : Option Bool → Bool
is_main none = false
is_main (some b) = b

abbrev pub has_main : List Association → Bool
has_main [] = false
has_main (a ∷ more) = is_main a.main || has_main more

-- The closure `add` of collectRTBIDs.
abbrev pub add_id : List String → String → List String
add_id ids id = if is_empty id || contains ids id then ids else ids ++ (id ∷ [])

abbrev pub add_table : List String → RouteTable → List String
add_table ids rt = if has_main rt.associations then ids else add_id ids rt.rtb_id

abbrev pub add_tables : List String → List RouteTable → List String
add_tables ids [] = ids
add_tables ids (rt ∷ rts) = add_tables (add_table ids rt) rts

-- The ids that are recorded, and those of the tables that are found.
unfoldable pub rtb_ids_of : (public private : String) → List RouteTable → List String
rtb_ids_of public private rts = add_tables (add_id (add_id [] public) private) rts

abbrev pub tables_or_none : Reply (List RouteTable) → List RouteTable
tables_or_none (reply rts) = rts
tables_or_none (api_error code) = []

-- A table that is gone has no associations.
abbrev pub tables_seen : Reply (List RouteTable) → Result (List RouteTable)
tables_seen (reply rts) = ok rts
tables_seen (api_error code) =
    if is_not_found_code code then ok [] else err (call_failed "DescribeRouteTables" code)

module _ {S : Type 0} (aws : Aws S) (api : RouteApi S) where
  abbrev pub rtb_filters : (cluster_name vpc : String) → List Filter
  rtb_filters cluster_name vpc =
      cluster_filter cluster_name
      ∷ (if not (is_empty vpc) then record { name = "vpc-id"; values = vpc ∷ [] } ∷ [] else [])

  unfoldable pub collect_rtb_ids :
      (cluster_name vpc public private : String) → Action S (List String)
  unfolding rtb_ids_of
  collect_rtb_ids cluster_name vpc public private w =
      let (out, s) = api.describe_route_tables (rtb_filters cluster_name vpc) w.cloud in
      (ok (rtb_ids_of public private (tables_or_none out)), record w { cloud = s })

  unfoldable pub see_tables : String → Action S (List RouteTable)
  unfolding is_not_found_code
  see_tables rtb w =
      let (out, s) = describe_rtb api rtb w.cloud in (tables_seen out, record w { cloud = s })

  -- The main association stays, and one without an id.
  abbrev pub disassociate_id : Bool → Option String → Action S Unit
  disassociate_id main none = pure tt
  disassociate_id main (some id) =
      if main
      then pure tt
      else call_removing "DisassociateRouteTable" (api.disassociate_route_table id)

  unfoldable pub disassociate_each : List Association → Action S Unit
  unfolding call_removing
  disassociate_each [] = pure tt
  disassociate_each (a ∷ more) =
      disassociate_id (is_main a.main) a.association_id >> disassociate_each more

  unfoldable pub disassociate_tables : List RouteTable → Action S Unit
  unfolding disassociate_each
  disassociate_tables [] = pure tt
  disassociate_tables (rt ∷ rts) = disassociate_each rt.associations >> disassociate_tables rts

  unfoldable pub disassociate_rtb : String → Action S Unit
  unfolding see_tables disassociate_tables
  disassociate_rtb rtb = do rts ← see_tables rtb; disassociate_tables rts

  unfoldable pub delete_rtbs : List String → Action S Unit
  unfolding disassociate_rtb call_removing
  delete_rtbs [] = pure tt
  delete_rtbs (rtb ∷ rtbs) = do
    disassociate_rtb rtb
    call_removing "DeleteRouteTable" (api.delete_route_table rtb)
    delete_rtbs rtbs

  unfoldable pub phase06_route_tables_down : Action S Unit
  unfolding check_auth_or_die get_key set_key save_state collect_rtb_ids delete_rtbs
  phase06_route_tables_down = do
    check_auth_or_die aws
    cl ← gets (λ w. w.cluster)
    vpc ← get_key "VPC_ID"
    public ← get_key "PUBLIC_RTB"
    private ← get_key "PRIVATE_RTB"
    rtbs ← collect_rtb_ids cl.metadata.name vpc public private
    delete_rtbs rtbs
    set_key "PUBLIC_RTB" ""
    set_key "PRIVATE_RTB" ""
    save_state aws
