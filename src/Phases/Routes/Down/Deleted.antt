-- ===== src/Phases/Routes/Down/Deleted.antt =====
-- internal/aws/phases/phase06_routetables.go: the tables that the way down deletes.
use awsbnkctl.Base.{String, Bool, List}
use awsbnkctl.Cache.{get}
use awsbnkctl.Phases.{Aws, World, Action, ◌>>=◌, ◌>>◌, save_state, set_key, gets, get_key}
use awsbnkctl.Phases.Routes.{RouteTable, RouteApi}
use awsbnkctl.Phases.Routes.Down.{
  rtb_ids_of, tables_or_none, rtb_filters, collect_rtb_ids, delete_rtbs,
}
use awsbnkctl.Phases.Routes.Down.Collected.{is_doomed}
use awsbnkctl.Phases.Routes.Down.Tables.{Deletes}

module _ {S : Type 0} (aws : Aws S) (api : RouteApi S) (there : S → String → Bool)
    (laws : Deletes api there) (id : String) where
  abbrev tail_of_down : Action S Unit
  tail_of_down = set_key "PUBLIC_RTB" "" >> (set_key "PRIVATE_RTB" "" >> save_state aws)

  -- The answer to the look for tables.
  abbrev pub tables_of : World S → List RouteTable
  tables_of w =
      tables_or_none
        (api.describe_route_tables
          (rtb_filters aws api w.cluster.metadata.name (get w.cache "VPC_ID")) w.cloud).0

  abbrev pub goes : World S → Bool
  goes w = is_doomed (get w.cache "PUBLIC_RTB") (get w.cache "PRIVATE_RTB") (tables_of w) id

  -- The way down behind the check of the session.
  abbrev body_of_down : Action S Unit
  body_of_down = gets (λ v. v.cluster) >>= λ cl. get_key "VPC_ID" >>= λ vpc.
      get_key "PUBLIC_RTB" >>= λ public. get_key "PRIVATE_RTB" >>= λ private.
      collect_rtb_ids aws api cl.metadata.name vpc public private >>= λ rtbs.
      delete_rtbs aws api rtbs >> tail_of_down

  -- What is collected, and the run behind the look.
  abbrev ids_of : World S → List String
  ids_of w = rtb_ids_of (get w.cache "PUBLIC_RTB") (get w.cache "PRIVATE_RTB") (tables_of w)

  abbrev looked_of : World S → World S
  looked_of w = record w {
    cloud =
        (api.describe_route_tables
          (rtb_filters aws api w.cluster.metadata.name (get w.cache "VPC_ID")) w.cloud).1;
  }
