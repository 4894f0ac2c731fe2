-- ===== src/Tests/Routes.antt =====
-- Phase 06 on a cloud that is the list of the associations of its tables.
use awsbnkctl.Base.{
  ◌≡◌, refl, ap, ◌∙◌, arith, eq_iff, String, Bool, true, false, ◌&&◌, ◌||◌, none, some, List, [],
  ◌∷◌, str_eq, split, trim_space, trim_left, trim_right, grow_first, if◌then◌else◌,
}
use awsbnkctl.Redact.{starts_with}
use awsbnkctl.Tags.{Filter}
use awsbnkctl.Cache.{State, get, missing}
use awsbnkctl.Samples.{demo_cluster}
use awsbnkctl.Phases.{World, Reply, reply, api_error, call, get_key, set_key}
use awsbnkctl.Phases.Routes.{
  Association, RouteTable, RouteApi, first_has, any_subnet, fill_table, ensure_route, associate_all,
  associate_keys, associate_key, ensure_rtb_association, split_csv,
}
use awsbnkctl.Phases.Routes.Joined.{Associates}
use awsbnkctl.Phases.Routes.Filled.{IsFilled, fill_table_joins}
use awsbnkctl.Phases.Routes.Down.{rtb_ids_of}

abbrev Pairs : Type 0
Pairs = List (String × String)

abbrev joined : Pairs → (rtb subnet : String) → Bool
joined [] rtb subnet = false
joined ((r, x) ∷ s) rtb subnet = (str_eq r rtb && str_eq x subnet) || joined s rtb subnet

abbrev pair_of : String → Association
pair_of x = record { association_id = some "rtbassoc-1"; subnet_id = some x; main = none }

abbrev shown : String → Pairs → List Association
shown rtb [] = []
shown rtb ((r, x) ∷ s) = let rest = shown rtb s in if str_eq r rtb then pair_of x ∷ rest else rest

abbrev one_table : List Filter → Pairs → List RouteTable
one_table [] s = []
one_table (f ∷ fs) s = tables f.values
  where
    tables : List String → List RouteTable
    tables [] = []
    tables (v ∷ vs) = record { rtb_id = v; associations = shown v s } ∷ []

abbrev pairs_api : RouteApi Pairs
pairs_api = record {
  describe_route_tables = λ fs s. (reply (one_table fs s), s);
  create_route_table = λ vpc tags s. (reply "rtb-9", s);
  create_route = λ rtb cidr target s. (api_error "RouteAlreadyExists", s);
  associate_route_table = λ rtb subnet s. (reply tt, (rtb, subnet) ∷ s);
  disassociate_route_table = λ id s. (reply tt, s);
  delete_route_table = λ rtb s. (reply tt, s);
}

shown-joined :
    (s : Pairs) (rtb subnet : String)
    → any_subnet subnet (shown rtb s) ≡ true
    → joined s rtb subnet ≡ true
shown-joined [] rtb subnet h = h
shown-joined ((r, x) ∷ s) rtb subnet h = ground (arith, shown-joined s rtb subnet)

abbrev tables_of : Reply (List RouteTable) → List RouteTable
tables_of (reply rts) = rts
tables_of (api_error code) = []

pairs-Associates : Associates pairs_api joined
pairs-Associates = record {
  describe_keeps = λ fs s rtb subnet h. h;
  describe_shows = λ s rtb subnet rts e h.
      shown-joined s rtb subnet (ap (λ r. first_has subnet (tables_of r)) e ∙ h);
  associate_keeps = λ s rtb' subnet' rtb subnet h. ground arith;
  associate_joins = λ s rtb subnet e. ground (arith, eq_iff rtb rtb, eq_iff subnet subnet);
}

abbrev ids : State
ids = record {
  dir = ".awsbnkctl/syd";
  entries =
      ("PRIVATE_SUBNETS", "subnet-1, subnet-2,")
      ∷ ("BNK_EXT_SUBNET", "subnet-3")
      ∷ ("BNK_INT_SUBNET", "dry-run-subnet-bnk-int")
      ∷ [];
  read_only = false;
}

abbrev before : World Pairs
before = record {
  cloud = ("rtb-9", "subnet-2") ∷ [];
  cluster = demo_cluster;
  cache = ids;
  file = missing;
  temp = missing;
}

abbrev path_keys : List String
path_keys = "BNK_EXT_SUBNET" ∷ "BNK_INT_SUBNET" ∷ []

associated :
    (fill_table pairs_api "" "nat-1" "PRIVATE_SUBNETS" path_keys "PRIVATE_RTB" "rtb-9"
      before).1.cloud
    ≡ ("rtb-9", "subnet-3") ∷ ("rtb-9", "subnet-1") ∷ ("rtb-9", "subnet-2") ∷ []
unfolding fill_table ensure_route get_key set_key associate_all associate_keys associate_key
    ensure_rtb_association call split_csv split trim_space trim_left trim_right get starts_with
    grow_first
associated = refl

fill_table_joins_example :
    IsFilled pairs_api joined pairs-Associates ids "PRIVATE_SUBNETS" path_keys "PRIVATE_RTB" "rtb-9"
      (fill_table pairs_api "" "nat-1" "PRIVATE_SUBNETS" path_keys "PRIVATE_RTB" "rtb-9" before).1
unfolding fill_table ensure_route get_key set_key associate_all associate_keys associate_key
    ensure_rtb_association call split_csv split trim_space trim_left trim_right get starts_with
    grow_first
fill_table_joins_example =
    fill_table_joins pairs_api joined pairs-Associates "" "nat-1" "PRIVATE_SUBNETS" path_keys
      "PRIVATE_RTB" "rtb-9" before refl

abbrev main_table : RouteTable
main_table = record {
  rtb_id = "rtb-0";
  associations =
      record { association_id = some "rtbassoc-0"; subnet_id = none; main = some true } ∷ [];
}

abbrev found_tables : List RouteTable
found_tables =
    main_table
    ∷ record { rtb_id = "rtb-2"; associations = pair_of "subnet-1" ∷ [] }
    ∷ record { rtb_id = "rtb-3"; associations = [] }
    ∷ []

swept : rtb_ids_of "" "rtb-2" found_tables ≡ "rtb-2" ∷ "rtb-3" ∷ []
unfolding rtb_ids_of
swept = refl
