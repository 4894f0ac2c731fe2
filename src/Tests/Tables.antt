-- ===== src/Tests/Tables.antt =====
-- The way down of phase 06 on a cloud that is the list of its route tables.
use awsbnkctl.Base.{
  ◌≡◌, refl, String, true, false, none, some, List, [], ◌∷◌, map, str_eq, if◌then◌else◌,
}
use awsbnkctl.Cache.{missing, get, set, save, save_run, finish_save}
use awsbnkctl.Samples.{demo_cluster}
use awsbnkctl.Tests.Caches.{good_disk, at_noon}
use awsbnkctl.Phases.{Aws, World, reply, get_key, set_key, save_state, check_auth_or_die}
use awsbnkctl.Phases.Nat.{call_removing}
use awsbnkctl.Phases.Routes.{RouteTable, RouteApi}
use awsbnkctl.Phases.Routes.Down.{
  rtb_ids_of, collect_rtb_ids, see_tables, disassociate_rtb, disassociate_tables, disassociate_each,
  delete_rtbs, phase06_route_tables_down,
}

abbrev Tables : Type 0
Tables = List String

abbrev without : String → Tables → Tables
without rtb [] = []
without rtb (t ∷ ts) = let rest = without rtb ts in if str_eq t rtb then rest else t ∷ rest

-- The table rtb-0 is the main one of its VPC.
abbrev table : String → RouteTable
table id = record {
  rtb_id = id;
  associations =
      record {
        association_id = some "rtbassoc-1";
        subnet_id = none;
        main = some (str_eq id "rtb-0");
      }
      ∷ [];
}

abbrev tables_api : RouteApi Tables
tables_api = record {
  describe_route_tables = λ fs s. (reply (map table s), s);
  create_route_table = λ vpc tags s. (reply "rtb-9", "rtb-9" ∷ s);
  create_route = λ rtb cidr target s. (reply tt, s);
  associate_route_table = λ rtb subnet s. (reply tt, s);
  disassociate_route_table = λ id s. (reply tt, s);
  delete_route_table = λ rtb s. (reply tt, without rtb s);
}

abbrev still : Aws Tables
still = record {
  authenticated = true;
  clock = λ s. 0;
  stamp = λ s. at_noon;
  sleep = λ n s. (false, s);
  tag_order = λ m. m;
  entry_order = λ m. m;
  disk = good_disk;
  describe_vpcs = λ fs s. (reply [], s);
  create_vpc = λ cidr tags s. (reply "vpc-1", s);
  modify_vpc_attribute = λ id a s. (reply tt, s);
  describe_internet_gateways = λ fs s. (reply [], s);
  create_internet_gateway = λ tags s. (reply "igw-1", s);
  attach_internet_gateway = λ igw vpc s. (reply tt, s);
  describe_availability_zones = λ fs s. (reply [], s);
  describe_subnets = λ fs s. (reply [], s);
  create_subnet = λ vpc cidr az tags s. (reply "subnet-1", s);
  modify_subnet_attribute = λ id s. (reply tt, s);
  describe_addresses = λ fs s. (reply [], s);
  describe_address = λ id s. (reply [], s);
  allocate_address = λ tags s. (reply "eip-1", s);
  release_address = λ id s. (reply tt, s);
  describe_nat_gateways = λ fs s. (reply [], s);
  describe_nat_gateway = λ id s. (reply [], s);
  create_nat_gateway = λ subnet allocation tags s. (reply "nat-1", s);
  delete_nat_gateway = λ id s. (reply tt, s);
}

abbrev standing : World Tables
standing = record {
  cloud = "rtb-0" ∷ "rtb-1" ∷ "rtb-2" ∷ [];
  cluster = demo_cluster;
  cache = record {
    dir = ".awsbnkctl/syd";
    entries = ("VPC_ID", "vpc-1") ∷ ("PUBLIC_RTB", "rtb-1") ∷ [];
    read_only = false;
  };
  file = missing;
  temp = missing;
}

main_left : (phase06_route_tables_down still tables_api standing).1.cloud ≡ "rtb-0" ∷ []
unfolding phase06_route_tables_down check_auth_or_die get_key set_key save_state collect_rtb_ids
    rtb_ids_of delete_rtbs disassociate_rtb disassociate_tables disassociate_each see_tables
    call_removing get set save save_run finish_save
main_left = refl
