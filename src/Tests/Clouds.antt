-- ===== src/Tests/Clouds.antt =====
-- The network's phases on a small cloud: a clock, and the cluster that its VPC is tagged with.
use awsbnkctl.Base.{
  ℕ, ◌+◌, ◌≡◌, refl, sym, ap, arith, String, true, false, ◌⊎◌, Option, none, some, List, [], ◌∷◌,
  all, contains, lookup, is_empty, str_eq, eq_iff, if◌then◌else◌,
}
use awsbnkctl.Tags.{Filter, key_cluster, cluster_filter, filter_for}
use awsbnkctl.Cache.{missing, save, save_run, finish_save, set}
use awsbnkctl.Samples.{demo_cluster}
use awsbnkctl.Tests.Caches.{network_ids, good_disk, at_noon}
use awsbnkctl.Phases.{
  Aws, World, ok, err, missing_key, Reply, reply, api_error, Zone, call, set_key, check_auth_or_die,
  save_state,
}
use awsbnkctl.Phases.Vpc.{phase02_vpc, create_vpc_of, find_vpc_by_tag, find_vpcs_by_tag}
use awsbnkctl.Phases.Subnets.{phase03_subnets}
use awsbnkctl.Phases.Subnets.Zones.{resolve_zones, sort_strings, available_zones}
use awsbnkctl.Phases.Subnets.Placed.{stands_in, path_stands_in, resolve_zones_available}
use awsbnkctl.Phases.Gateway.{phase04_igw}
use awsbnkctl.Phases.Nat.{five_minutes, ten_minutes, phase05_nat, phase05_nat_down, release_eip}
use awsbnkctl.Phases.Polling.{wait_nat_available, wait_nat_deleted, wait_eip_unassociated}
use awsbnkctl.Phases.Safe.{outside}
use awsbnkctl.Phases.DryRun.{phases_dry_run}
use awsbnkctl.Phases.Failures.Network.{phases_fail_safely}
use awsbnkctl.Phases.Deadlines.{KeepsTime, is_unfinished, waits_end}
use awsbnkctl.Phases.Rerun.{ListsVpcs}
use awsbnkctl.Phases.Again.{IsRepeatable, phase02_vpc_again}
use awsbnkctl.Phases.Released.{IsReleased, release_eip_unused}

abbrev Lab : Type 0
Lab = ℕ × Option String

abbrev first_value : List Filter → String
first_value [] = ""
first_value (f ∷ fs) = first_text f.values
  where
    first_text : List String → String
    first_text [] = ""
    first_text (v ∷ vs) = v

abbrev listed_vpcs : String → Option String → List (Option String)
listed_vpcs name none = []
listed_vpcs name (some n) = if str_eq n name then some "vpc-1" ∷ [] else []

abbrev two_zones : List Zone
two_zones =
    record { zone_name = some "ap-southeast-2b"; zone_type = none }
    ∷ record { zone_name = some "ap-southeast-2a"; zone_type = some "availability-zone" }
    ∷ record { zone_name = some "ap-southeast-2-per-1a"; zone_type = some "local-zone" }
    ∷ []

abbrev lab : Aws Lab
lab = record {
  authenticated = true;
  clock = λ s. s.0;
  stamp = λ s. at_noon;
  sleep = λ n s. (false, (s.0 + n, s.1));
  tag_order = λ m. m;
  entry_order = λ m. m;
  disk = good_disk;
  describe_vpcs = λ fs s. (reply (listed_vpcs (first_value fs) s.1), s);
  create_vpc = λ cidr tags s. (reply "vpc-1", (s.0, lookup key_cluster tags));
  modify_vpc_attribute = λ id a s. (reply tt, s);
  describe_internet_gateways = λ fs s. (reply [], s);
  create_internet_gateway = λ tags s. (reply "igw-1", s);
  attach_internet_gateway = λ igw vpc s. (reply tt, s);
  describe_availability_zones = λ fs s. (reply two_zones, s);
  describe_subnets = λ fs s. (reply [], s);
  create_subnet = λ vpc cidr az tags s. (reply "subnet-1", s);
  modify_subnet_attribute = λ id s. (reply tt, s);
  describe_addresses = λ fs s. (reply [], s);
  describe_address = λ id s. (reply [], s);
  allocate_address = λ tags s. (reply "eip-1", s);
  release_address = λ id s. (reply tt, s);
  describe_nat_gateways = λ fs s. (reply [], s);
  describe_nat_gateway = λ id s. (reply (record { nat_id = id; nat_state = "pending" } ∷ []), s);
  create_nat_gateway = λ subnet eip tags s. (reply "nat-1", s);
  delete_nat_gateway = λ id s. (reply tt, s);
}

abbrev fresh : World Lab
fresh = record {
  cloud = (0, none);
  cluster = demo_cluster;
  cache = network_ids;
  file = missing;
  temp = missing;
}

abbrev id_or : String → Reply String → String
id_or d (reply id) = id
id_or d (api_error code) = d

same_id : (id : String) → reply "vpc-1" ≡ reply id → "vpc-1" ≡ id
same_id id made = ap (id_or "") made

lab_lists : ListsVpcs lab
unfolding cluster_filter filter_for
lab_lists = record {
  listing = λ fs s. refl;
  created = λ name cidr id tags out s e gone tag made.
      rw (tag, (eq_iff name name).1 refl) (ap (λ i. reply (some i ∷ [])) (same_id id made));
  named = λ cidr id tags s made. ap is_empty (sym (same_id id made));
  modified = λ id a fs s. refl;
}

lab_time : KeepsTime lab
lab_time = record {
  nat_time = λ id s. omega arith;
  address_time = λ id s. omega arith;
  sleep_time = λ n s. omega arith;
}

waits_end_example :
    (is_unfinished (wait_nat_available lab five_minutes "nat-1" (7, none)).0 ≡ false)
    × (is_unfinished (wait_nat_deleted lab ten_minutes "nat-1" (7, none)).0 ≡ false)
    × (is_unfinished (wait_eip_unassociated lab five_minutes "nat-1" (7, none)).0 ≡ false)
waits_end_example = waits_end lab lab_time "nat-1" (7, none)

phases_dry_run_example :
    (outside (phase02_vpc lab true fresh).1 ≡ outside fresh)
    × (outside (phase03_subnets lab true fresh).1 ≡ outside fresh)
    × (outside (phase04_igw lab true fresh).1 ≡ outside fresh)
    × (outside (phase05_nat lab true fresh).1 ≡ outside fresh)
phases_dry_run_example = phases_dry_run lab fresh

phases_fail_safely_example :
    ((phase02_vpc lab false fresh).0 ≡ err (missing_key "PUBLIC_SUBNETS")
      → (phase02_vpc lab false fresh).1.file ≡ missing)
    × ((phase03_subnets lab false fresh).0 ≡ err (missing_key "PUBLIC_SUBNETS")
        → (phase03_subnets lab false fresh).1.file ≡ missing)
    × ((phase04_igw lab false fresh).0 ≡ err (missing_key "PUBLIC_SUBNETS")
        → (phase04_igw lab false fresh).1.file ≡ missing)
    × ((phase05_nat lab false fresh).0 ≡ err (missing_key "PUBLIC_SUBNETS")
        → (phase05_nat lab false fresh).1.file ≡ missing)
    × ((phase05_nat_down lab fresh).0 ≡ err (missing_key "PUBLIC_SUBNETS")
        → (phase05_nat_down lab fresh).1.file ≡ missing)
phases_fail_safely_example = phases_fail_safely lab false fresh (missing_key "PUBLIC_SUBNETS")

first_run : (phase02_vpc lab false fresh).0 ≡ ok tt
unfolding phase02_vpc create_vpc_of find_vpc_by_tag find_vpcs_by_tag call set_key save_state
    check_auth_or_die save save_run finish_save set
first_run = refl

phase02_vpc_again_example : IsRepeatable lab (phase02_vpc lab false fresh).1
phase02_vpc_again_example =
    phase02_vpc_again lab fresh lab_lists ((λ key m. refl), (tt, (tt, tt)), (refl, (refl, tt)))
      first_run

release_eip_unused_example :
    ((release_eip lab "eip-1" fresh).1.cloud
      ≡ (wait_eip_unassociated lab five_minutes "eip-1" fresh.cloud).1)
    ⊎ IsReleased lab "eip-1" (release_eip lab "eip-1" fresh).1.cloud
release_eip_unused_example = release_eip_unused lab "eip-1" fresh refl

resolve_zones_available_example :
    (all
        (contains (sort_strings (available_zones two_zones)))
        (resolve_zones (reply two_zones) demo_cluster).network.azs
      ≡ true)
    × (all
          (stands_in (sort_strings (available_zones two_zones)))
          (resolve_zones (reply two_zones) demo_cluster).network.subnets.public
        ≡ true)
    × (all
          (stands_in (sort_strings (available_zones two_zones)))
          (resolve_zones (reply two_zones) demo_cluster).network.subnets.private
        ≡ true)
    × (path_stands_in
          (sort_strings (available_zones two_zones))
          (resolve_zones (reply two_zones) demo_cluster).network.data_path
        ≡ true)
unfolding sort_strings available_zones
resolve_zones_available_example = resolve_zones_available two_zones demo_cluster refl
