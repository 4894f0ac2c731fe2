-- ===== src/Phases/Subnets/Zones.antt =====
-- internal/aws/phases/phase03_subnets.go: resolveClusterAZs, from the answer of the API on. A zone that
-- is empty, "auto" or not available is replaced by one that is.
use Prim.Native.String
use Prim.Native.Nat.{lt, eq, gt}
use awsbnkctl.Base.{
  ℕ, suc, ◌%◌, String, Bool, true, false, ◌||◌, ◌&&◌, Option, none, some, List, [], ◌∷◌, length,
  take, get_or, contains, is_empty, not, null, str_eq, ltb, if◌then◌else◌,
}
use awsbnkctl.Intent.Schema.{Cluster, SubnetSpec, DataPathSpec}
use awsbnkctl.Phases.{Reply, reply, api_error, Zone}

-- `sort.Strings`: which sort it is does not matter, since equal texts cannot be told apart.
abbrev text_before : String → String → Bool
text_before a b = elim (String.compare a b) [ lt ↦ true | eq ↦ false | gt ↦ false ]

insert_text : String → List String → List String
insert_text a [] = a ∷ []
insert_text a (b ∷ bs) =
    let rest = insert_text a bs in if text_before b a then b ∷ rest else a ∷ b ∷ bs

unfoldable pub sort_strings : List String → List String
unfolding insert_text
sort_strings [] = []
sort_strings (a ∷ more) = insert_text a (sort_strings more)

abbrev is_other_type : Option String → Bool
is_other_type none = false
is_other_type (some t) = not (is_empty t) && not (str_eq t "availability-zone")

abbrev zone_of : Option String → Bool → List String → List String
zone_of none other rest = rest
zone_of (some z) other rest = if is_empty z then rest else if other then rest else z ∷ rest

unfoldable pub available_zones : List Zone → List String
available_zones [] = []
available_zones (z ∷ zs) = zone_of z.zone_name (is_other_type z.zone_type) (available_zones zs)

-- A zone of the file that cannot be kept.
abbrev pub is_open : List String → String → Bool
is_open avail az = is_empty az || str_eq az "auto" || not (contains avail az)

abbrev pub any_open : List String → List String → Bool
any_open avail [] = false
any_open avail (az ∷ azs) = is_open avail az || any_open avail azs

unfoldable pub active_zones : List String → List String → List String
active_zones avail azs =
    if null azs || any_open avail azs
    then (let wanted = if ltb (length azs) 2 then 2 else length azs in
        take (if ltb (length avail) wanted then length avail else wanted) avail)
    else azs

unfoldable pub place_subnets : List String → List String → ℕ → List SubnetSpec → List SubnetSpec
place_subnets avail azs i [] = []
place_subnets avail azs i (s ∷ ss) =
    (if is_open avail s.az then record s { az = get_or azs (i % length azs) "" } else s)
    ∷ place_subnets avail azs (suc i) ss

abbrev pub place_side : List String → List String → SubnetSpec → SubnetSpec
place_side avail azs s =
    if is_empty s.cidr
    then s
    else if is_open avail s.az
    then record s { az = get_or azs 0 "" }
    else s

abbrev pub place_path : List String → List String → Option DataPathSpec → Option DataPathSpec
place_path avail azs none = none
place_path avail azs (some dp) = some (record dp {
  external = place_side avail azs dp.external;
  internal = place_side avail azs dp.internal;
})

unfoldable pub place_cluster : List String → List String → Cluster → Cluster
unfolding place_subnets
place_cluster avail azs cl = record cl {
  network = record cl.network {
    azs = azs;
    subnets = record {
      public = place_subnets avail azs 0 cl.network.subnets.public;
      private = place_subnets avail azs 0 cl.network.subnets.private;
    };
    data_path = place_path avail azs cl.network.data_path;
  };
}

abbrev pub resolved_from : List String → Cluster → Cluster
resolved_from avail cl =
    if null avail then cl else place_cluster avail (active_zones avail cl.network.azs) cl

unfoldable pub resolve_zones : Reply (List Zone) → Cluster → Cluster
unfolding available_zones sort_strings active_zones place_cluster
resolve_zones (api_error code) cl = cl
resolve_zones (reply zones) cl = resolved_from (sort_strings (available_zones zones)) cl
