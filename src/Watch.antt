-- ===== src/Watch.antt =====
-- pkg/bnk/watch.go: the routes behind each backend service, and the loop that resyncs the routes of a
-- service whose endpoints change. What a select of the loop takes next is an event.
pub mod Loop
pub mod Rounds
pub mod Keys
pub mod Indexed
pub mod Refines
pub mod Served
pub mod Backoff
use Prim.Native.String
use awsbnkctl.Base.{
  String, Bool, true, false, not, ◌&&◌, ◌||◌, Option, none, some, List, [], ◌∷◌, ◌++◌, lookup,
  insert, is_empty, str_eq, if◌then◌else◌,
}
use awsbnkctl.Resync.{
  Json, text, object, Fields, Unstructured, Api, ResyncOptions, Failure, Targets, targets,
  untargeted, field_value, slice_of,
}
use awsbnkctl.Resync.Targeting.{resolve_targets}

pub record RouteKey : Type 0 where
  pub ns : String
  pub name : String

-- `r == rk`
abbrev pub same_route : RouteKey → RouteKey → Bool
same_route r k = str_eq r.ns k.ns && str_eq r.name k.name

abbrev pub contains_route : List RouteKey → RouteKey → Bool
contains_route [] k = false
contains_route (r ∷ rs) k = same_route r k || contains_route rs k

abbrev pub Index : Type 0
Index = List (String × List RouteKey)

abbrev pub or_no_routes : Option (List RouteKey) → List RouteKey
or_no_routes none = []
or_no_routes (some rs) = rs

-- `index[key]`
abbrev pub routes_at : Index → String → List RouteKey
routes_at index key = or_no_routes (lookup key index)

-- `s, _ := v.(string)`
abbrev pub text_or_empty : Option Json → String
text_or_empty (some (text s)) = s
text_or_empty other = ""

abbrev pub service_key : String → String → String
service_key ns name = String.◌++◌ ns (String.◌++◌ "/" name)

-- The service that a reference of a route in a namespace names.
unfoldable pub service_of : String → Fields → Option String
unfolding field_value
service_of route_ns b =
    let kind = text_or_empty (field_value "kind" b) in
    let name = text_or_empty (field_value "name" b) in
    let ns = text_or_empty (field_value "namespace" b) in
    if not (is_empty kind) && not (str_eq kind "Service")
    then none
    else if is_empty name
    then none
    else some (service_key (if is_empty ns then route_ns else ns) name)

unfoldable pub add_route : Option String → RouteKey → Index → Index
add_route none rk index = index
add_route (some key) rk index =
    if contains_route (routes_at index key) rk
    then index
    else insert key (routes_at index key ++ (rk ∷ [])) index

unfoldable pub index_refs : RouteKey → List Json → Index → Index
unfolding add_route service_of
index_refs rk [] index = index
index_refs rk (object b ∷ refs) index = index_refs rk refs (add_route (service_of rk.ns b) rk index)
index_refs rk (other ∷ refs) index = index_refs rk refs index

unfoldable pub index_rules : RouteKey → List Json → Index → Index
unfolding index_refs slice_of field_value
index_rules rk [] index = index
index_rules rk (object r ∷ rules) index =
    index_rules rk rules (index_refs rk (slice_of (field_value "backendRefs" r)) index)
index_rules rk (other ∷ rules) index = index_rules rk rules index

pub data Indexing : Type 0 where
  indexed : Index → Indexing
  unindexed : Failure → Indexing

module _ (u : Unstructured) where
  abbrev pub route_key : Json → RouteKey
  route_key route = record { ns = u.get_namespace route; name = u.get_name route }

  abbrev pub rules_of : Json → List Json
  rules_of route = u.nested_slice route ("spec" ∷ "rules" ∷ [])

  unfoldable pub index_routes : List Json → Index → Index
  unfolding index_rules
  index_routes [] index = index
  index_routes (route ∷ routes) index =
      index_routes routes (index_rules (route_key route) (rules_of route) index)

  abbrev index_targets : Targets → Indexing
  index_targets (untargeted e) = unindexed e
  index_targets (targets routes) = indexed (index_routes routes [])

  unfoldable pub build_service_index : {S : Type 0} → Api S → ResyncOptions → S → Indexing
  unfolding index_routes
  build_service_index api opts s = index_targets (resolve_targets u api opts s)
