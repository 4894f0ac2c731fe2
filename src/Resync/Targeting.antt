-- ===== src/Resync/Targeting.antt =====
-- pkg/bnk/resync.go: the routes that are asked for.
use Prim.Native.String
use awsbnkctl.Base.{
  String, Bool, false, ◌||◌, Option, none, some, List, [], ◌∷◌, is_empty, not, str_eq, null,
  if◌then◌else◌, or_else,
}
use awsbnkctl.Resync.{
  Json, object, Unstructured, Api, ResyncOptions, getting, listing_routes, listing_gateways,
  nothing_selected, Targets, targets, untargeted,
}

abbrev key_of : String → String → String
key_of ns name = String.◌++◌ ns (String.◌++◌ "/" name)

-- A map to true, as the list of its keys.
abbrev has_gateway_key : List String → String → Bool
has_gateway_key [] k = false
has_gateway_key (j ∷ js) k = str_eq j k || has_gateway_key js k

module _ (u : Unstructured) where
  unfoldable pub gateway_keys : String → List Json → List String
  gateway_keys class [] = []
  gateway_keys class (gw ∷ gws) =
      if str_eq (u.nested_string gw ("spec" ∷ "gatewayClassName" ∷ [])) class
      then key_of (u.get_namespace gw) (u.get_name gw) ∷ gateway_keys class gws
      else gateway_keys class gws

  unfoldable pub has_parent_in : List String → String → List Json → Bool
  unfolding or_else
  has_parent_in keys own [] = false
  has_parent_in keys own (object p ∷ ps) =
      has_gateway_key keys (
        key_of (or_else (u.nested_string (object p) ("namespace" ∷ [])) own)
          (u.nested_string (object p) ("name" ∷ [])))
      || has_parent_in keys own ps
  has_parent_in keys own (other ∷ ps) = has_parent_in keys own ps

  unfoldable pub routes_below : List String → List Json → List Json
  routes_below keys [] = []
  routes_below keys (hr ∷ hrs) =
      if has_parent_in keys (u.get_namespace hr) (u.nested_slice hr ("spec" ∷ "parentRefs" ∷ []))
      then hr ∷ routes_below keys hrs
      else routes_below keys hrs

  module _ {S : Type 0} (api : Api S) where
    abbrev listed_below : List String → Option (List Json) → Targets
    listed_below keys none = untargeted listing_routes
    listed_below keys (some hrs) = targets (routes_below keys hrs)

    abbrev class_targets : String → Option (List Json) → S → Targets
    class_targets class none s = untargeted listing_gateways
    class_targets class (some gws) s =
        let keys = gateway_keys class gws in
        if null keys then targets [] else listed_below keys (api.list_routes "" s)

    unfoldable pub routes_for_gateway_class : String → S → Targets
    routes_for_gateway_class class s = class_targets class (api.list_gateways s) s

    abbrev named_target : Option Json → Targets
    named_target none = untargeted getting
    named_target (some route) = targets (route ∷ [])

    abbrev listed_targets : Option (List Json) → Targets
    listed_targets none = untargeted listing_routes
    listed_targets (some routes) = targets routes

    unfoldable pub resolve_targets : ResyncOptions → S → Targets
    unfolding routes_for_gateway_class
    resolve_targets opts s =
        if not (is_empty opts.name)
        then named_target (api.get_route opts.namespace opts.name s)
        else if opts.all_in_namespace
        then listed_targets (api.list_routes opts.namespace s)
        else if not (is_empty opts.gateway_class)
        then routes_for_gateway_class opts.gateway_class s
        else untargeted nothing_selected
