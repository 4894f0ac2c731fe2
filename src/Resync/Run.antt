-- ===== src/Resync/Run.antt =====
-- pkg/bnk/resync.go: the two patches of a route, and the loop over the routes.
use awsbnkctl.Base.{
  String, Bool, true, false, Option, none, some, List, [], ◌∷◌, ◌++◌, length, null, if◌then◌else◌,
}
use awsbnkctl.Resync.{
  Json, Unstructured, Api, WeightEntry, ResyncOptions, ResyncedRoute, ResyncError, ResyncResult,
  ToggleError, forward_patch, cancelled, restore_patch, Failure, failed_routes, Targets, targets,
  untargeted, collect_weights, count_backend_refs, build_forward_patches, build_restore_patches,
}
use awsbnkctl.Resync.Targeting.{resolve_targets}

module _ {S : Type 0} (api : Api S) (u : Unstructured) where
  abbrev after_restore : Option String × S → Option ToggleError × S
  after_restore (none, s) = (some restore_patch, s)
  after_restore (some rv, s) = (none, s)

  abbrev after_wait : (ns name : String) → List WeightEntry → Bool × S → Option ToggleError × S
  after_wait ns name es (true, s) = (some cancelled, s)
  after_wait ns name es (false, s) =
      after_restore (api.patch_route ns name (build_restore_patches es) s)

  abbrev after_forward :
      (ns name : String) → List WeightEntry → Option String × S → Option ToggleError × S
  after_forward ns name es (none, s) = (some forward_patch, s)
  after_forward ns name es (some rv, s) = after_wait ns name es (api.reconcile_wait s)

  unfoldable pub toggle_weights : (ns name : String) → Json → S → Option ToggleError × S
  toggle_weights ns name route s =
      let es = collect_weights u route in
      if null (u.nested_slice route ("spec" ∷ "rules" ∷ []))
      then (none, s)
      else if null es
      then (none, s)
      else after_forward ns name es (api.patch_route ns name (build_forward_patches es) s)

  abbrev pub outcome : Bool → Json → ResyncedRoute
  outcome applied route = record {
    namespace = u.get_namespace route;
    name = u.get_name route;
    rules = count_backend_refs u route;
    applied = applied;
  }

  abbrev pub failure : ToggleError → Json → ResyncError
  failure e route = record { namespace = u.get_namespace route; name = u.get_name route; cause = e }

  abbrev pub record_outcome : Option ToggleError → Json → ResyncResult → ResyncResult
  record_outcome none route r = record r { resynced = r.resynced ++ (outcome true route ∷ []) }
  record_outcome (some e) route r = record r { errors = r.errors ++ (failure e route ∷ []) }

  unfoldable pub resync_loop : Bool → List Json → ResyncResult → S → ResyncResult × S
  unfolding toggle_weights
  resync_loop dry [] r s = (r, s)
  resync_loop true (route ∷ routes) r s =
      resync_loop true routes (record r { resynced = r.resynced ++ (outcome false route ∷ []) }) s
  resync_loop false (route ∷ routes) r s =
      let (e, s') = toggle_weights (u.get_namespace route) (u.get_name route) route s in
      resync_loop false routes (record_outcome e route r) s'

  abbrev with_failure : ResyncResult × S → ResyncResult × Option Failure × S
  with_failure (r, s) =
      (r, (if null r.errors then none else some (failed_routes (length r.errors))), s)

  abbrev pub no_result : ResyncResult
  no_result = record { resynced = []; errors = [] }

  abbrev pub resync_targets : Bool → Targets → S → ResyncResult × Option Failure × S
  resync_targets dry (untargeted e) s = (no_result, some e, s)
  resync_targets dry (targets routes) s = with_failure (resync_loop dry routes no_result s)

  unfoldable pub resync_http_routes : ResyncOptions → S → ResyncResult × Option Failure × S
  unfolding resync_loop
  resync_http_routes opts s = resync_targets opts.dry_run (resolve_targets u api opts s) s
