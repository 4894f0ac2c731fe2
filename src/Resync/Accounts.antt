-- ===== src/Resync/Accounts.antt =====
-- pkg/bnk/resync.go: what a run reports for the routes that it visits.
use awsbnkctl.Base.{
  ℕ, ◌+◌, ◌≡◌, refl, ◌∙◌, ap, arith, Bool, true, false, Option, none, some, List, [], ◌∷◌, ◌++◌,
  length, null, not, All, All-append, String, if◌then◌else◌, ◌↔◌,
}
use awsbnkctl.Resync.{
  Json, Unstructured, Api, ResyncOptions, ResyncError, ResyncedRoute, ResyncResult, ToggleError,
  failed_routes, untargeted, Targets, targets,
}
use awsbnkctl.Resync.Targeting.{resolve_targets}
use awsbnkctl.Resync.Run.{
  toggle_weights, outcome, failure, record_outcome, resync_loop, no_result, resync_targets,
  resync_http_routes,
}

-- How many elements pass a test.
abbrev pub count {ℓ} : {A : Type ℓ} → (A → Bool) → List A → ℕ
count f [] = 0
count f (x ∷ xs) = (if f x then 1 else 0) + count f xs

count-append {ℓ} :
    {A : Type ℓ} (f : A → Bool) (xs : List A) (x : A)
    → count f (xs ++ (x ∷ [])) ≡ count f xs + (if f x then 1 else 0)
count-append f [] x = omega arith
count-append f (y ∷ ys) x = omega (arith, count-append f ys x)

-- How many entries of a result name a route that passes a test on the namespace and the name.
abbrev pub reported : (String → String → Bool) → ResyncResult → ℕ
reported p r =
    count (λ o. p o.namespace o.name) r.resynced + count (λ e. p e.namespace e.name) r.errors

module _ {S : Type 0} (api : Api S) (u : Unstructured) where
  -- How many of the routes pass it.
  abbrev pub named : (String → String → Bool) → List Json → ℕ
  named p = count (λ route. p (u.get_namespace route) (u.get_name route))

  record_outcome_reports :
      (p : String → String → Bool) (e : Option ToggleError) (route : Json) (r : ResyncResult)
      → reported p (record_outcome api u e route r)
        ≡ (if p (u.get_namespace route) (u.get_name route) then 1 else 0) + reported p r
  record_outcome_reports p none route r =
      rw (count-append (λ o. p o.namespace o.name) r.resynced (outcome api u true route))
        (omega arith)
  record_outcome_reports p (some e) route r =
      rw (count-append (λ x. p x.namespace x.name) r.errors (failure api u e route)) (omega arith)

  loop_reports :
      (p : String → String → Bool) (dry : Bool) (routes : List Json) (r : ResyncResult) (s : S)
      → reported p ((resync_loop api u dry routes r s).0) ≡ named p routes + reported p r
  unfolding resync_loop
  loop_reports p dry [] r s = omega arith
  loop_reports p true (route ∷ routes) r s =
      let out = outcome api u false route in
      let counted = count-append (λ o. p o.namespace o.name) r.resynced out in
      loop_reports p true routes (record r { resynced = r.resynced ++ (out ∷ []) }) s
      ∙ rw counted (omega arith)
  loop_reports p false (route ∷ routes) r s =
      let t = toggle_weights api u (u.get_namespace route) (u.get_name route) route s in
      loop_reports p false routes (record_outcome api u t.0 route r) t.1
      ∙ rw (record_outcome_reports p t.0 route r) (omega arith)

  -- A route that is reported as resynced was patched, unless the run is dry.
  abbrev pub IsApplied : Bool → ResyncedRoute → Type 0
  IsApplied dry o = o.applied ≡ not dry

  record_outcome-IsApplied :
      (e : Option ToggleError) (route : Json) (r : ResyncResult)
      → All (IsApplied false) r.resynced
      → All (IsApplied false) (record_outcome api u e route r).resynced
  record_outcome-IsApplied none route r h =
      All-append (IsApplied false) r.resynced (outcome api u true route ∷ []) h (refl, tt)
  record_outcome-IsApplied (some e) route r h = h

  loop-IsApplied :
      (dry : Bool) (routes : List Json) (r : ResyncResult) (s : S)
      → All (IsApplied dry) r.resynced
      → All (IsApplied dry) ((resync_loop api u dry routes r s).0).resynced
  unfolding resync_loop
  loop-IsApplied dry [] r s h = h
  loop-IsApplied true (route ∷ routes) r s h =
      let out = outcome api u false route in
      loop-IsApplied true routes (record r { resynced = r.resynced ++ (out ∷ []) }) s
        (All-append (IsApplied true) r.resynced (out ∷ []) h (refl, tt))
  loop-IsApplied false (route ∷ routes) r s h =
      let t = toggle_weights api u (u.get_namespace route) (u.get_name route) route s in
      loop-IsApplied false routes (record_outcome api u t.0 route r) t.1
        (record_outcome-IsApplied t.0 route r h)

  dry_loop :
      (routes : List Json) (r : ResyncResult) (s : S)
      → ((resync_loop api u true routes r s).1 ≡ s)
        × ((resync_loop api u true routes r s).0.errors ≡ r.errors)
  unfolding resync_loop
  dry_loop [] r s = (refl, refl)
  dry_loop (route ∷ routes) r s =
      dry_loop routes (record r { resynced = r.resynced ++ (outcome api u false route ∷ []) }) s

  dry_targets :
      (dry : Bool) (t : Targets) (s : S)
      → dry ≡ true
      → ((resync_targets api u dry t s).2 ≡ s) × ((resync_targets api u dry t s).0.errors ≡ [])
  dry_targets dry (untargeted e) s h = (refl, refl)
  dry_targets dry (targets routes) s h = rw h (dry_loop routes (no_result api u) s)

  failed_iff :
      (es : List ResyncError)
      → ((if null es then none else some (failed_routes (length es))) ≡ none) ↔ (es ≡ [])
  failed_iff [] = (λ h. refl, λ h. refl)
  failed_iff (e ∷ es) = (λ h. cc, λ h. let bad : null (e ∷ es) ≡ true = ap null h in cc)

  -- When the targets are found, the result names each target as often as it is among the targets,
  -- under its namespace and name, be it as resynced or as an error, and no other route; a route is
  -- marked as applied unless the run is dry; and the run reports a failure if and only if a route
  -- is among the errors.
  pub resync_accounts :
      (opts : ResyncOptions) (s : S) (routes : List Json)
      → resolve_targets u api opts s ≡ targets routes
      → ((p : String → String → Bool)
          → reported p ((resync_http_routes api u opts s).0) ≡ named p routes)
        × All (IsApplied opts.dry_run) ((resync_http_routes api u opts s).0).resynced
        × (((resync_http_routes api u opts s).1 ≡ none)
            ↔ ((resync_http_routes api u opts s).0.errors ≡ []))
  unfolding resync_http_routes
  resync_accounts opts s routes e = rw e (
    λ p. loop_reports p opts.dry_run routes (no_result api u) s ∙ omega arith,
    loop-IsApplied opts.dry_run routes (no_result api u) s tt,
    failed_iff (resync_loop api u opts.dry_run routes (no_result api u) s).0.errors,
  )

  -- A dry run leaves the cluster as it was, and no route is among its errors.
  pub resync_dry_run :
      (opts : ResyncOptions) (s : S)
      → opts.dry_run ≡ true
      → ((resync_http_routes api u opts s).2 ≡ s)
        × ((resync_http_routes api u opts s).0.errors ≡ [])
  unfolding resync_http_routes
  resync_dry_run opts s dry = dry_targets opts.dry_run (resolve_targets u api opts s) s dry
