-- ===== src/Resync/Toggle.antt =====
-- pkg/bnk/resync.go: what toggleWeights leaves behind.
use awsbnkctl.Base.{
  ◌≡◌, refl, ◌∙◌, String, true, false, none, some, List, [], ◌∷◌, All, inl, inr, Bool-cases, null,
}
use awsbnkctl.Resync.{
  Json, Unstructured, Api, PatchOp, cancelled, restore_patch, collect_weights,
  build_forward_patches, build_restore_patches,
}
use awsbnkctl.Resync.Collected.{collect_weights-AreApart}
use awsbnkctl.Resync.Server.{
  Patching, FollowsRfc, apply_ops, IsCurrent, raised, forward_raised, restore_raised,
}
use awsbnkctl.Resync.Refusal.{HasEdited, HasEdited-null, restore_refused}
use awsbnkctl.Resync.Run.{toggle_weights}

module _ {S Doc : Type 0} (api : Api S) (p : Patching Doc) (document : S → Doc)
    (ns name : String) where
  -- A patch of the route changes its document as a whole, or it is an error and changes nothing.
  pub record Serves : Type 0 where
    pub applied :
        (ops : List PatchOp) (s : S) (d : Doc)
        → apply_ops p ops (document s) ≡ some d
        → (rv : String) × (s' : S) × (api.patch_route ns name ops s ≡ (some rv, s'))
          × (document s' ≡ d)
    pub rejected :
        (ops : List PatchOp) (s : S)
        → apply_ops p ops (document s) ≡ none
        → (s' : S) × (api.patch_route ns name ops s ≡ (none, s')) × (document s' ≡ document s)

  -- After the wait the context is not done, and nobody has changed the route.
  abbrev pub IsQuiet : Type 0
  IsQuiet =
      (s : S)
      → ((api.reconcile_wait s).0 ≡ false) × (document (api.reconcile_wait s).1 ≡ document s)

  module _ (u : Unstructured) (route : Json) where
    -- When the server follows RFC 6902 and still has each weight that was read, and nobody else
    -- changes the route during the wait, toggleWeights reports no error and leaves the document
    -- of the route as it found it.
    pub toggle_weights_restores :
        FollowsRfc p
        → Serves
        → IsQuiet
        → (s : S) → All (IsCurrent p (document s)) (collect_weights u route)
        → ((toggle_weights api u ns name route s).0 ≡ none)
          × (document (toggle_weights api u ns name route s).1 ≡ document s)
    unfolding toggle_weights
    toggle_weights_restores rfc serves quiet s now =
        elim (Bool-cases (null (u.nested_slice route ("spec" ∷ "rules" ∷ [])))) [
          | inl e ↦ rw e (refl, refl)
          | inr n ↦ elim (Bool-cases (null (collect_weights u route))) [
            | inl e ↦ rw (n, e) (refl, refl)
            | inr m ↦
                let es = collect_weights u route in
                let apart = collect_weights-AreApart u route in
                let (rv, s1, sent, up) =
                  serves.applied (build_forward_patches es) s (raised p es (document s))
                    (forward_raised p rfc es (document s) apart now) in
                let (going, calm) = quiet s1 in
                let (rv2, s2, sent2, down) =
                  serves.applied (build_restore_patches es) (api.reconcile_wait s1).1 (document s)
                    (rw (calm, up) (restore_raised p rfc es (document s) apart now)) in
                rw (n, m, sent, going, sent2) (refl, down)
          ]
        ]

    -- When the server follows RFC 6902 and still has each weight that was read, the route has
    -- backends, and the context ends during the wait, toggleWeights reports it and every weight of
    -- the document stays raised by one.
    pub toggle_weights_interrupted :
        FollowsRfc p
        → Serves
        → ((s : S)
            → ((api.reconcile_wait s).0 ≡ true) × (document (api.reconcile_wait s).1 ≡ document s))
        → (s : S) → All (IsCurrent p (document s)) (collect_weights u route)
        → null (u.nested_slice route ("spec" ∷ "rules" ∷ [])) ≡ false
        → null (collect_weights u route) ≡ false
        → ((toggle_weights api u ns name route s).0 ≡ some cancelled)
          × (document (toggle_weights api u ns name route s).1
              ≡ raised p (collect_weights u route) (document s))
    unfolding toggle_weights
    toggle_weights_interrupted rfc serves ends s now n m =
        let es = collect_weights u route in
        let apart = collect_weights-AreApart u route in
        let (rv, s1, sent, up) =
          serves.applied (build_forward_patches es) s (raised p es (document s))
            (forward_raised p rfc es (document s) apart now) in
        let (over, calm) = ends s1 in rw (n, m, sent, over) (refl, calm ∙ up)

    -- When the server follows RFC 6902 and still has each weight that was read, and during the wait
    -- somebody gives a weight of the route another value than the raised one, toggleWeights reports
    -- that the restoring patch failed and leaves the document as it is after that change.
    pub toggle_weights_respects :
        FollowsRfc p
        → Serves
        → ((s : S) → (api.reconcile_wait s).0 ≡ false)
        → (s : S) → All (IsCurrent p (document s)) (collect_weights u route)
        → null (u.nested_slice route ("spec" ∷ "rules" ∷ [])) ≡ false
        → ((s1 : S)
            → document s1 ≡ raised p (collect_weights u route) (document s)
            → HasEdited p (document (api.reconcile_wait s1).1) (collect_weights u route))
        → (s1 : S) × (document s1 ≡ raised p (collect_weights u route) (document s))
          × ((toggle_weights api u ns name route s).0 ≡ some restore_patch)
          × (document (toggle_weights api u ns name route s).1 ≡ document (api.reconcile_wait s1).1)
    unfolding toggle_weights
    toggle_weights_respects rfc serves goes s now n edits =
        let es = collect_weights u route in
        let apart = collect_weights-AreApart u route in
        let (rv, s1, sent, up) =
          serves.applied (build_forward_patches es) s (raised p es (document s))
            (forward_raised p rfc es (document s) apart now) in
        let changed = edits s1 up in
        let (s2, sent2, same) =
          serves.rejected (build_restore_patches es) (api.reconcile_wait s1).1
            (restore_refused p rfc es (document (api.reconcile_wait s1).1) apart changed) in
        let filled = HasEdited-null p (document (api.reconcile_wait s1).1) es changed in
        (
          s1,
          up,
          rw (n, filled, sent, goes s1, sent2) refl,
          rw (n, filled, sent, goes s1, sent2) same,
        )
