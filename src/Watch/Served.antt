-- ===== src/Watch/Served.antt =====
-- pkg/bnk/watch.go: a route that is queued in watchOnce is resynced when the timer fires.
use awsbnkctl.Base.{
  ◌≡◌, refl, sym, ap, ◌∙◌, arith, inl, inr, ◌⊎◌, ℕ, ◌+◌, ◌≤◌, ◌<◌, String, Bool, true, false, ◌||◌,
  Option, none, some, List, [], ◌∷◌, is_empty, ltb, Bool-cases,
}
use awsbnkctl.Resync.{Unstructured, Api}
use awsbnkctl.Watch.{RouteKey, Index, contains_route, routes_at, service_key}
use awsbnkctl.Watch.Loop.{
  Event, fire, Watching, watch_start, on_slice, on_fire, arm, queue_routes, Step, changed, skipped,
  passed, fired, Runs, here, next,
}
use awsbnkctl.Watch.Keys.{contains_ltb, contains-queue_routes}
use awsbnkctl.Watch.Refines.{VisitsAll}

-- Whether a batch has the route.
abbrev pub served : List (List RouteKey) → RouteKey → Bool
served [] k = false
served (b ∷ bs) k = contains_route b k || served bs k

-- Something pending has an armed timer, which is due within the debounce.
abbrev IsArmed : ℕ → List RouteKey → Option ℕ → ℕ → Type 0
IsArmed debounce pending (some d) now = d ≤ now + debounce
IsArmed debounce pending none now = pending ≡ []

arm-IsArmed :
    (debounce now : ℕ) (old pending : List RouteKey) (o : Option ℕ)
    → IsArmed debounce old o now
    → IsArmed debounce pending (arm debounce now pending o) now
unfolding arm
arm-IsArmed debounce now old pending (some d) h = h
arm-IsArmed debounce now old [] none h = refl
arm-IsArmed debounce now old (rk ∷ rks) none h = omega arith

later-IsArmed :
    (debounce now n : ℕ) (pending : List RouteKey) (o : Option ℕ)
    → IsArmed debounce pending o now
    → IsArmed debounce pending o (now + n)
later-IsArmed debounce now n pending (some d) h = omega arith
later-IsArmed debounce now n pending none h = h

deadline_of :
    (debounce now : ℕ) (k : RouteKey) (pending : List RouteKey) (o : Option ℕ)
    → IsArmed debounce pending o now
    → contains_route pending k ≡ true
    → (d : ℕ) × (o ≡ some d) × (d ≤ now + debounce)
deadline_of debounce now k pending (some d) h c = (d, refl, h)
deadline_of debounce now k pending none h c =
    let wrong : false ≡ true = sym (ap (λ rs. contains_route rs k) h) ∙ c in absurd (cc)

module _ {S : Type 0} (api : Api S) (u : Unstructured) (dry : Bool)
    (visit : List RouteKey → List RouteKey) (index : Index) (debounce : ℕ) where
  abbrev Loops : Watching S → List Event → List (List RouteKey) → Watching S → Type 0
  Loops = Runs api u dry visit index debounce

  slice-IsArmed :
      (ns svc : String) (w : Watching S)
      → IsArmed debounce w.pending w.deadline w.now
      → let v = on_slice index debounce ns svc w in IsArmed debounce v.pending v.deadline v.now
  unfolding on_slice
  slice-IsArmed ns svc w h = elim (Bool-cases (is_empty svc)) [
    | inl e ↦ rw (e) h
    | inr e ↦ rw (e) (
        arm-IsArmed debounce w.now w.pending
          (queue_routes (routes_at index (service_key ns svc)) w.pending) w.deadline h)
  ]

  loop-IsArmed :
      {w v : Watching S} {es : List Event} {bs : List (List RouteKey)}
      → Loops w es bs v
      → IsArmed debounce w.pending w.deadline w.now
      → IsArmed debounce v.pending v.deadline v.now
  unfolding on_fire
  loop-IsArmed here h = h
  loop-IsArmed (next skipped r) h = loop-IsArmed r h
  loop-IsArmed {w = w} (next (passed n) r) h =
      loop-IsArmed r (later-IsArmed debounce w.now n w.pending w.deadline h)
  loop-IsArmed {w = w} (next (changed ns svc) r) h = loop-IsArmed r (slice-IsArmed ns svc w h)
  loop-IsArmed (next (fired d e late) r) h = loop-IsArmed r refl

  slice_keeps :
      (ns svc : String) (k : RouteKey) (d : ℕ) (w : Watching S)
      → contains_route w.pending k ≡ true
      → w.deadline ≡ some d
      → let v = on_slice index debounce ns svc w in
        (contains_route v.pending k ≡ true) × (v.deadline ≡ some d)
  unfolding on_slice arm
  slice_keeps ns svc k d w h e = elim (Bool-cases (is_empty svc)) [
    | inl empty ↦ rw (empty) (h, e)
    | inr named ↦
        let rks = routes_at index (service_key ns svc) in
        rw (named) (
          contains-queue_routes k rks w.pending h,
          ap (arm debounce w.now (queue_routes rks w.pending)) e,
        )
  ]

  contains_visited :
      VisitsAll visit
      → (k : RouteKey) (rs : List RouteKey) → contains_route (visit rs) k ≡ contains_route rs k
  contains_visited visits k rs =
      contains_ltb k (visit rs) ∙ ap (λ n. ltb 0 n) (visits rs k) ∙ sym (contains_ltb k rs)

  loop_serves :
      VisitsAll visit
      → {w v : Watching S} {es : List Event} {bs : List (List RouteKey)} (k : RouteKey) (d : ℕ)
      → Loops w es bs v
      → contains_route w.pending k ≡ true
      → w.deadline ≡ some d
      → (served bs k ≡ true) ⊎ ((contains_route v.pending k ≡ true) × (v.deadline ≡ some d))
  loop_serves visits k d here h e = inr (h, e)
  loop_serves visits k d (next skipped r) h e = loop_serves visits k d r h e
  loop_serves visits k d (next (passed n) r) h e = loop_serves visits k d r h e
  loop_serves visits {w = w} k d (next (changed ns svc) r) h e =
      let (still, same) = slice_keeps ns svc k d w h e in loop_serves visits k d r still same
  loop_serves visits {w = w} k d (next (fired d' e' late) r) h e =
      inl (rw (contains_visited visits k w.pending ∙ h) refl)

  can_fire :
      VisitsAll visit
      → (k : RouteKey) (d : ℕ) (v : Watching S) → contains_route v.pending k ≡ true
      → v.deadline ≡ some d
      → (v.now < d)
        ⊎ ((b : List RouteKey) × (x : Watching S) × Step api u dry visit index debounce v fire
              (b ∷ [])
              x
            × (contains_route b k ≡ true))
  can_fire visits k d v h e = elim (Bool-cases (ltb v.now d)) [
    | inl early ↦ inl (ground arith)
    | inr late ↦ inr (
      visit v.pending,
      on_fire api u dry visit index debounce v,
      fired d e (ground arith),
      contains_visited visits k v.pending ∙ h,
    )
  ]

  -- When the loop over the pending routes visits each of them once, a route that is pending in a state
  -- that the loop reaches has a deadline no later than the debounce from then, which no later event
  -- moves: after any further steps the route has been resynced, or the deadline has not come, or the
  -- timer can fire, with a batch that has the route.
  pub watch_serves :
      VisitsAll visit
      → (now : ℕ) (s : S) (w v : Watching S) (es fs : List Event) (bs cs : List (List RouteKey))
        (k : RouteKey)
      → Loops (watch_start now s) es bs w
      → contains_route w.pending k ≡ true
      → Loops w fs cs v
      → (d : ℕ) × (d ≤ w.now + debounce)
        × ((served cs k ≡ true)
            ⊎ ((v.now < d)
                ⊎ ((b : List RouteKey) × (x : Watching S) × Step api u dry visit index debounce v
                      fire
                      (b ∷ [])
                      x
                    × (contains_route b k ≡ true))))
  watch_serves visits now s w v es fs bs cs k before h after =
      let armed = loop-IsArmed before refl in
      let (d, e, soon) = deadline_of debounce w.now k w.pending w.deadline armed h in
      elim (loop_serves visits k d after h e) [
        | inl done ↦ (d, soon, inl done)
        | inr left ↦ (d, soon, inr (can_fire visits k d v left.0 left.1))
      ]
