-- ===== src/Watch/Refines.antt =====
-- pkg/bnk/watch.go: watchOnce against a machine that keeps the set of the routes to resync.
use awsbnkctl.Base.{
  ◌≡◌, refl, sym, ap, ◌∙◌, inl, inr, ℕ, String, Bool, true, false, not, ◌||◌, ◌&&◌, List, [], ◌∷◌,
  is_empty, Bool-cases, if◌then◌else◌,
}
use awsbnkctl.Resync.{Unstructured, Api}
use awsbnkctl.Watch.{RouteKey, Index, contains_route, routes_at, service_key}
use awsbnkctl.Watch.Loop.{
  Event, slice, other_object, fire, elapse, Watching, watch_start, on_slice, on_fire, resync_batch,
  changed, skipped, passed, fired, Runs, here, next,
}
use awsbnkctl.Watch.Keys.{RouteSet, Matches, count_route, queue_routes-Matches, or_false}

-- The order in which a map is visited has every route as often as the map.
abbrev pub VisitsAll : (List RouteKey → List RouteKey) → Type 0
VisitsAll visit = (rs : List RouteKey) (k : RouteKey) → count_route k (visit rs) ≡ count_route k rs

abbrev pub no_routes : RouteSet
no_routes k = false

-- The routes to resync when the endpoints of a service have changed.
abbrev pub touch : Index → (ns svc : String) → RouteSet → RouteSet
touch index ns svc f k =
    f k || not (is_empty svc) && contains_route (routes_at index (service_key ns svc)) k

abbrev put_set : RouteSet → List RouteSet × RouteSet → List RouteSet × RouteSet
put_set f (fs, g) = (f ∷ fs, g)

-- The machine with sets: the sets that it resyncs, and the set that is left.
pub replay : Index → List Event → RouteSet → List RouteSet × RouteSet
replay index [] f = ([], f)
replay index (slice ns svc ∷ es) f = replay index es (touch index ns svc f)
replay index (other_object ∷ es) f = replay index es f
replay index (elapse n ∷ es) f = replay index es f
replay index (fire ∷ es) f = put_set f (replay index es no_routes)

-- Each batch has every route of its set once, and no other.
abbrev pub AllMatch : List (List RouteKey) → List RouteSet → Type 0
AllMatch [] [] = Unit
AllMatch (b ∷ bs) (f ∷ fs) = Matches b f × AllMatch bs fs
AllMatch bs fs = true ≡ false

module _ {S : Type 0} (api : Api S) (u : Unstructured) (dry : Bool)
    (visit : List RouteKey → List RouteKey) (index : Index) (debounce : ℕ) where
  pub resync_batches : List (List RouteKey) → S → S
  resync_batches [] s = s
  resync_batches (b ∷ bs) s = resync_batches bs (resync_batch api u dry b s)

  slice-Matches :
      (ns svc : String) (w : Watching S) (f : RouteSet)
      → Matches w.pending f
      → Matches (on_slice index debounce ns svc w).pending (touch index ns svc f)
  unfolding on_slice
  slice-Matches ns svc w f h k = elim (Bool-cases (is_empty svc)) [
    | inl e ↦ rw (e) (h k ∙ ap (λ b. if b then 1 else 0) (sym (or_false (f k))))
    | inr e ↦ rw (e) (queue_routes-Matches (routes_at index (service_key ns svc)) w.pending f h k)
  ]

  slice_world :
      (ns svc : String) (w : Watching S) → (on_slice index debounce ns svc w).world ≡ w.world
  unfolding on_slice
  slice_world ns svc w = elim (Bool-cases (is_empty svc)) [
    | inl e ↦ rw (e) refl
    | inr e ↦ rw (e) refl
  ]

  loop_refines :
      VisitsAll visit
      → {w v : Watching S} {es : List Event} {bs : List (List RouteKey)} (f : RouteSet)
      → Runs api u dry visit index debounce w es bs v
      → Matches w.pending f
      → AllMatch bs (replay index es f).0
        × (Matches v.pending (replay index es f).1)
        × (v.world ≡ resync_batches bs w.world)
  unfolding replay resync_batches on_fire
  loop_refines visits f here h = (tt, h, refl)
  loop_refines visits f (next skipped r) h = loop_refines visits f r h
  loop_refines visits f (next (passed n) r) h = loop_refines visits f r h
  loop_refines visits {w = w} {es = es} {bs = bs} f (next (changed ns svc) r) h =
      let touched = slice-Matches ns svc w f h in
      let (batches, left, world) = loop_refines visits (touch index ns svc f) r touched in
      (batches, left, world ∙ ap (resync_batches bs) (slice_world ns svc w))
  loop_refines visits {w = w} f (next (fired d e late) r) h =
      let (batches, left, world) = loop_refines visits no_routes r (λ k. refl) in
      (((λ k. visits w.pending k ∙ h k), batches), left, world)

  -- When the loop over the pending routes visits each of them once, watchOnce resyncs in each batch
  -- exactly the routes whose services were touched since the last batch, each once; what is pending in
  -- the end are the routes touched since then, and the world is what these calls made of it.
  pub watch_refines :
      VisitsAll visit
      → (now : ℕ) (s : S) (v : Watching S) (es : List Event) (bs : List (List RouteKey))
      → Runs api u dry visit index debounce (watch_start now s) es bs v
      → AllMatch bs (replay index es no_routes).0
        × (Matches v.pending (replay index es no_routes).1)
        × (v.world ≡ resync_batches bs s)
  watch_refines visits now s v es bs r = loop_refines visits no_routes r (λ k. refl)
