-- ===== src/Watch/Loop.antt =====
-- pkg/bnk/watch.go: watchOnce. A step takes one event; the clock is in nanoseconds.
use awsbnkctl.Base.{
  ◌≡◌, ℕ, ◌+◌, ◌≤◌, String, Bool, false, Option, none, some, List, [], ◌∷◌, ◌++◌, is_empty,
  if◌then◌else◌,
}
use awsbnkctl.Resync.{Unstructured, Api, ResyncOptions}
use awsbnkctl.Resync.Run.{resync_http_routes}
use awsbnkctl.Watch.{RouteKey, Index, contains_route, routes_at, service_key}

-- What a select of the loop takes: a change of a slice with the service of its label, an object of
-- another type, the timer of the batch; `elapse` is time that passes between two of them.
pub data Event : Type 0 where
  slice : (ns svc : String) → Event
  other_object : Event
  fire : Event
  elapse : ℕ → Event

-- The variables of the loop, the clock and the world.
pub record Watching (S : Type 0) : Type 0 where
  pub pending : List RouteKey
  pub deadline : Option ℕ
  pub now : ℕ
  pub world : S

-- `if !pending[rk] { pending[rk] = true }`
abbrev pub queue_route : RouteKey → List RouteKey → List RouteKey
queue_route rk pending = if contains_route pending rk then pending else rk ∷ pending

unfoldable pub queue_routes : List RouteKey → List RouteKey → List RouteKey
queue_routes [] pending = pending
queue_routes (rk ∷ rks) pending = queue_routes rks (queue_route rk pending)

-- The timer is armed by the first event of a burst and stays as it is until it fires.
unfoldable pub arm : (debounce now : ℕ) → List RouteKey → Option ℕ → Option ℕ
arm debounce now pending (some d) = some d
arm debounce now [] none = none
arm debounce now (rk ∷ rks) none = some (now + debounce)

module _ {S : Type 0} where
  unfoldable pub on_slice : Index → (debounce : ℕ) → (ns svc : String) → Watching S → Watching S
  unfolding queue_routes arm
  on_slice index debounce ns svc w =
      let queued = queue_routes (routes_at index (service_key ns svc)) w.pending in
      if is_empty svc
      then w
      else record w { pending = queued; deadline = arm debounce w.now queued w.deadline }

  -- The state in which watchOnce enters the loop.
  abbrev pub watch_start : ℕ → S → Watching S
  watch_start now s = record { pending = []; deadline = none; now = now; world = s }

-- A call for one route of the batch, whose error is only logged.
abbrev pub one_route : Bool → RouteKey → ResyncOptions
one_route dry rk = record {
  namespace = rk.ns;
  name = rk.name;
  all_in_namespace = false;
  gateway_class = "";
  dry_run = dry;
}

module _ {S : Type 0} (api : Api S) (u : Unstructured) (dry : Bool) where
  unfoldable pub resync_batch : List RouteKey → S → S
  resync_batch [] s = s
  resync_batch (rk ∷ rks) s = resync_batch rks (resync_http_routes api u (one_route dry rk) s).2

  -- `visit` is the order in which the loop over the map visits it.
  module _ (visit : List RouteKey → List RouteKey) (index : Index) (debounce : ℕ) where
    unfoldable pub on_fire : Watching S → Watching S
    unfolding resync_batch
    on_fire w = record w {
      pending = [];
      deadline = none;
      world = resync_batch (visit w.pending) w.world;
    }

    -- One round of the loop, with the batch that it resyncs.
    pub data Step (w : Watching S) : Event → List (List RouteKey) → Watching S → Type 0 where
      changed : (ns svc : String) → Step w (slice ns svc) [] (on_slice index debounce ns svc w)
      skipped : Step w other_object [] w
      passed : (n : ℕ) → Step w (elapse n) [] (record w { now = w.now + n })
      fired :
          (d : ℕ) → w.deadline ≡ some d → d ≤ w.now → Step w fire (visit w.pending ∷ []) (on_fire w)

    pub data Runs : Watching S → List Event → List (List RouteKey) → Watching S → Type 0 where
      here : {w : Watching S} → Runs w [] [] w
      next :
          {w v x : Watching S} {e : Event} {es : List Event} {b bs : List (List RouteKey)}
          → Step w e b v
          → Runs v es bs x
          → Runs w (e ∷ es) (b ++ bs) x
