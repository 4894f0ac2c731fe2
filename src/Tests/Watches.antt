-- ===== src/Tests/Watches.antt =====
-- A watch over the service of one route.
use awsbnkctl.Base.{
  ◌≡◌, refl, ◌⊎◌, arith, ℕ, ◌+◌, ◌≤◌, ◌<◌, String, Bool, true, false, some, List, [], ◌∷◌, All,
}
use awsbnkctl.Watch.{RouteKey, contains_route, Index, indexed, routes_at, build_service_index}
use awsbnkctl.Watch.Loop.{
  Event, slice, fire, elapse, Watching, watch_start, on_slice, on_fire, queue_routes, arm, Step,
  changed, passed, fired, Runs, here, next,
}
use awsbnkctl.Watch.Keys.{Matches}
use awsbnkctl.Watch.Indexed.{any_names, build_service_index-Fits}
use awsbnkctl.Watch.Refines.{AllMatch, replay, no_routes, resync_batches, watch_refines}
use awsbnkctl.Watch.Served.{served, watch_serves}
use awsbnkctl.Watch.Rounds.{
  Round, index_failed, refreshed, interrupted, rounds, round, outer_start, returns_index_error,
  sleep, at_once,
}
use awsbnkctl.Watch.Backoff.{IsCalm, rounds_backoff}
use awsbnkctl.Resync.Targeting.{resolve_targets}
use awsbnkctl.Tests.Resyncs.{
  Page, quiet_api, object_reader, web_page, in_namespace, web_ref, plain_ref,
}

abbrev web : RouteKey
web = record { ns = "shop"; name = "web" }

abbrev index : Index
index = ("shop/web", web ∷ []) ∷ []

abbrev same_order : List RouteKey → List RouteKey
same_order rs = rs

abbrev queued : Watching Page
queued = record { pending = web ∷ []; deadline = some 2; now = 0; world = web_page }

abbrev due : Watching Page
due = record queued { now = 3 }

queued_web : on_slice index 2 "shop" "web" (watch_start 0 web_page) ≡ queued
unfolding on_slice queue_routes arm
queued_web = refl

abbrev Loops : Watching Page → List Event → List (List RouteKey) → Watching Page → Type 0
Loops = Runs quiet_api object_reader true same_order index 2

to_queued : Loops (watch_start 0 web_page) (slice "shop" "web" ∷ []) [] queued
unfolding on_slice queue_routes arm
to_queued = next (changed "shop" "web") here

abbrev flushed : Watching Page
flushed = on_fire quiet_api object_reader true same_order index 2 due

whole_burst :
    Loops
      (watch_start 0 web_page)
      (slice "shop" "web" ∷ elapse 3 ∷ fire ∷ [])
      ((web ∷ []) ∷ [])
      flushed
unfolding on_slice queue_routes arm
whole_burst = next (changed "shop" "web") (next (passed 3) (next (fired 2 refl (omega arith)) here))

watch_refines_example :
    AllMatch
      ((web ∷ []) ∷ [])
      (replay index (slice "shop" "web" ∷ elapse 3 ∷ fire ∷ []) no_routes).0
    × (Matches flushed.pending
        (replay index (slice "shop" "web" ∷ elapse 3 ∷ fire ∷ []) no_routes).1)
    × (flushed.world
        ≡ resync_batches quiet_api object_reader true same_order index 2 ((web ∷ []) ∷ []) web_page)
watch_refines_example =
    watch_refines quiet_api object_reader true same_order index 2 (λ rs k. refl) 0 web_page flushed
      (slice "shop" "web" ∷ elapse 3 ∷ fire ∷ []) ((web ∷ []) ∷ []) whole_burst

watch_serves_example :
    (d : ℕ) × (d ≤ queued.now + 2)
    × ((served [] web ≡ true)
        ⊎ ((due.now < d)
            ⊎ ((b : List RouteKey) × (x : Watching Page) × Step quiet_api object_reader true
                  same_order index 2 due fire
                  (b ∷ [])
                  x
                × (contains_route b web ≡ true))))
watch_serves_example =
    watch_serves quiet_api object_reader true same_order index 2 (λ rs k. refl) 0 web_page queued
      due (slice "shop" "web" ∷ []) (elapse 3 ∷ []) [] [] web to_queued refl (next (passed 3) here)

build_service_index-Fits_example :
    (i : Index) × (build_service_index object_reader quiet_api in_namespace web_page ≡ indexed i)
    × ((q : String)
        → Matches (routes_at i q) (any_names object_reader (web_ref ∷ plain_ref ∷ []) q))
unfolding resolve_targets
build_service_index-Fits_example =
    build_service_index-Fits object_reader quiet_api in_namespace web_page
      (web_ref ∷ plain_ref ∷ []) refl

abbrev bad_day : List (Round × Bool)
bad_day =
    (refreshed, false) ∷ (interrupted, false) ∷ (index_failed, false) ∷ (refreshed, false) ∷ []

slept :
    (rounds bad_day outer_start).0 ≡ at_once ∷ sleep 1000000000 ∷ sleep 2000000000 ∷ at_once ∷ []
unfolding rounds round
slept = refl

rounds_backoff_example :
    ((rounds bad_day outer_start).0 ≡ returns_index_error ∷ [])
    ⊎ All IsCalm (rounds bad_day outer_start).0
rounds_backoff_example = rounds_backoff bad_day
