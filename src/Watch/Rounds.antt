-- ===== src/Watch/Rounds.antt =====
-- pkg/bnk/watch.go: WatchHTTPRoutes, the loop around the watches. The durations are in nanoseconds.
use awsbnkctl.Base.{
  ℕ, ◌*◌, ◌^◌, String, Bool, true, false, not, List, [], ◌∷◌, is_empty, ltb, ℤ, pos, ltb_ℤ,
  pos_part, if◌then◌else◌,
}
use awsbnkctl.Resync.{ResyncOptions}

abbrev pub second : ℕ
second = 10 ^ 9

-- `if d <= 0 { d = n }`
abbrev pub or_seconds : ℤ → ℕ → ℕ
or_seconds d n = if ltb_ℤ (pos 0) d then pos_part d else n * second

abbrev pub debounce_of : ℤ → ℕ
debounce_of d = or_seconds d 2

abbrev pub index_refresh_of : ℤ → ℕ
index_refresh_of d = or_seconds d 300

-- The namespace that is watched: all of them for a gateway class.
unfoldable pub watch_namespace : ResyncOptions → String
watch_namespace opts = if not (is_empty opts.gateway_class) then "" else opts.namespace

-- What a round of the loop sees: the index is not built; watchOnce ends because the index is old, or
-- with an error while the context lives, or because the context ended.
pub data Round : Type 0 where
  index_failed refreshed interrupted cancelled : Round

-- What a round does: it goes on, with or without a sleep, or it returns.
pub data Then : Type 0 where
  at_once : Then
  sleep : ℕ → Then
  returns_index_error returns_cancelled : Then

-- `first` and `backoff`
pub record Outer : Type 0 where
  pub first : Bool
  pub backoff : ℕ

abbrev pub outer_start : Outer
outer_start = record { first = true; backoff = second }

abbrev pub doubled : ℕ → ℕ
doubled backoff = if ltb backoff (30 * second) then backoff * 2 else backoff

-- The select behind a failure: it sleeps for the backoff, which then grows.
abbrev back_off : Outer → Then × Outer
back_off o = (sleep o.backoff, record o { backoff = doubled o.backoff })

unfoldable pub round : Round → Outer → Then × Outer
round index_failed o = if o.first then (returns_index_error, o) else back_off o
round refreshed o = (at_once, record { first = false; backoff = second })
round interrupted o = back_off (record o { first = false })
round cancelled o = (returns_cancelled, record o { first = false })

abbrev put_first : Then → List Then × Outer → List Then × Outer
put_first t (ts, o) = (t ∷ ts, o)

-- `ctx.Done()` may end a sleep; a return ends the loop.
abbrev after_round : Then × Outer → Bool → (Outer → List Then × Outer) → List Then × Outer
after_round (at_once, o) ended next = put_first at_once (next o)
after_round (sleep n, o) true next = (sleep n ∷ returns_cancelled ∷ [], o)
after_round (sleep n, o) false next = put_first (sleep n) (next o)
after_round (returned, o) ended next = (returned ∷ [], o)

-- The loop on what its rounds see, each with whether the context ends in its sleep.
unfoldable pub rounds : List (Round × Bool) → Outer → List Then × Outer
unfolding round
rounds [] o = ([], o)
rounds ((r, ended) ∷ rs) o = after_round (round r o) ended (rounds rs)
