-- ===== src/Bnkscan/Waiting.antt =====
-- internal/k8s/bnkscan/readiness.go: CheckReadiness and WaitReady. The scan, the clock (in
-- nanoseconds) and the wait between two looks are a parameter; the fuel is the number of looks.
use Prim.Native.Nat.{zero}
use awsbnkctl.Base.{
  ◌≡◌, refl, arith, ℕ, suc, ◌+◌, ◌*◌, ◌^◌, ◌≤◌, ◌<◌, Bool, true, false, Option, none, some, ltb,
  ltb_ℤ, ℤ, pos, pos_part, neg_part, if◌then◌else◌,
}
use awsbnkctl.Bnkscan.{Index, Readiness, readiness}
use awsbnkctl.Bnkscan.Verdict.{IsHealthy, readiness_iff}

-- `scan` gives `none` for an error; `pause` tells whether the context ended first.
pub record Watch (S : Type 0) : Type 0 where
  pub scan : S → Option Index × S
  pub now : S → ℕ
  pub pause : ℕ → S → Bool × S

-- How a wait ends, with the last verdict (`none` is the zero value); `unfinished` is out of fuel.
pub data Waited : Type 0 where
  became_ready : Readiness → Index → Waited
  scan_failed not_ready context_ended : Option Readiness → Waited
  unfinished : Waited

-- What a look sees.
pub data Check : Type 0 where
  broken : Check
  checked : Readiness → Index → Check

abbrev pub check_of : Bool → Option Index → Check
check_of accept none = broken
check_of accept (some idx) = checked (readiness accept idx) idx

-- `if poll <= 0 { poll = 10 * time.Second }`
abbrev pub poll_or_default : ℤ → ℕ
poll_or_default poll = if ltb_ℤ (pos 0) poll then pos_part poll else 10 * 10 ^ 9

-- `now.After(start.Add(timeout))`
abbrev is_late : (start : ℕ) (timeout : ℤ) (now : ℕ) → Bool
is_late start timeout now = ltb (start + pos_part timeout) (now + neg_part timeout)

abbrev timeout_of : Bool → Option Readiness → Waited
timeout_of true last = scan_failed last
timeout_of false last = not_ready last

if_holds {ℓ κ} :
    {A : Type ℓ} (P : A → Type κ) (b : Bool) (x y : A)
    → (b ≡ true → P x)
    → (b ≡ false → P y)
    → P (if b then x else y)
if_holds P true x y p q = p refl
if_holds P false x y p q = q refl

module _ {S : Type 0} (w : Watch S) where
  unfoldable pub check_readiness : Bool → S → Check × S
  check_readiness accept s = let (i, s') = w.scan s in (check_of accept i, s')

  abbrev after_pause : Option Readiness → Bool × S → (S → Waited × S) → Waited × S
  after_pause last (true, s) next = (context_ended last, s)
  after_pause last (false, s) next = next s

  abbrev go_on :
      (late : Bool) (poll : ℕ) (failed : Bool)
      → Option Readiness
      → S
      → (S → Waited × S)
      → Waited × S
  go_on true poll failed last s next = (timeout_of failed last, s)
  go_on false poll failed last s next = after_pause last (w.pause poll s) next

  abbrev after_check :
      (late : Bool) (poll : ℕ)
      → Check
      → Option Readiness
      → S
      → (Option Readiness → S → Waited × S)
      → Waited × S
  after_check late poll broken last s next = go_on late poll true last s (next last)
  after_check late poll (checked r idx) last s next =
      if r.ready then (became_ready r idx, s) else go_on late poll false (some r) s (next (some r))

  unfoldable pub wait_from :
      Bool → (start : ℕ) (timeout : ℤ) (poll : ℕ) → ℕ → Option Readiness → S → Waited × S
  unfolding check_readiness
  wait_from accept start timeout poll zero last s = (unfinished, s)
  wait_from accept start timeout poll (suc fuel) last s =
      let next = wait_from accept start timeout poll fuel in
      let (c, s') = check_readiness accept s in
      after_check (is_late start timeout (w.now s')) poll c last s' next

  unfoldable pub wait_ready : Bool → (timeout poll : ℤ) → ℕ → S → Waited × S
  unfolding wait_from
  wait_ready accept timeout poll fuel s =
      wait_from accept (w.now s) timeout (poll_or_default poll) fuel none s

  -- The clock does not run backwards, and a wait takes at least as long as it is asked for.
  pub record KeepsTime : Type 0 where
    pub scan_time : (s : S) → w.now s ≤ w.now (w.scan s).1
    pub pause_time : (n : ℕ) (s : S) → w.now s + n ≤ w.now (w.pause n s).1

  abbrev IsUnready : Option Readiness → Type 0
  IsUnready none = true ≡ true
  IsUnready (some r) = r.ready ≡ false

  -- What the end of a wait says.
  abbrev pub Ends : Bool → Waited → Type 0
  Ends accept (became_ready r idx) = (r ≡ readiness accept idx) × IsHealthy accept idx
  Ends accept (scan_failed last) = IsUnready last
  Ends accept (not_ready last) = IsUnready last
  Ends accept (context_ended last) = IsUnready last
  Ends accept unfinished = true ≡ false

  pause-Ends :
      (accept : Bool) (last : Option Readiness) (p : Bool × S) (next : S → Waited × S)
      → IsUnready last
      → Ends accept (next p.1).0
      → Ends accept (after_pause last p next).0
  pause-Ends accept last (true, s) next u h = u
  pause-Ends accept last (false, s) next u h = h

  timeout-Ends :
      (accept failed : Bool) (last : Option Readiness)
      → IsUnready last
      → Ends accept (timeout_of failed last)
  timeout-Ends accept true last u = u
  timeout-Ends accept false last u = u

  go_on-Ends :
      (accept late : Bool) (poll : ℕ) (failed : Bool) (last : Option Readiness) (s : S)
      (next : S → Waited × S)
      → IsUnready last
      → (late ≡ false → Ends accept (next (w.pause poll s).1).0)
      → Ends accept (go_on late poll failed last s next).0
  go_on-Ends accept true poll failed last s next u h = timeout-Ends accept failed last u
  go_on-Ends accept false poll failed last s next u h =
      pause-Ends accept last (w.pause poll s) next u (h refl)

  check-Ends :
      (accept late : Bool) (poll : ℕ) (i : Option Index) (last : Option Readiness) (s : S)
      (next : Option Readiness → S → Waited × S)
      → IsUnready last
      → ((r : Option Readiness)
          → IsUnready r
          → late ≡ false
          → Ends accept (next r (w.pause poll s).1).0)
      → Ends accept (after_check late poll (check_of accept i) last s next).0
  check-Ends accept late poll none last s next u h =
      go_on-Ends accept late poll true last s (next last) u (h last u)
  check-Ends accept late poll (some idx) last s next u h =
      let r = readiness accept idx in
      if_holds (λ p. Ends accept p.0) r.ready (became_ready r idx, s)
        (go_on late poll false (some r) s (next (some r)))
        (λ e. (refl, (readiness_iff accept idx).0 e))
        (λ e. go_on-Ends accept late poll false (some r) s (next (some r)) e (h (some r) e))

  wait_from-Ends :
      KeepsTime
      → (accept : Bool) (start : ℕ) (timeout : ℤ) (poll fuel : ℕ) (last : Option Readiness) (s : S)
      → IsUnready last
      → start + pos_part timeout < w.now s + neg_part timeout + fuel * poll
      → Ends accept (wait_from accept start timeout poll (suc fuel) last s).0
  unfolding wait_from check_readiness
  wait_from-Ends time accept start timeout poll zero last s u h =
      let s' = (w.scan s).1 in
      let slow : w.now s ≤ w.now s' = time.scan_time s in
      check-Ends accept (is_late start timeout (w.now s')) poll (w.scan s).0 last s'
        (wait_from accept start timeout poll zero) u (λ r v early. absurd (ground arith))
  wait_from-Ends time accept start timeout poll (suc fuel) last s u h =
      let s' = (w.scan s).1 in
      let slow : w.now s ≤ w.now s' = time.scan_time s in
      let later : w.now s' + poll ≤ w.now (w.pause poll s').1 = time.pause_time poll s' in
      check-Ends accept (is_late start timeout (w.now s')) poll (w.scan s).0 last s'
        (wait_from accept start timeout poll (suc fuel)) u
        (λ r v early.
          wait_from-Ends time accept start timeout poll fuel r (w.pause poll s').1 v (omega arith))

  -- When the clock does not run backwards and a wait between two looks takes as long as it is asked for,
  -- WaitReady ends within a number of looks that covers the timeout: with the verdict of an index that
  -- is healthy, or with an error and a last verdict that is not ready.
  pub wait_ready-Ends :
      KeepsTime
      → (accept : Bool) (timeout poll : ℤ) (fuel : ℕ) (s : S)
      → pos_part timeout < fuel * poll_or_default poll
      → Ends accept (wait_ready accept timeout poll (suc fuel) s).0
  unfolding wait_ready
  wait_ready-Ends time accept timeout poll fuel s h =
      wait_from-Ends time accept (w.now s) timeout (poll_or_default poll) fuel none s refl
        (omega arith)
