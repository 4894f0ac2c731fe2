-- ===== src/Phases/Deadlines.antt =====
-- The waits of phase 05 end: the fuel is enough for a clock that a wait of ten seconds moves on.
use Prim.Native.Nat.{zero}
use awsbnkctl.Base.{
  ℕ, suc, ◌+◌, ◌*◌, ◌≤◌, ◌≡◌, refl, arith, String, Bool, true, false, ltb, inl, inr, Bool-cases,
}
use awsbnkctl.Phases.{Aws}
use awsbnkctl.Phases.Nat.{five_minutes, ten_minutes}
use awsbnkctl.Phases.Polling.{
  Look, seen, broken, again, Wait, unfinished, poll, after_look, after_sleep, nat_look, eip_look,
  poll_nat_state, wait_nat_available, wait_nat_deleted, wait_eip_unassociated,
}

abbrev pub is_unfinished : Wait → Bool
is_unfinished unfinished = true
is_unfinished other = false

module _ {S : Type 0} (aws : Aws S) where
  -- The clock does not run backwards, and a wait of some seconds takes at least as long.
  pub record KeepsTime : Type 0 where
    pub nat_time : (id : String) (s : S) → aws.clock s ≤ aws.clock (aws.describe_nat_gateway id s).1
    pub address_time : (id : String) (s : S) → aws.clock s ≤ aws.clock (aws.describe_address id s).1
    pub sleep_time : (n : ℕ) (s : S) → aws.clock s + n ≤ aws.clock (aws.sleep n s).1

  after_sleep_ends :
      (p : Bool × S) (next : S → Wait × S)
      → is_unfinished (next p.1).0 ≡ false
      → is_unfinished (after_sleep aws p next).0 ≡ false
  after_sleep_ends (true, s) next h = refl
  after_sleep_ends (false, s) next h = h

  after_look_ends :
      (l : Look) (s : S) (next : S → Wait × S)
      → is_unfinished (next (aws.sleep 10 s).1).0 ≡ false
      → is_unfinished (after_look aws l s next).0 ≡ false
  after_look_ends seen s next h = refl
  after_look_ends (broken e) s next h = refl
  after_look_ends again s next h = after_sleep_ends (aws.sleep 10 s) next h

  poll_ends :
      KeepsTime
      → (look : S → Look × S) → ((s : S) → aws.clock s ≤ aws.clock (look s).1)
      → (deadline fuel : ℕ) (s : S) → deadline ≤ aws.clock s + fuel * 10
      → is_unfinished (poll aws look deadline (suc fuel) s).0 ≡ false
  unfolding poll
  poll_ends time look slow deadline zero s h =
      let late : ltb (aws.clock s) deadline ≡ false = ground arith in rw late refl
  poll_ends time look slow deadline (suc fuel) s h =
      elim (Bool-cases (ltb (aws.clock s) deadline)) [
        | inr n ↦ rw n refl
        | inl e ↦
            let s' = (aws.sleep 10 (look s).1).1 in
            let first : aws.clock s ≤ aws.clock (look s).1 = slow s in
            let second : aws.clock (look s).1 + 10 ≤ aws.clock s' = time.sleep_time 10 (look s).1 in
            let near : deadline ≤ aws.clock s' + fuel * 10 = omega arith in
            rw e (
              after_look_ends (look s).0 (look s).1 (poll aws look deadline (suc fuel))
                (poll_ends time look slow deadline fuel s' near))
      ]

  -- When the clock does not run backwards and a wait of ten seconds takes at least ten, each wait of
  -- phase 05 ends within the looks that it is given: it reaches what it waits for, or it fails.
  pub waits_end :
      KeepsTime
      → (id : String) (s : S)
      → (is_unfinished (wait_nat_available aws five_minutes id s).0 ≡ false)
        × (is_unfinished (wait_nat_deleted aws ten_minutes id s).0 ≡ false)
        × (is_unfinished (wait_eip_unassociated aws five_minutes id s).0 ≡ false)
  unfolding wait_nat_available wait_nat_deleted wait_eip_unassociated poll_nat_state
  waits_end time id s = (
    poll_ends time (nat_look aws "available" id) (time.nat_time id) (aws.clock s + 300) 30 s
        (omega arith),
    poll_ends time (nat_look aws "deleted" id) (time.nat_time id) (aws.clock s + 600) 60 s
        (omega arith),
    poll_ends time (eip_look aws id) (time.address_time id) (aws.clock s + 300) 30 s (omega arith),
  )
