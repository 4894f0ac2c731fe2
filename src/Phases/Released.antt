-- ===== src/Phases/Released.antt =====
-- Phase 05 on the way down: an address is released only when it is not in use.
use Prim.Native.Nat.{zero}
use awsbnkctl.Base.{
  ℕ, suc, ◌+◌, ◌≡◌, refl, ap, String, Bool, true, false, ◌⊎◌, inl, inr, Bool-cases, is_empty, ltb,
  contains, eq_iff, Option, none, some, List, [], ◌∷◌,
}
use awsbnkctl.Phases.{
  Aws, World, Result, Reply, reply, api_error, Address, timed_out, call_failed, carry_on,
}
use awsbnkctl.Phases.Nat.{five_minutes, waited, wait_for, call_removing, release_eip}
use awsbnkctl.Phases.Polling.{
  Look, seen, broken, again, Wait, reached, failed, unfinished, poll, after_look, after_sleep,
  eip_look, look_eip, look_association, is_not_found_code, not_found_codes, wait_eip_unassociated,
}

-- An answer of DescribeAddresses after which no association of the address is left: it is not found,
-- or the first address of the answer, if there is one, names no association.
abbrev pub IsFree : Reply (List Address) → Type 0
IsFree (api_error code) = contains not_found_codes code ≡ true
IsFree (reply []) = true ≡ true
IsFree (reply (a ∷ more)) = (a.association_id ≡ none) ⊎ (a.association_id ≡ some "")

look_association-free :
    (id : Option String) → look_association id ≡ seen → (id ≡ none) ⊎ (id ≡ some "")
look_association-free none h = inl refl
look_association-free (some id) h = elim (Bool-cases (is_empty id)) [
  | inl e ↦ inr (ap some ((eq_iff id "").0 e))
  | inr n ↦ let used : again ≡ seen = rw n at h in absurd (cc)
]

look_eip-IsFree : (r : Reply (List Address)) → look_eip r ≡ seen → IsFree r
unfolding look_eip is_not_found_code
look_eip-IsFree (api_error code) h = elim (Bool-cases (contains not_found_codes code)) [
  | inl e ↦ e
  | inr n ↦
      let bad : broken (call_failed "DescribeAddresses" code) ≡ seen = rw n at h in absurd (cc)
]
look_eip-IsFree (reply []) h = refl
look_eip-IsFree (reply (a ∷ more)) h = look_association-free a.association_id h

module _ {S : Type 0} (aws : Aws S) where
  -- A look that ended the wait, and the cloud after it.
  abbrev IsSeen : (S → Look × S) → S → Type 0
  IsSeen look s' = (s : S) × ((look s).0 ≡ seen) × (s' ≡ (look s).1)

  after_sleep-IsSeen :
      (look : S → Look × S) (p : Bool × S) (next : S → Wait × S)
      → ((next p.1).0 ≡ reached → IsSeen look (next p.1).1)
      → (after_sleep aws p next).0 ≡ reached
      → IsSeen look (after_sleep aws p next).1
  after_sleep-IsSeen look (true, s) next h e = absurd (cc)
  after_sleep-IsSeen look (false, s) next h e = h e

  after_look-IsSeen :
      (look : S → Look × S) (s : S) (l : Look) (next : S → Wait × S)
      → (look s).0 ≡ l
      → ((next (aws.sleep 10 (look s).1).1).0 ≡ reached
          → IsSeen look (next (aws.sleep 10 (look s).1).1).1)
      → (after_look aws l (look s).1 next).0 ≡ reached
      → IsSeen look (after_look aws l (look s).1 next).1
  after_look-IsSeen look s seen next l h e = (s, l, refl)
  after_look-IsSeen look s (broken x) next l h e = absurd (cc)
  after_look-IsSeen look s again next l h e =
      after_sleep-IsSeen look (aws.sleep 10 (look s).1) next h e

  poll-IsSeen :
      (look : S → Look × S) (deadline fuel : ℕ) (s : S)
      → (poll aws look deadline fuel s).0 ≡ reached
      → IsSeen look (poll aws look deadline fuel s).1
  unfolding poll
  poll-IsSeen look deadline zero s e = absurd (cc)
  poll-IsSeen look deadline (suc fuel) s e = elim (Bool-cases (ltb (aws.clock s) deadline)) [
    | inl x ↦
        let next = poll aws look deadline fuel in
        rw x (
          after_look-IsSeen look s (look s).0 next refl
            (poll-IsSeen look deadline fuel (aws.sleep 10 (look s).1).1) (rw x at e))
    | inr x ↦ let bad : failed timed_out ≡ reached = rw x at e in absurd (cc)
  ]

  abbrev after_wait : String → World S → Wait × S → Result Unit × World S
  after_wait eip w (r, s) =
      carry_on (waited r, record w { cloud = s })
        (λ u. call_removing "ReleaseAddress" (aws.release_address eip))

  -- The cloud after a release that was called right behind an answer that the address is free.
  abbrev pub IsReleased : String → S → Type 0
  IsReleased eip s' =
      (s : S) × IsFree (aws.describe_address eip s).0
      × (s' ≡ (aws.release_address eip (aws.describe_address eip s).1).1)

  after_wait-IsReleased :
      (eip : String) (w : World S) (r : Wait × S)
      → (r.0 ≡ reached → IsSeen (eip_look aws eip) r.1)
      → ((after_wait eip w r).1.cloud ≡ r.1) ⊎ IsReleased eip (after_wait eip w r).1.cloud
  unfolding call_removing
  after_wait-IsReleased eip w (failed e, s) h = inl refl
  after_wait-IsReleased eip w (unfinished, s) h = inl refl
  after_wait-IsReleased eip w (reached, s) h =
      let (s0, saw, same) = h refl in
      inr (
        s0,
        look_eip-IsFree (aws.describe_address eip s0).0 saw,
        ap (λ (t : S). (aws.release_address eip t).1) same,
      )

  -- For an id that is not empty, the way down of phase 05 either stops with the cloud as the wait for
  -- the address leaves it, or it calls ReleaseAddress right behind an answer of DescribeAddresses
  -- that does not find the address or names no association of it.
  pub release_eip_unused :
      (eip : String) (w : World S)
      → is_empty eip ≡ false
      → ((release_eip aws eip w).1.cloud ≡ (wait_eip_unassociated aws five_minutes eip w.cloud).1)
        ⊎ IsReleased eip (release_eip aws eip w).1.cloud
  unfolding release_eip wait_for wait_eip_unassociated
  release_eip_unused eip w n = rw n (
      after_wait-IsReleased eip w (wait_eip_unassociated aws five_minutes eip w.cloud)
        (poll-IsSeen (eip_look aws eip) (aws.clock w.cloud + 300) five_minutes w.cloud))
