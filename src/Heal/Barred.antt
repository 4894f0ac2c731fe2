-- ===== src/Heal/Barred.antt =====
-- internal/aws/phases/heal.go: the guards of RunHeal in front of a fix.
use awsbnkctl.Base.{
  ◌≡◌, refl, ap, inl, inr, Bool-cases, arith, String, Bool, true, false, not, ◌&&◌, ◌||◌, List, [],
  ◌∷◌, ◌++◌, map, if◌then◌else◌,
}
use awsbnkctl.Heal.{
  HealDeps, Detected, undetected, detected, Fixed, Repair, has_intent, is_wanted, mend,
  after_detect, heal_one, heal_wanted, run_heal,
}

-- No fix runs for a repair that is not wanted, in a dry run, or without the intent that it needs.
abbrev pub is_barred : {S : Type 0} → HealDeps → List String → Repair S → Bool
is_barred d only r =
    not (is_wanted only r.name) || d.dry_run || (r.needs_intent && not (has_intent d))

module _ {S : Type 0} (fix : HealDeps → S → Fixed × S) where
  -- The repair, with another fix when its own may not run.
  abbrev pub change_barred : HealDeps → List String → Repair S → Repair S
  change_barred d only r = record r { fix = if is_barred d only r then fix else r.fix }

  mend-barred :
      (d : HealDeps) (r : Repair S) (text : String) (s : S)
      → (d.dry_run || (r.needs_intent && not (has_intent d))) ≡ true
      → mend d (record r { fix = fix }) text s ≡ mend d r text s
  mend-barred d r text s h = elim (Bool-cases (r.needs_intent && not (has_intent d))) [
    | inl barred ↦ rw barred refl
    | inr free ↦ let dry : d.dry_run ≡ true = ground arith in rw (free, dry) refl
  ]

  after_detect-barred :
      (d : HealDeps) (r : Repair S) (x : Detected) (s : S)
      → (d.dry_run || (r.needs_intent && not (has_intent d))) ≡ true
      → after_detect d (record r { fix = fix }) (x, s) ≡ after_detect d r (x, s)
  after_detect-barred d r (undetected e) s h = refl
  after_detect-barred d r (detected true text) s h = refl
  after_detect-barred d r (detected false text) s h = mend-barred d r text s h

  heal_wanted-barred :
      (b : Bool) (d : HealDeps) (r : Repair S) (s : S)
      → (not b || d.dry_run || (r.needs_intent && not (has_intent d))) ≡ true
      → heal_wanted b d (record r { fix = fix }) s ≡ heal_wanted b d r s
  unfolding heal_one
  heal_wanted-barred false d r s h = refl
  heal_wanted-barred true d r s h =
      ap (λ x. (x.0 ∷ [], x.1, x.2)) (after_detect-barred d r (r.detect d s).0 (r.detect d s).1 h)

  change-barred :
      (d : HealDeps) (only : List String) (r : Repair S) (s : S)
      → heal_wanted (is_wanted only r.name) d (change_barred d only r) s
        ≡ heal_wanted (is_wanted only r.name) d r s
  change-barred d only r s = elim (Bool-cases (is_barred d only r)) [
    | inl barred ↦ rw barred (heal_wanted-barred (is_wanted only r.name) d r s barred)
    | inr free ↦ rw free refl
  ]

  -- What the fix of a repair does matters to a run of RunHeal only when the repair is wanted, the run
  -- is not dry, and the intent that the repair needs is there: with any other fix in its place, the
  -- statuses, the log and the cluster are the same.
  pub run_heal-barred :
      (d : HealDeps) (only : List String) (rs : List (Repair S)) (s : S)
      → run_heal d only (map (change_barred d only) rs) s ≡ run_heal d only rs s
  unfolding run_heal
  run_heal-barred d only [] s = refl
  run_heal-barred d only (r ∷ rs) s =
      let (sts, lines, s') = heal_wanted (is_wanted only r.name) d r s in
      rw (change-barred d only r s)
        (ap (λ x. (sts ++ x.0, lines ++ x.1, x.2)) (run_heal-barred d only rs s'))
