-- ===== src/Heal/Doctor.antt =====
-- internal/aws/phases/heal.go: a dry run of RunHeal beside DetectAll.
use awsbnkctl.Base.{
  ◌≡◌, refl, ap, inl, inr, Bool-cases, String, Bool, true, false, not, ◌&&◌, List, [], ◌∷◌, map,
}
use awsbnkctl.Heal.{
  HealDeps, Detected, undetected, detected, Repair, HealStatus, has_intent, mend, after_detect,
  heal_one, run_heal, detect_status, detect_all,
}

-- What a status tells of the repair itself.
abbrev pub verdict : HealStatus → String × String × Bool × Bool × String
verdict st = (st.name, st.title, st.healthy, st.changed, st.error)

module _ {S : Type 0} where
  mend-dry :
      (d : HealDeps) (r : Repair S) (text : String) (s : S)
      → d.dry_run ≡ true
      → (verdict (mend d r text s).0 ≡ verdict (detect_status r (detected false text)))
        × ((mend d r text s).2 ≡ s)
  mend-dry d r text s e = elim (Bool-cases (r.needs_intent && not (has_intent d))) [
    | inl barred ↦ rw barred (refl, refl)
    | inr free ↦ rw (free, e) (refl, refl)
  ]

  after_detect-dry :
      (d : HealDeps) (r : Repair S) (x : Detected) (s : S)
      → d.dry_run ≡ true
      → (verdict (after_detect d r (x, s)).0 ≡ verdict (detect_status r x))
        × ((after_detect d r (x, s)).2 ≡ s)
  after_detect-dry d r (undetected e') s e = (refl, refl)
  after_detect-dry d r (detected true text) s e = (refl, refl)
  after_detect-dry d r (detected false text) s e = mend-dry d r text s e

  -- A dry run of RunHeal over all repairs reports the names, the titles, the health and the errors
  -- that DetectAll reports, changes nothing, and leaves the cluster as the detectors alone do.
  pub run_heal-dry :
      (d : HealDeps) (rs : List (Repair S)) (s : S)
      → d.dry_run ≡ true
      → (map verdict (run_heal d [] rs s).0 ≡ map verdict (detect_all d rs s).0)
        × ((run_heal d [] rs s).2 ≡ (detect_all d rs s).1)
  unfolding run_heal heal_one detect_all
  run_heal-dry d [] s e = (refl, refl)
  run_heal-dry d (r ∷ rs) s e =
      let (x, s') = r.detect d s in
      let (same, back) = after_detect-dry d r x s' e in
      let (rest, end) = run_heal-dry d rs s' e in
      rw (back, same) (ap (λ sts. verdict (detect_status r x) ∷ sts) rest, end)
