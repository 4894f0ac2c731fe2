-- ===== src/Heal/Reports.antt =====
-- internal/aws/phases/heal.go: the statuses that RunHeal returns.
use awsbnkctl.Base.{◌≡◌, ◌⊎◌, String, Bool, true, false, not, ◌&&◌, List, [], ◌∷◌, if◌then◌else◌}
use awsbnkctl.Heal.{
  HealDeps, undetected, detected, unfixed, fixed, Repair, HealStatus, has_intent, is_wanted,
}

module _ {S : Type 0} (d : HealDeps) where
  abbrev lacks_intent : Repair S → Bool
  lacks_intent r = r.needs_intent && not (has_intent d)

  -- On some cluster the detector is content; the fix succeeds; one of them fails with the error.
  abbrev FoundWell : Repair S → Type 0
  FoundWell r = (s : S) × (text : String) × ((r.detect d s).0 ≡ detected true text)

  abbrev Mended : Repair S → Type 0
  Mended r = (s : S) × (text : String) × ((r.fix d s).0 ≡ fixed text)

  abbrev Failed : Repair S → String → Type 0
  Failed r e =
      ((s : S) × ((r.detect d s).0 ≡ undetected e)) ⊎ ((s : S) × ((r.fix d s).0 ≡ unfixed e))

  -- What a status says of its repair: changed, that a fix was allowed and succeeded; skipped, that
  -- the intent was needed and lacking; healthy, that a fix or the detector says so; and not healthy,
  -- that the repair was skipped, or the run is dry, or the status has the error of the repair.
  abbrev IsTrue : Repair S → HealStatus → Type 0
  IsTrue r st =
      (st.changed ≡ true
        → (st.healthy ≡ true) × (d.dry_run ≡ false) × (lacks_intent r ≡ false) × Mended r)
      × (st.skipped ≡ true → (lacks_intent r ≡ true) × (st.healthy ≡ false))
      × (st.healthy ≡ true → (st.changed ≡ true) ⊎ FoundWell r)
      × (st.healthy ≡ false → (st.skipped ≡ true) ⊎ ((d.dry_run ≡ true) ⊎ Failed r st.error))

  abbrev Tells : Repair S → HealStatus → Type 0
  Tells r st = (st.name ≡ r.name) × (st.title ≡ r.title) × IsTrue r st

  -- The statuses are those of the repairs, one for each and in their order.
  abbrev TellAll : List (Repair S) → List HealStatus → Type 0
  TellAll [] [] = true ≡ true
  TellAll (r ∷ rs) (st ∷ sts) = Tells r st × TellAll rs sts
  TellAll rs sts = true ≡ false

  -- The repairs of the table that the run is for.
  abbrev wanted_of : List String → List (Repair S) → List (Repair S)
  wanted_of only [] = []
  wanted_of only (r ∷ rs) =
      let rest = wanted_of only rs in if is_wanted only r.name then r ∷ rest else rest

  abbrev pub Reports : List String → List (Repair S) → List HealStatus → Type 0
  Reports only rs sts = TellAll (wanted_of only rs) sts
