-- ===== src/Tests/Heals.antt =====
-- internal/aws/phases/heal.go, at a cluster of two switches.
use awsbnkctl.Base.{◌≡◌, refl, Bool, true, false, List, [], ◌∷◌, map}
use awsbnkctl.Heal.{
  undetected, HealDeps, detected, Fixed, unfixed, fixed, Repair, HealStatus, run_heal, detect_all,
  heal_one,
}
use awsbnkctl.Heal.Doctor.{verdict, run_heal-dry}
use awsbnkctl.Heal.Barred.{change_barred, run_heal-barred}
use awsbnkctl.Heal.Reports.{Reports}

abbrev Switches : Type 0
Switches = Bool × Bool

abbrev stream : Repair Switches
stream = record {
  name = "tmm-log-stream";
  title = "bnk tmm log stream";
  needs_intent = false;
  detect = λ d s. (detected s.0 "stdout store", s);
  fix = λ d s. (fixed "stdout store enabled", (true, s.1));
}

abbrev irsa : Repair Switches
irsa = record {
  name = "controller-irsa";
  title = "bnk controller IRSA";
  needs_intent = true;
  detect = λ d s. (detected s.1 "trust policy", s);
  fix = λ d s. (fixed "trust policy scoped", (s.0, true));
}

abbrev table : List (Repair Switches)
table = stream ∷ irsa ∷ []

abbrev with_intent : HealDeps
with_intent = record { has_cluster = true; has_state = true; dry_run = false; has_log = true }

abbrev without_intent : HealDeps
without_intent = record with_intent { has_state = false }

abbrev rehearsal : HealDeps
rehearsal = record with_intent { dry_run = true }

abbrev flags : HealStatus → Bool × Bool × Bool
flags st = (st.healthy, st.changed, st.skipped)

both_healed :
    (map flags (run_heal with_intent [] table (false, false)).0
      ≡ (true, true, false) ∷ (true, true, false) ∷ [])
    × ((run_heal with_intent [] table (false, false)).2 ≡ (true, true))
unfolding run_heal heal_one
both_healed = (refl, refl)

one_skipped :
    (map flags (run_heal without_intent [] table (false, false)).0
      ≡ (true, true, false) ∷ (false, false, true) ∷ [])
    × ((run_heal without_intent [] table (false, false)).2 ≡ (true, false))
unfolding run_heal heal_one
one_skipped = (refl, refl)

log_of_one :
    (run_heal with_intent ("tmm-log-stream" ∷ []) table (false, false)).1
    ≡ "[heal] tmm-log-stream: stdout store\n" ∷ "[heal] tmm-log-stream: stdout store enabled\n" ∷ []
unfolding run_heal heal_one
log_of_one = refl

run_heal-dry_example :
    (map verdict (run_heal rehearsal [] table (false, true)).0
      ≡ map verdict (detect_all rehearsal table (false, true)).0)
    × ((run_heal rehearsal [] table (false, true)).2 ≡ (detect_all rehearsal table (false, true)).1)
run_heal-dry_example = run_heal-dry rehearsal table (false, true) refl

-- Any other fix of the repair that needs the intent.
abbrev spoil : HealDeps → Switches → Fixed × Switches
spoil d s = (unfixed "broken", (false, false))

run_heal-barred_example :
    run_heal without_intent [] (map (change_barred spoil without_intent []) table) (false, false)
    ≡ run_heal without_intent [] table (false, false)
run_heal-barred_example = run_heal-barred spoil without_intent [] table (false, false)

-- A detector that fails does not keep the next repair from its turn.
abbrev broken : Repair Switches
broken = record irsa { name = "cwc"; detect = λ d s. (undetected "forbidden", s) }
