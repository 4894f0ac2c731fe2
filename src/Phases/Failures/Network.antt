-- ===== src/Phases/Failures/Network.antt =====
-- The phases of the network when they fail.
use awsbnkctl.Base.{◌≡◌, Bool}
use awsbnkctl.Phases.{Aws, World, PhaseError, err}
use awsbnkctl.Phases.Vpc.{phase02_vpc}
use awsbnkctl.Phases.Subnets.{phase03_subnets}
use awsbnkctl.Phases.Gateway.{phase04_igw}
use awsbnkctl.Phases.Nat.{phase05_nat, phase05_nat_down}
use awsbnkctl.Phases.Failures.{vpc_fails, igw_fails}
use awsbnkctl.Phases.Failures.Nat.{nat_fails, nat_down_fails}
use awsbnkctl.Phases.Failures.Subnets.{subnets_fails}

module _ {S : Type 0} (aws : Aws S) where
  -- When one of the phases 02 to 05, or the way down of phase 05, ends with an error, the file of
  -- ids is as it was before the phase, wherever the error comes from.
  pub phases_fail_safely :
      (dry : Bool) (w : World S) (e : PhaseError)
      → ((phase02_vpc aws dry w).0 ≡ err e → (phase02_vpc aws dry w).1.file ≡ w.file)
        × ((phase03_subnets aws dry w).0 ≡ err e → (phase03_subnets aws dry w).1.file ≡ w.file)
        × ((phase04_igw aws dry w).0 ≡ err e → (phase04_igw aws dry w).1.file ≡ w.file)
        × ((phase05_nat aws dry w).0 ≡ err e → (phase05_nat aws dry w).1.file ≡ w.file)
        × ((phase05_nat_down aws w).0 ≡ err e → (phase05_nat_down aws w).1.file ≡ w.file)
  phases_fail_safely dry w e = (
    vpc_fails aws dry w e,
    subnets_fails aws dry w e,
    igw_fails aws dry w e,
    nat_fails aws dry w e,
    nat_down_fails aws w e,
  )
