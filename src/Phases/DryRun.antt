-- ===== src/Phases/DryRun.antt =====
-- A dry run of the network's phases.
use awsbnkctl.Base.{◌≡◌, refl, String, true, Option, none, some, if◌then◌else◌, join}
use awsbnkctl.Intent.Schema.{Cluster, DataPathSpec}
use awsbnkctl.Intent.Pattern.{is_bnk_pattern, has_internal_interface}
use awsbnkctl.Phases.{
  Aws, World, Action, pure, ◌>>=◌, ◌>>◌, gets, set_key, require_key, check_auth_or_die,
}
use awsbnkctl.Phases.Safe.{
  Keeps, if-Keeps, >>=-Keeps, >>-Keeps, outside, set_key-Keeps, require_key-Keeps,
  check_auth_or_die-Keeps,
}
use awsbnkctl.Phases.Vpc.{phase02_vpc, vpc_for}
use awsbnkctl.Phases.Gateway.{phase04_igw, igw_for}
use awsbnkctl.Phases.Nat.{phase05_nat, nat_for}
use awsbnkctl.Phases.Subnets.{
  phase03_subnets, subnets_for, dry_subnets, dry_path, dry_internal, dry_run_ids_from,
}

module _ {S : Type 0} (aws : Aws S) where
  vpc_dry : Keeps outside (phase02_vpc aws true)
  unfolding phase02_vpc
  vpc_dry =
      >>=-Keeps outside (check_auth_or_die aws)
        (λ u. gets (λ w. w.cluster) >>= λ cl. vpc_for aws cl true) (check_auth_or_die-Keeps aws)
        (λ u.
          >>=-Keeps outside (gets (λ w. w.cluster)) (λ cl. vpc_for aws cl true) (λ w. refl)
            (λ cl. set_key-Keeps "VPC_ID" "dry-run-vpc"))

  -- An action behind the session check, the configuration and an id that an earlier phase records.
  guarded :
      (key : String) (f : Cluster → String → Action S Unit)
      → ((cl : Cluster) (v : String) → Keeps outside (f cl v))
      → Keeps outside (
          check_auth_or_die aws >>= λ u.
          gets (λ w. w.cluster) >>= λ cl. require_key key >>= λ v. f cl v)
  guarded key f k =
      >>=-Keeps outside (check_auth_or_die aws)
        (λ u. gets (λ w. w.cluster) >>= λ cl. require_key key >>= λ v. f cl v)
        (check_auth_or_die-Keeps aws)
        (λ u.
          >>=-Keeps outside (gets (λ w. w.cluster)) (λ cl. require_key key >>= λ v. f cl v)
            (λ w. refl)
            (λ cl. >>=-Keeps outside (require_key key) (f cl) (require_key-Keeps key) (k cl)))

  igw_dry : Keeps outside (phase04_igw aws true)
  unfolding phase04_igw
  igw_dry =
      guarded "VPC_ID" (λ cl v. igw_for aws cl true v)
        (λ cl v. set_key-Keeps "IGW_ID" "dry-run-igw")

  nat_dry : Keeps outside (phase05_nat aws true)
  unfolding phase05_nat
  nat_dry =
      guarded "PUBLIC_SUBNETS" (λ cl v. nat_for aws cl true v)
        (λ cl v.
          >>-Keeps outside (set_key "NAT_EIP_ALLOC" "dry-run-eip")
            (set_key "NAT_GW_ID" "dry-run-nat") (set_key-Keeps "NAT_EIP_ALLOC" "dry-run-eip")
            (set_key-Keeps "NAT_GW_ID" "dry-run-nat"))

  internal_dry : (cl : Cluster) → Keeps outside (dry_internal aws cl)
  internal_dry cl =
      if-Keeps outside (has_internal_interface cl)
        (set_key "BNK_INT_SUBNET" "dry-run-subnet-bnk-int") (pure tt)
        (set_key-Keeps "BNK_INT_SUBNET" "dry-run-subnet-bnk-int") (λ w. refl)

  path_dry : (cl : Cluster) (dp : Option DataPathSpec) → Keeps outside (dry_path aws cl dp)
  path_dry cl none = λ w. refl
  path_dry cl (some dp) =
      >>-Keeps outside (set_key "BNK_EXT_SUBNET" "dry-run-subnet-bnk-ext") (dry_internal aws cl)
        (set_key-Keeps "BNK_EXT_SUBNET" "dry-run-subnet-bnk-ext") (internal_dry cl)

  pub subnets_dry_of : (cl : Cluster) → Keeps outside (dry_subnets aws cl)
  unfolding dry_subnets
  subnets_dry_of cl =
      let public = join "," (dry_run_ids_from "pub" 0 cl.network.subnets.public) in
      let private = join "," (dry_run_ids_from "priv" 0 cl.network.subnets.private) in
      let path = if is_bnk_pattern cl then dry_path aws cl cl.network.data_path else pure tt in
      >>-Keeps outside (set_key "PUBLIC_SUBNETS" public) (set_key "PRIVATE_SUBNETS" private >> path)
        (set_key-Keeps "PUBLIC_SUBNETS" public)
        (>>-Keeps outside (set_key "PRIVATE_SUBNETS" private) path
          (set_key-Keeps "PRIVATE_SUBNETS" private)
          (if-Keeps outside (is_bnk_pattern cl) (dry_path aws cl cl.network.data_path) (pure tt)
            (path_dry cl cl.network.data_path) (λ w. refl)))

  subnets_dry : Keeps outside (phase03_subnets aws true)
  unfolding phase03_subnets
  subnets_dry = guarded "VPC_ID" (λ cl v. subnets_for aws cl true v) (λ cl v. subnets_dry_of cl)

  -- A dry run of the phases 02 to 05 changes neither the cloud nor the file of ids, whatever the
  -- state of the run and whether it succeeds or not.
  pub phases_dry_run :
      (w : World S)
      → (outside (phase02_vpc aws true w).1 ≡ outside w)
        × (outside (phase03_subnets aws true w).1 ≡ outside w)
        × (outside (phase04_igw aws true w).1 ≡ outside w)
        × (outside (phase05_nat aws true w).1 ≡ outside w)
  phases_dry_run w = (vpc_dry w, subnets_dry w, igw_dry w, nat_dry w)
