-- ===== src/Phases/Failures/Subnets.antt =====
-- Phase 03 when it fails.
use Prim.Native.String
use awsbnkctl.Base.{
  ℕ, suc, refl, ap, String, Bool, true, false, Option, none, some, List, [], ◌∷◌, is_empty, not,
  if◌then◌else◌, join, null, show_nat,
}
use awsbnkctl.Intent.Schema.{Cluster, DataPathSpec, SubnetSpec}
use awsbnkctl.Intent.Pattern.{is_bnk_pattern, has_internal_interface}
use awsbnkctl.Tags.{cluster_filter}
use awsbnkctl.Cache.{Opened}
use awsbnkctl.Phases.{Aws, pure, ◌>>=◌, ◌>>◌, gets, set_key, call, save_state}
use awsbnkctl.Phases.Safe.{
  Keeps, FailsSafely, if-Keeps, >>=-Keeps, >>-Keeps, >>=-FailsSafely, >>-FailsSafely, file_of,
  set_key-Keeps_file, call-Keeps_file, save_state-FailsSafely,
}
use awsbnkctl.Phases.Subnets.{
  phase03_subnets, subnets_for, provide_subnets, record_subnets, both_subnets, record_azs,
  path_subnets, internal_subnet, ensure_data_path_subnet, provision_subnets, subnet_or_new,
  map_public_ip, subnet_tags, find_subnet_by_cidr, resolve_cluster_azs, first_subnet,
}
use awsbnkctl.Phases.DryRun.{subnets_dry_of}
use awsbnkctl.Phases.Failures.{guarded, read-Keeps}

module _ {S : Type 0} (aws : Aws S) where
  resolve-Keeps : Keeps file_of (resolve_cluster_azs aws)
  unfolding resolve_cluster_azs
  resolve-Keeps w = refl

  find-Keeps : (name vpc cidr : String) → Keeps file_of (find_subnet_by_cidr aws name vpc cidr)
  unfolding find_subnet_by_cidr
  find-Keeps name vpc cidr =
      read-Keeps aws "DescribeSubnets"
        (aws.describe_subnets (
          cluster_filter name
          ∷ record { name = "vpc-id"; values = vpc ∷ [] }
          ∷ record { name = "cidrBlock"; values = cidr ∷ [] }
          ∷ []))
        first_subnet

  map-Keeps : (public : Bool) (id : String) → Keeps file_of (map_public_ip aws public id)
  map-Keeps public id =
      if-Keeps file_of public (call "ModifySubnetAttribute" (aws.modify_subnet_attribute id))
        (pure tt) (call-Keeps_file "ModifySubnetAttribute" (aws.modify_subnet_attribute id))
        (λ w. refl)

  new-Keeps :
      (cl : Cluster) (vpc component name : String) (public : Bool) (spec : SubnetSpec)
      (old : String)
      → Keeps file_of (subnet_or_new aws cl vpc component name public spec old)
  new-Keeps cl vpc component name public spec old =
      let f = aws.create_subnet vpc spec.cidr spec.az (subnet_tags aws cl component name) in
      if-Keeps file_of (not (is_empty old)) (pure old)
        (call "CreateSubnet" f >>= λ id. map_public_ip aws public id >> pure id) (λ w. refl)
        (>>=-Keeps file_of (call "CreateSubnet" f) (λ id. map_public_ip aws public id >> pure id)
          (call-Keeps_file "CreateSubnet" f)
          (λ id.
            >>-Keeps file_of (map_public_ip aws public id) (pure id) (map-Keeps public id)
              (λ w. refl)))

  provision-Keeps :
      (cl : Cluster) (vpc component : String) (public : Bool) (i : ℕ) (specs : List SubnetSpec)
      → Keeps file_of (provision_subnets aws cl vpc component public i specs)
  unfolding provision_subnets
  provision-Keeps cl vpc component public i [] = λ w. refl
  provision-Keeps cl vpc component public i (spec ∷ specs) =
      let name = String.◌++◌ component (String.◌++◌ "-" (show_nat (suc i))) in
      >>=-Keeps file_of (find_subnet_by_cidr aws cl.metadata.name vpc spec.cidr) _
        (find-Keeps cl.metadata.name vpc spec.cidr)
        (λ old.
          >>=-Keeps file_of (subnet_or_new aws cl vpc component name public spec old) _
            (new-Keeps cl vpc component name public spec old)
            (λ id.
              >>=-Keeps file_of (provision_subnets aws cl vpc component public (suc i) specs)
                (λ ids. pure (id ∷ ids)) (provision-Keeps cl vpc component public (suc i) specs)
                (λ ids w. refl)))

  ensure-Keeps :
      (cl : Cluster) (vpc : String) (spec : SubnetSpec) (component : String)
      → Keeps file_of (ensure_data_path_subnet aws cl vpc spec component)
  unfolding ensure_data_path_subnet
  ensure-Keeps cl vpc spec component =
      >>=-Keeps file_of (find_subnet_by_cidr aws cl.metadata.name vpc spec.cidr)
        (subnet_or_new aws cl vpc component component false spec)
        (find-Keeps cl.metadata.name vpc spec.cidr)
        (new-Keeps cl vpc component component false spec)

  recorded-Keeps :
      (cl : Cluster) (vpc : String) (spec : SubnetSpec) (component key : String)
      → Keeps file_of (ensure_data_path_subnet aws cl vpc spec component >>= set_key key)
  recorded-Keeps cl vpc spec component key =
      >>=-Keeps file_of (ensure_data_path_subnet aws cl vpc spec component) (set_key key)
        (ensure-Keeps cl vpc spec component) (set_key-Keeps_file key)

  path-Keeps :
      (cl : Cluster) (vpc : String) (dp : Option DataPathSpec)
      → Keeps file_of (path_subnets aws cl vpc dp)
  path-Keeps cl vpc none = λ w. refl
  path-Keeps cl vpc (some dp) =
      let inner =
        ensure_data_path_subnet aws cl vpc dp.internal "subnet-bnk-int"
        >>= set_key "BNK_INT_SUBNET" in
      >>-Keeps file_of
        (ensure_data_path_subnet aws cl vpc dp.external "subnet-bnk-ext"
          >>= set_key "BNK_EXT_SUBNET")
        (internal_subnet aws cl vpc dp)
        (recorded-Keeps cl vpc dp.external "subnet-bnk-ext" "BNK_EXT_SUBNET")
        (if-Keeps file_of (has_internal_interface cl) inner (pure tt)
          (recorded-Keeps cl vpc dp.internal "subnet-bnk-int" "BNK_INT_SUBNET") (λ w. refl))

  record_azs-Keeps : (cl : Cluster) → Keeps file_of (record_azs aws cl)
  record_azs-Keeps cl =
      let zones = join "," cl.network.azs in
      if-Keeps file_of (null cl.network.azs) (pure tt) (set_key "ACTIVE_AZS" zones) (λ w. refl)
        (set_key-Keeps_file "ACTIVE_AZS" zones)

  record_fails :
      (cl : Cluster) (vpc : String) (pubs privs : List String)
      → FailsSafely file_of (record_subnets aws cl vpc pubs privs)
  unfolding record_subnets
  record_fails cl vpc pubs privs =
      let path =
        if is_bnk_pattern cl then path_subnets aws cl vpc cl.network.data_path else pure tt in
      >>-FailsSafely file_of (set_key "PUBLIC_SUBNETS" (join "," pubs))
        (set_key "PRIVATE_SUBNETS" (join "," privs) >> (path >> save_state aws))
        (set_key-Keeps_file "PUBLIC_SUBNETS" (join "," pubs))
        (>>-FailsSafely file_of (set_key "PRIVATE_SUBNETS" (join "," privs))
          (path >> save_state aws) (set_key-Keeps_file "PRIVATE_SUBNETS" (join "," privs))
          (>>-FailsSafely file_of path (save_state aws)
            (if-Keeps file_of (is_bnk_pattern cl) (path_subnets aws cl vpc cl.network.data_path)
              (pure tt) (path-Keeps cl vpc cl.network.data_path) (λ w. refl))
            (save_state-FailsSafely aws)))

  both_fail : (cl : Cluster) (vpc : String) → FailsSafely file_of (both_subnets aws cl vpc)
  unfolding both_subnets
  both_fail cl vpc =
      let pub_specs = cl.network.subnets.public in
      let priv_specs = cl.network.subnets.private in
      >>=-FailsSafely file_of (provision_subnets aws cl vpc "subnet-public" true 0 pub_specs)
        (λ pubs. provision_subnets aws cl vpc "subnet-private" false 0 priv_specs >>= λ privs.
          record_subnets aws cl vpc pubs privs)
        (provision-Keeps cl vpc "subnet-public" true 0 pub_specs)
        (λ pubs.
          >>=-FailsSafely file_of (provision_subnets aws cl vpc "subnet-private" false 0 priv_specs)
            (λ privs. record_subnets aws cl vpc pubs privs)
            (provision-Keeps cl vpc "subnet-private" false 0 priv_specs)
            (λ privs. record_fails cl vpc pubs privs))

  active_fails :
      (cl : Cluster) (vpc : String)
      → FailsSafely file_of (record_azs aws cl >> both_subnets aws cl vpc)
  active_fails cl vpc =
      >>-FailsSafely file_of (record_azs aws cl) (both_subnets aws cl vpc) (record_azs-Keeps cl)
        (both_fail cl vpc)

  provide_fails : (vpc : String) → FailsSafely file_of (provide_subnets aws vpc)
  unfolding provide_subnets
  provide_fails vpc =
      >>-FailsSafely file_of (resolve_cluster_azs aws)
        (gets (λ w. w.cluster) >>= λ cl. record_azs aws cl >> both_subnets aws cl vpc) resolve-Keeps
        (λ w e h. active_fails w.cluster vpc w e h)

  for_fails :
      (cl : Cluster) (dry : Bool) (v : String) → FailsSafely file_of (subnets_for aws cl dry v)
  for_fails cl true v w e h = ap (λ (p : S × Opened × Opened). p.1) (subnets_dry_of aws cl w)
  for_fails cl false v w e h = provide_fails v w e h

  pub subnets_fails : (dry : Bool) → FailsSafely file_of (phase03_subnets aws dry)
  unfolding phase03_subnets
  subnets_fails dry =
      guarded aws "VPC_ID" (λ cl v. subnets_for aws cl dry v) (λ cl v. for_fails cl dry v)
