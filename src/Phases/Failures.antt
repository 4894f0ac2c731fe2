-- ===== src/Phases/Failures.antt =====
-- A phase of the network that fails.
pub mod Nat
pub mod Subnets
pub mod Network
use awsbnkctl.Base.{
  ◌≡◌, refl, ℕ, suc, String, Bool, true, false, Option, none, some, List, [], ◌∷◌, if◌then◌else◌,
  join, is_empty, not, null, show_nat,
}
use awsbnkctl.Intent.Schema.{Cluster, DataPathSpec, SubnetSpec}
use awsbnkctl.Intent.Pattern.{is_bnk_pattern, has_internal_interface}
use awsbnkctl.Tags.{required, merge, cluster_filter}
use awsbnkctl.Phases.{
  Aws, World, Action, PhaseError, err, Reply, dns_support, dns_hostnames, pure, ◌>>=◌, ◌>>◌, gets,
  get_key, set_key, call, require_key, check_auth_or_die, save_state,
}
use awsbnkctl.Phases.Safe.{
  Keeps, FailsSafely, Keeps-FailsSafely, if-Keeps, if-FailsSafely, >>=-Keeps, >>-Keeps,
  >>=-FailsSafely, >>-FailsSafely, file_of, set_key-Keeps_file, require_key-Keeps_file,
  call-Keeps_file, check_auth_or_die-Keeps_file, save_state-FailsSafely,
}
use awsbnkctl.Phases.Vpc.{
  phase02_vpc, vpc_for, vpc_found, vpc_tags, create_vpc_of, find_vpc_by_tag, find_vpcs_by_tag,
  present_ids, first_or_empty,
}
use awsbnkctl.Phases.Gateway.{
  phase04_igw, igw_for, provide_igw, igw_or_new, igw_tags, first_igw, first_attached, attach_unless,
  ensure_igw_attached, find_igw_by_tag,
}

module _ {S : Type 0} (aws : Aws S) where
  -- An id is recorded, and the state is saved.
  saved_key : (key v : String) → FailsSafely file_of (set_key key v >> save_state aws)
  saved_key key v =
      >>-FailsSafely file_of (set_key key v) (save_state aws) (set_key-Keeps_file key v)
        (save_state-FailsSafely aws)

  -- An action behind the session check, the configuration and an id that an earlier phase records.
  guarded :
      (key : String) (f : Cluster → String → Action S Unit)
      → ((cl : Cluster) (v : String) → FailsSafely file_of (f cl v))
      → FailsSafely file_of (
          check_auth_or_die aws >>= λ u.
          gets (λ w. w.cluster) >>= λ cl. require_key key >>= λ v. f cl v)
  guarded key f k =
      >>=-FailsSafely file_of (check_auth_or_die aws)
        (λ u. gets (λ w. w.cluster) >>= λ cl. require_key key >>= λ v. f cl v)
        (check_auth_or_die-Keeps_file aws)
        (λ u.
          >>=-FailsSafely file_of (gets (λ w. w.cluster)) (λ cl. require_key key >>= λ v. f cl v)
            (λ w. refl)
            (λ cl.
              >>=-FailsSafely file_of (require_key key) (f cl) (require_key-Keeps_file key) (k cl)))

  -- A call whose result is read off.
  read-Keeps :
      {A B : Type 0} (name : String) (f : S → Reply A × S) (g : A → B)
      → Keeps file_of (call name f >>= λ out. pure (g out))
  read-Keeps name f g =
      >>=-Keeps file_of (call name f) (λ out. pure (g out)) (call-Keeps_file name f) (λ out w. refl)

  find_vpc-Keeps : (name : String) → Keeps file_of (find_vpc_by_tag aws name)
  unfolding find_vpc_by_tag find_vpcs_by_tag
  find_vpc-Keeps name =
      let f = aws.describe_vpcs (cluster_filter name ∷ []) in
      >>=-Keeps file_of (call "DescribeVpcs" f >>= λ out. pure (present_ids out))
        (λ ids. pure (first_or_empty ids)) (read-Keeps "DescribeVpcs" f present_ids) (λ ids w. refl)

  create_vpc_fails : (cl : Cluster) → FailsSafely file_of (create_vpc_of aws cl)
  unfolding create_vpc_of
  create_vpc_fails cl =
      >>=-FailsSafely file_of
        (call "CreateVpc" (aws.create_vpc cl.network.vpc_cidr (vpc_tags aws cl))) _
        (call-Keeps_file "CreateVpc" (aws.create_vpc cl.network.vpc_cidr (vpc_tags aws cl)))
        (λ vpc.
          >>-FailsSafely file_of
            (call "ModifyVpcAttribute" (aws.modify_vpc_attribute vpc dns_support)) _
            (call-Keeps_file "ModifyVpcAttribute" (aws.modify_vpc_attribute vpc dns_support))
            (>>-FailsSafely file_of
              (call "ModifyVpcAttribute" (aws.modify_vpc_attribute vpc dns_hostnames)) _
              (call-Keeps_file "ModifyVpcAttribute" (aws.modify_vpc_attribute vpc dns_hostnames))
              (saved_key "VPC_ID" vpc)))

  vpc_found_fails : (cl : Cluster) (id : String) → FailsSafely file_of (vpc_found aws cl id)
  vpc_found_fails cl id =
      if-FailsSafely file_of (not (is_empty id)) (set_key "VPC_ID" id >> save_state aws)
        (create_vpc_of aws cl) (saved_key "VPC_ID" id) (create_vpc_fails cl)

  vpc_for_fails : (cl : Cluster) (dry : Bool) → FailsSafely file_of (vpc_for aws cl dry)
  vpc_for_fails cl true =
      Keeps-FailsSafely file_of (set_key "VPC_ID" "dry-run-vpc")
        (set_key-Keeps_file "VPC_ID" "dry-run-vpc")
  vpc_for_fails cl false =
      >>=-FailsSafely file_of (find_vpc_by_tag aws cl.metadata.name) (vpc_found aws cl)
        (find_vpc-Keeps cl.metadata.name) (vpc_found_fails cl)

  vpc_fails : (dry : Bool) → FailsSafely file_of (phase02_vpc aws dry)
  unfolding phase02_vpc
  vpc_fails dry =
      >>=-FailsSafely file_of (check_auth_or_die aws)
        (λ u. gets (λ w. w.cluster) >>= λ cl. vpc_for aws cl dry) (check_auth_or_die-Keeps_file aws)
        (λ u.
          >>=-FailsSafely file_of (gets (λ w. w.cluster)) (λ cl. vpc_for aws cl dry) (λ w. refl)
            (λ cl. vpc_for_fails cl dry))

  find_igw-Keeps : (name : String) → Keeps file_of (find_igw_by_tag aws name)
  unfolding find_igw_by_tag
  find_igw-Keeps name =
      read-Keeps "DescribeInternetGateways"
        (aws.describe_internet_gateways (cluster_filter name ∷ [])) first_igw

  igw_or_new-Keeps : (cl : Cluster) (id : String) → Keeps file_of (igw_or_new aws cl id)
  igw_or_new-Keeps cl id =
      if-Keeps file_of (not (is_empty id)) (pure id)
        (call "CreateInternetGateway" (aws.create_internet_gateway (igw_tags aws cl))) (λ w. refl)
        (call-Keeps_file "CreateInternetGateway" (aws.create_internet_gateway (igw_tags aws cl)))

  attach-Keeps : (igw vpc : String) → Keeps file_of (ensure_igw_attached aws igw vpc)
  unfolding ensure_igw_attached
  attach-Keeps igw vpc =
      let f =
        aws.describe_internet_gateways
          (record { name = "internet-gateway-id"; values = igw ∷ [] } ∷ []) in
      >>=-Keeps file_of (call "DescribeInternetGateways" f)
        (λ out. attach_unless aws igw vpc (first_attached vpc out))
        (call-Keeps_file "DescribeInternetGateways" f)
        (λ out.
          if-Keeps file_of (first_attached vpc out) (pure tt)
            (call "AttachInternetGateway" (aws.attach_internet_gateway igw vpc)) (λ w. refl)
            (call-Keeps_file "AttachInternetGateway" (aws.attach_internet_gateway igw vpc)))

  provide_igw_fails : (cl : Cluster) (vpc : String) → FailsSafely file_of (provide_igw aws cl vpc)
  unfolding provide_igw
  provide_igw_fails cl vpc =
      >>=-FailsSafely file_of (find_igw_by_tag aws cl.metadata.name) _
        (find_igw-Keeps cl.metadata.name)
        (λ old. >>=-FailsSafely file_of (igw_or_new aws cl old) _ (igw_or_new-Keeps cl old) (λ igw.
          >>-FailsSafely file_of (ensure_igw_attached aws igw vpc) _ (attach-Keeps igw vpc)
            (saved_key "IGW_ID" igw)))

  igw_for_fails :
      (cl : Cluster) (dry : Bool) (vpc : String) → FailsSafely file_of (igw_for aws cl dry vpc)
  igw_for_fails cl true vpc =
      Keeps-FailsSafely file_of (set_key "IGW_ID" "dry-run-igw")
        (set_key-Keeps_file "IGW_ID" "dry-run-igw")
  igw_for_fails cl false vpc = provide_igw_fails cl vpc

  igw_fails : (dry : Bool) → FailsSafely file_of (phase04_igw aws dry)
  unfolding phase04_igw
  igw_fails dry = guarded "VPC_ID" (λ cl v. igw_for aws cl dry v) (λ cl v. igw_for_fails cl dry v)
