-- ===== src/Phases/Subnets.antt =====
-- internal/aws/phases/phase03_subnets.go: the zones that are used, and the subnets.
pub mod Zones
pub mod Placed
use Prim.Native.String
use awsbnkctl.Base.{
  ℕ, suc, String, Bool, true, false, Option, none, some, List, [], ◌∷◌, length, is_empty, not, join,
  show_nat, null, if◌then◌else◌,
}
use awsbnkctl.Tags.{Tags, Filter, key_name, required, merge, cluster_filter}
use awsbnkctl.Intent.Schema.{Cluster, SubnetSpec, DataPathSpec}
use awsbnkctl.Intent.Pattern.{is_bnk_pattern, has_internal_interface}
use awsbnkctl.Phases.{
  Aws, World, Action, Result, Reply, reply, api_error, pure, ◌>>=◌, ◌>>◌, gets, set_key, call,
  require_key, check_auth_or_die, save_state,
}
use awsbnkctl.Phases.Subnets.Zones.{resolve_zones}

abbrev pub first_subnet : List String → String
first_subnet [] = ""
first_subnet (id ∷ ids) = id

-- makeDryRunSubnetIDs
abbrev pub dry_run_ids_from : String → ℕ → List SubnetSpec → List String
dry_run_ids_from label i [] = []
dry_run_ids_from label i (spec ∷ specs) =
    String.◌++◌ "dry-run-subnet-" (String.◌++◌ label (String.◌++◌ "-" (show_nat (suc i))))
    ∷ dry_run_ids_from label (suc i) specs

module _ {S : Type 0} (aws : Aws S) where
  unfoldable pub resolve_cluster_azs : Action S Unit
  unfolding resolve_zones
  resolve_cluster_azs w =
      let (r, s) =
        aws.describe_availability_zones
          (record { name = "state"; values = "available" ∷ [] }
            ∷ record { name = "opt-in-status"; values = "opt-in-not-required" ∷ "opted-in" ∷ [] }
            ∷ [])
          w.cloud in
      (Result.ok tt, record w { cloud = s; cluster = resolve_zones r w.cluster })

  unfoldable pub find_subnet_by_cidr : (cluster_name vpc cidr : String) → Action S String
  unfolding call
  find_subnet_by_cidr cluster_name vpc cidr = do
    out ← call "DescribeSubnets" (
        aws.describe_subnets (
          cluster_filter cluster_name
          ∷ record { name = "vpc-id"; values = vpc ∷ [] }
          ∷ record { name = "cidrBlock"; values = cidr ∷ [] }
          ∷ []))
    pure (first_subnet out)

  abbrev pub subnet_tags : Cluster → (component name : String) → Tags
  subnet_tags cl component name = merge aws.tag_order (
      required cl.metadata.name component
      ∷ ((key_name, String.◌++◌ cl.metadata.name (String.◌++◌ "-" name)) ∷ [])
      ∷ cl.tags
      ∷ cl.metadata.labels
      ∷ [])

  abbrev pub map_public_ip : Bool → String → Action S Unit
  map_public_ip public id =
      if public then call "ModifySubnetAttribute" (aws.modify_subnet_attribute id) else pure tt

  abbrev pub subnet_or_new :
      Cluster → (vpc component name : String) → Bool → SubnetSpec → String → Action S String
  subnet_or_new cl vpc component name public spec existing =
      if not (is_empty existing) then pure existing else do
        id ←
            call "CreateSubnet"
              (aws.create_subnet vpc spec.cidr spec.az (subnet_tags cl component name))
        map_public_ip public id
        pure id

  -- provisionSubnets from the index `i` on, without a dry run, which has returned before.
  unfoldable pub provision_subnets :
      Cluster → (vpc component : String) → Bool → ℕ → List SubnetSpec → Action S (List String)
  unfolding find_subnet_by_cidr call
  provision_subnets cl vpc component public i [] = pure []
  provision_subnets cl vpc component public i (spec ∷ specs) =
      let later = provision_subnets cl vpc component public (suc i) specs in
      let name = String.◌++◌ component (String.◌++◌ "-" (show_nat (suc i))) in
      do
        existing ← find_subnet_by_cidr cl.metadata.name vpc spec.cidr
        id ← subnet_or_new cl vpc component name public spec existing
        ids ← later
        pure (id ∷ ids)

  unfoldable pub ensure_data_path_subnet :
      Cluster → (vpc : String) → SubnetSpec → (component : String) → Action S String
  unfolding find_subnet_by_cidr call
  ensure_data_path_subnet cl vpc spec component = do
    existing ← find_subnet_by_cidr cl.metadata.name vpc spec.cidr
    subnet_or_new cl vpc component component false spec existing

  abbrev pub internal_subnet : Cluster → String → DataPathSpec → Action S Unit
  internal_subnet cl vpc dp =
      if has_internal_interface cl
      then ensure_data_path_subnet cl vpc dp.internal "subnet-bnk-int" >>= set_key "BNK_INT_SUBNET"
      else pure tt

  abbrev pub path_subnets : Cluster → String → Option DataPathSpec → Action S Unit
  path_subnets cl vpc none = pure tt
  path_subnets cl vpc (some dp) =
      (ensure_data_path_subnet cl vpc dp.external "subnet-bnk-ext" >>= set_key "BNK_EXT_SUBNET")
      >> internal_subnet cl vpc dp

  abbrev pub record_azs : Cluster → Action S Unit
  record_azs cl =
      if null cl.network.azs then pure tt else set_key "ACTIVE_AZS" (join "," cl.network.azs)

  unfoldable pub record_subnets :
      Cluster → (vpc : String) → (public private : List String) → Action S Unit
  unfolding set_key save_state ensure_data_path_subnet
  record_subnets cl vpc public private = do
    set_key "PUBLIC_SUBNETS" (join "," public)
    set_key "PRIVATE_SUBNETS" (join "," private)
    (if is_bnk_pattern cl then path_subnets cl vpc cl.network.data_path else pure tt)
    save_state aws

  unfoldable pub both_subnets : Cluster → (vpc : String) → Action S Unit
  unfolding provision_subnets record_subnets
  both_subnets cl vpc = do
    public ← provision_subnets cl vpc "subnet-public" true 0 cl.network.subnets.public
    private ← provision_subnets cl vpc "subnet-private" false 0 cl.network.subnets.private
    record_subnets cl vpc public private

  unfoldable pub provide_subnets : String → Action S Unit
  unfolding resolve_cluster_azs both_subnets set_key
  provide_subnets vpc = do
    resolve_cluster_azs
    cl ← gets (λ w. w.cluster)
    record_azs cl
    both_subnets cl vpc

  abbrev pub dry_internal : Cluster → Action S Unit
  dry_internal cl =
      if has_internal_interface cl
      then set_key "BNK_INT_SUBNET" "dry-run-subnet-bnk-int"
      else pure tt

  abbrev pub dry_path : Cluster → Option DataPathSpec → Action S Unit
  dry_path cl none = pure tt
  dry_path cl (some dp) = set_key "BNK_EXT_SUBNET" "dry-run-subnet-bnk-ext" >> dry_internal cl

  unfoldable pub dry_subnets : Cluster → Action S Unit
  unfolding set_key
  dry_subnets cl = do
    set_key "PUBLIC_SUBNETS" (join "," (dry_run_ids_from "pub" 0 cl.network.subnets.public))
    set_key "PRIVATE_SUBNETS" (join "," (dry_run_ids_from "priv" 0 cl.network.subnets.private))
    (if is_bnk_pattern cl then dry_path cl cl.network.data_path else pure tt)

  abbrev pub subnets_for : Cluster → Bool → String → Action S Unit
  subnets_for cl dry_run vpc = if dry_run then dry_subnets cl else provide_subnets vpc

  unfoldable pub phase03_subnets : Bool → Action S Unit
  unfolding check_auth_or_die require_key
  phase03_subnets dry_run = do
    check_auth_or_die aws
    cl ← gets (λ w. w.cluster)
    vpc ← require_key "VPC_ID"
    subnets_for cl dry_run vpc
