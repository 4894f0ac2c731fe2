-- ===== src/Phases/Vpc.antt =====
-- internal/aws/phases/phase02_vpc.go: the VPC.
use awsbnkctl.Base.{String, Bool, Option, none, some, List, [], ◌∷◌, is_empty, not, if◌then◌else◌}
use awsbnkctl.Tags.{Tags, required, merge, cluster_filter}
use awsbnkctl.Intent.Schema.{Cluster}
use awsbnkctl.Phases.{
  Aws, Action, pure, ◌>>=◌, ◌>>◌, gets, set_key, call, check_auth_or_die, save_state, dns_support,
  dns_hostnames,
}

-- The ids that are there and not empty.
abbrev pub present_ids : List (Option String) → List String
present_ids [] = []
present_ids (none ∷ ids) = present_ids ids
present_ids (some id ∷ ids) = if is_empty id then present_ids ids else id ∷ present_ids ids

abbrev pub first_or_empty : List String → String
first_or_empty [] = ""
first_or_empty (id ∷ ids) = id

module _ {S : Type 0} (aws : Aws S) where
  unfoldable pub find_vpcs_by_tag : String → Action S (List String)
  unfolding call
  find_vpcs_by_tag cluster_name = do
    out ← call "DescribeVpcs" (aws.describe_vpcs (cluster_filter cluster_name ∷ []))
    pure (present_ids out)

  unfoldable pub find_vpc_by_tag : String → Action S String
  unfolding find_vpcs_by_tag
  find_vpc_by_tag cluster_name = do ids ← find_vpcs_by_tag cluster_name; pure (first_or_empty ids)

  -- The tags of the VPC.
  abbrev pub vpc_tags : Cluster → Tags
  vpc_tags cl =
      merge aws.tag_order (required cl.metadata.name "vpc" ∷ cl.tags ∷ cl.metadata.labels ∷ [])

  unfoldable pub create_vpc_of : Cluster → Action S Unit
  unfolding call set_key save_state
  create_vpc_of cl = do
    vpc_id ← call "CreateVpc" (aws.create_vpc cl.network.vpc_cidr (vpc_tags cl))
    call "ModifyVpcAttribute" (aws.modify_vpc_attribute vpc_id dns_support)
    call "ModifyVpcAttribute" (aws.modify_vpc_attribute vpc_id dns_hostnames)
    set_key "VPC_ID" vpc_id
    save_state aws

  abbrev pub vpc_found : Cluster → String → Action S Unit
  vpc_found cl existing =
      if not (is_empty existing)
      then set_key "VPC_ID" existing >> save_state aws
      else create_vpc_of cl

  abbrev pub vpc_for : Cluster → Bool → Action S Unit
  vpc_for cl dry_run =
      if dry_run
      then set_key "VPC_ID" "dry-run-vpc"
      else (find_vpc_by_tag cl.metadata.name >>= vpc_found cl)

  unfoldable pub phase02_vpc : Bool → Action S Unit
  unfolding check_auth_or_die
  phase02_vpc dry_run = do check_auth_or_die aws; cl ← gets (λ w. w.cluster); vpc_for cl dry_run
