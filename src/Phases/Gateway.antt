-- ===== src/Phases/Gateway.antt =====
-- internal/aws/phases/phase04_igw.go: the internet gateway.
use awsbnkctl.Base.{
  String, Bool, false, ◌||◌, Option, none, some, List, [], ◌∷◌, is_empty, not, str_eq,
  if◌then◌else◌,
}
use awsbnkctl.Tags.{Tags, required, merge, cluster_filter}
use awsbnkctl.Intent.Schema.{Cluster}
use awsbnkctl.Phases.{
  Aws, Action, InternetGateway, pure, ◌>>=◌, ◌>>◌, gets, set_key, call, require_key,
  check_auth_or_die, save_state,
}

abbrev pub first_igw : List InternetGateway → String
first_igw [] = ""
first_igw (g ∷ gs) = g.igw_id

abbrev pub is_attached_to : String → List (Option String) → Bool
is_attached_to vpc [] = false
is_attached_to vpc (none ∷ ids) = is_attached_to vpc ids
is_attached_to vpc (some id ∷ ids) = str_eq id vpc || is_attached_to vpc ids

abbrev pub first_attached : String → List InternetGateway → Bool
first_attached vpc [] = false
first_attached vpc (g ∷ gs) = is_attached_to vpc g.attachments

module _ {S : Type 0} (aws : Aws S) where
  unfoldable pub find_igw_by_tag : String → Action S String
  unfolding call
  find_igw_by_tag cluster_name = do
    out ←
        call "DescribeInternetGateways"
          (aws.describe_internet_gateways (cluster_filter cluster_name ∷ []))
    pure (first_igw out)

  abbrev pub attach_unless : (igw vpc : String) → Bool → Action S Unit
  attach_unless igw vpc attached =
      if attached
      then pure tt
      else call "AttachInternetGateway" (aws.attach_internet_gateway igw vpc)

  unfoldable pub ensure_igw_attached : (igw vpc : String) → Action S Unit
  unfolding call
  ensure_igw_attached igw vpc = do
    out ← call "DescribeInternetGateways" (
        aws.describe_internet_gateways
          (record { name = "internet-gateway-id"; values = igw ∷ [] } ∷ []))
    attach_unless igw vpc (first_attached vpc out)

  abbrev pub igw_tags : Cluster → Tags
  igw_tags cl =
      merge aws.tag_order (required cl.metadata.name "igw" ∷ cl.tags ∷ cl.metadata.labels ∷ [])

  abbrev pub igw_or_new : Cluster → String → Action S String
  igw_or_new cl existing =
      if not (is_empty existing)
      then pure existing
      else call "CreateInternetGateway" (aws.create_internet_gateway (igw_tags cl))

  unfoldable pub provide_igw : Cluster → String → Action S Unit
  unfolding find_igw_by_tag call set_key save_state ensure_igw_attached
  provide_igw cl vpc = do
    existing ← find_igw_by_tag cl.metadata.name
    igw ← igw_or_new cl existing
    ensure_igw_attached igw vpc
    set_key "IGW_ID" igw
    save_state aws

  abbrev pub igw_for : Cluster → Bool → String → Action S Unit
  igw_for cl dry_run vpc = if dry_run then set_key "IGW_ID" "dry-run-igw" else provide_igw cl vpc

  unfoldable pub phase04_igw : Bool → Action S Unit
  unfolding check_auth_or_die require_key
  phase04_igw dry_run = do
    check_auth_or_die aws
    cl ← gets (λ w. w.cluster)
    vpc ← require_key "VPC_ID"
    igw_for cl dry_run vpc
