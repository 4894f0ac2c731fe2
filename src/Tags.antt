-- ===== src/Tags.antt =====
-- internal/aws/tags/tags.go: the tags of every AWS resource. A Go map is an association list in
-- which a key stands once; the SDK's tag types are pairs of a key and a value.
pub mod Merging
use Prim.Native.String
use awsbnkctl.Base.{String, Option, none, some, List, [], ◌∷◌, lookup, insert}

abbrev pub Tags : Type 0
Tags = List (String × String)

abbrev pub key_cluster : String
key_cluster = "awsbnkctl:cluster"

abbrev pub key_component : String
key_component = "awsbnkctl:component"

abbrev pub key_managed : String
key_managed = "awsbnkctl:managed"

abbrev pub key_name : String
key_name = "Name"

-- The values of the component tag.
abbrev pub components : List String
components =
    "vpc" ∷ "subnet-public" ∷ "subnet-private" ∷ "igw" ∷ "nat" ∷ "eip" ∷ "rtb" ∷ "iam-cluster-role"
    ∷ "iam-node-role" ∷ "iam-node-profile" ∷ "eks-cluster" ∷ "eks-nodegroup" ∷ "subnet-bnk-ext"
    ∷ "subnet-bnk-int" ∷ "sg-bnk-data" ∷ "launch-template" ∷ "eni-internal" ∷ "eni-external"
    ∷ "oidc-provider" ∷ "irsa-cne-controller" ∷ "jumphost-sg" ∷ "jumphost-instance"
    ∷ "jumphost-eni-bnk-ext" ∷ "jumphost-eice" ∷ "jumphost-iam-role" ∷ "jumphost-instance-profile"
    ∷ "bigip-ve-instance" ∷ "bigip-ve-eni-mgmt" ∷ "bigip-ve-eni-ext" ∷ "bigip-ve-eni-int"
    ∷ "bigip-ve-sg-mgmt" ∷ "sagemaker-lmi-endpoint" ∷ "sagemaker-execution-role"
    ∷ "lb-controller-iam-policy" ∷ "lb-controller-irsa-role" ∷ []

unfoldable pub required : String → String → Tags
required cluster_name component =
    (key_cluster, cluster_name)
    ∷ (key_component, component)
    ∷ (key_managed, "true")
    ∷ (key_name, String.◌++◌ cluster_name (String.◌++◌ "-" component))
    ∷ []

-- `for k, v := range m { merged[k] = v }`
unfoldable pub copy_into : Tags → Tags → Tags
copy_into [] merged = merged
copy_into ((k, v) ∷ m) merged = copy_into m (insert k v merged)

unfoldable pub merged_from : Tags → List Tags → Tags
merged_from merged [] = merged
merged_from merged (m ∷ maps) = merged_from (copy_into m merged) maps

-- EKSTags
unfoldable pub eks_tags : List Tags → Tags
eks_tags maps = merged_from [] maps

-- Merge and IAMTags list the same map, in the order in which Go visits it.
unfoldable pub merge : (Tags → Tags) → List Tags → Tags
merge order maps = order (merged_from [] maps)

-- An EC2 filter: its name and its values.
pub record Filter : Type 0 where
  pub name : String
  pub values : List String

unfoldable pub filter_for : String → String → Filter
filter_for key value = record { name = String.◌++◌ "tag:" key; values = value ∷ [] }

unfoldable pub cluster_filter : String → Filter
unfolding filter_for
cluster_filter cluster_name = filter_for key_cluster cluster_name

unfoldable pub component_filter : String → Filter
unfolding filter_for
component_filter component = filter_for key_component component
