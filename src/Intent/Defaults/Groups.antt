-- ===== src/Intent/Defaults/Groups.antt =====
-- The cluster block of applyDefaults: the Kubernetes version and the node groups.
use awsbnkctl.Base.{
  String, Bool, ◌&&◌, not, none, some, List, [], ◌∷◌, map, ℤ, pos, ltb_ℤ, eqb_ℤ, if◌then◌else◌,
  or_else, or_else_ℤ, lookup, insert,
}
use awsbnkctl.Intent.Schema.{ClusterSpec, NodeGroupSpec, is_gpu}

abbrev pub default_kubernetes_version : String
default_kubernetes_version = "1.35"

-- One round of the loop over the node groups; `bnk` is IsBNKPattern of the cluster.
unfoldable pub default_group : Bool → NodeGroupSpec → NodeGroupSpec
default_group bnk ng =
    let quorum = not (is_gpu ng) && bnk in
    record ng {
      instance_type =
          or_else ng.instance_type
            (if is_gpu ng then "g5.2xlarge" else if bnk then "m6i.4xlarge" else "t3.medium");
      desired_size = or_else_ℤ ng.desired_size (if quorum then pos 3 else pos 1);
      min_size = or_else_ℤ ng.min_size (if quorum then pos 3 else pos 1);
      max_size = or_else_ℤ ng.max_size (if quorum then pos 4 else pos 2);
      disk_size = or_else_ℤ ng.disk_size (pos 50);
      capacity_type = or_else ng.capacity_type "on-demand";
    }

-- The key is written only where it is missing.
unfoldable pub with_role : List (String × String) → List (String × String)
with_role labels = elim (lookup "role" labels) [
  | none ↦ insert "role" "bnk" labels
  | some _ ↦ labels
]

abbrev pub at_least_3 : ℤ → ℤ
at_least_3 n = if eqb_ℤ n (pos 1) then pos 3 else n

-- The first node group of a BNK cluster, if it is no GPU group.
unfoldable pub default_first : NodeGroupSpec → NodeGroupSpec
default_first ng =
    let desired = at_least_3 ng.desired_size in
    record ng {
      labels = with_role ng.labels;
      desired_size = desired;
      min_size = at_least_3 ng.min_size;
      max_size = if ltb_ℤ ng.max_size desired then desired else ng.max_size;
    }

unfoldable pub default_head : Bool → List NodeGroupSpec → List NodeGroupSpec
default_head bnk [] = []
default_head bnk (ng ∷ ngs) = if bnk && not (is_gpu ng) then default_first ng ∷ ngs else ng ∷ ngs

unfoldable pub default_cluster_spec : Bool → ClusterSpec → ClusterSpec
unfolding default_group default_head default_first with_role
default_cluster_spec bnk cs = record cs {
  kubernetes_version = or_else cs.kubernetes_version default_kubernetes_version;
  node_groups = default_head bnk (map (default_group bnk) cs.node_groups);
}
