-- ===== src/Intent/Validate/Groups.antt =====
-- validateNodeGroups: purchasing options, taints, and the zones of GPU node groups.
pub mod Exact
pub mod Deny
use awsbnkctl.Base.{
  ℕ, String, Bool, true, false, ◌&&◌, ◌||◌, not, Option, none, some, List, [], ◌∷◌, ◌++◌, str_eq,
  is_empty, cut, split, trim_space, contains, lookup, insert, null, if◌then◌else◌,
}
use awsbnkctl.Platform.{Platform}
use awsbnkctl.Intent.Schema.{Cluster, ClusterSpec, NodeGroupSpec, NodeTaintSpec, is_gpu}
use awsbnkctl.Intent.Check.{
  Check, capacity_type_invalid, taint_effect_invalid, group_az_unknown, group_az_denied, pass, fail,
  fail_if, when, ◌>>◌, check_some, check_each,
}

abbrev pub Table : Type 0
Table = List (String × List String)

abbrev pub gpu_instance_az_deny : Table
gpu_instance_az_deny = ("ap-southeast-2", "ap-southeast-2b" ∷ []) ∷ []

-- A Go map read: the nil slice where the key is missing.
abbrev pub denied_in : Table → String → List String
denied_in t region = elim (lookup region t) [ none ↦ [] | some azs ↦ azs ]

-- `t[region] = append(t[region], azs...)`
abbrev pub append_to : String → List String → Table → Table
append_to region azs t = insert region (denied_in t region ++ azs) t

unfoldable pub add_azs : String → List String → Table → Table
add_azs region [] t = t
add_azs region (az ∷ azs) t =
    let az' = trim_space az in
    add_azs region azs (if is_empty az' then t else append_to region (az' ∷ []) t)

abbrev add_entry : Option (String × String) → Table → Table
add_entry none t = t
add_entry (some (region, azs)) t = add_azs (trim_space region) (split b',' azs) t

unfoldable pub add_entries : List String → Table → Table
add_entries [] t = t
add_entries (entry ∷ entries) t = add_entries entries (add_entry (cut b':' (trim_space entry)) t)

unfoldable pub parse_gpu_az_deny_env : String → Table
parse_gpu_az_deny_env val = add_entries (split b';' val) []

-- `for r, azs := range entries { t[r] = append(t[r], azs...) }`
unfoldable pub merge_into : Table → Table → Table
merge_into [] t = t
merge_into ((r, azs) ∷ entries) t = merge_into entries (append_to r azs t)

unfoldable pub deny_table : String → Table
deny_table env =
    if is_empty env
    then gpu_instance_az_deny
    else merge_into (parse_gpu_az_deny_env env) (merge_into gpu_instance_az_deny [])

abbrev pub valid_capacity : String → Bool
valid_capacity t = is_empty t || str_eq t "on-demand" || str_eq t "spot"

abbrev pub valid_effect : String → Bool
valid_effect e = str_eq e "NoSchedule" || str_eq e "NoExecute" || str_eq e "PreferNoSchedule"

unfoldable pub check_taint : ℕ → String → ℕ → NodeTaintSpec → Check
check_taint i name j taint =
    fail_if (not (valid_effect taint.effect)) (taint_effect_invalid i name j taint.effect)

unfoldable pub available : List String → List String → List String
available denied [] = []
available denied (az ∷ azs) =
    let rest = available denied azs in if contains denied az then rest else az ∷ rest

-- One zone of a GPU node group.
unfoldable pub check_pin : List String → List String → String → ℕ → String → ℕ → String → Check
check_pin azs denied region i name j az =
    fail_if (not (contains azs az)) (group_az_unknown i name az azs)
    >> fail_if (contains denied az) (group_az_denied i name az region (available denied azs))

unfoldable pub check_group : List String → List String → String → ℕ → NodeGroupSpec → Check
check_group azs denied region i ng =
    fail_if (not (valid_capacity ng.capacity_type))
      (capacity_type_invalid i ng.name ng.capacity_type)
    >> check_each (check_taint i ng.name) 0 ng.taints
    >> when (is_gpu ng && not (null ng.azs))
        (check_each (check_pin azs denied region i ng.name) 0 ng.azs)

unfoldable pub validate_node_groups : Platform → Cluster → Check
validate_node_groups p c =
    let region = c.metadata.region in
    let denied = denied_in (deny_table (p.getenv "AWSBNKCTL_GPU_AZ_DENY")) region in
    check_some c.cluster_spec
      (λ cs. check_each (check_group c.network.azs denied region) 0 cs.node_groups)
