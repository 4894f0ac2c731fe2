-- ===== src/Intent/Validate/Groups/Exact.antt =====
-- What node groups must be for validateNodeGroups to accept them.
use mathlib.Core.List.{Mem}
use awsbnkctl.Base.{
  ℕ, ◌≡◌, ◌↔◌, ◌⊎◌, inl, inr, refl, String, Bool, true, false, ◌&&◌, not, List, [], ◌∷◌, arith, All,
  Bool-cases, eq_iff, contains, contains-Mem, Mem-contains, null,
}
use awsbnkctl.Platform.{Platform}
use awsbnkctl.Intent.Schema.{Cluster, ClusterSpec, NodeGroupSpec, NodeTaintSpec, is_gpu}
use awsbnkctl.Intent.Check.{Passes, ◌>>◌, fail_if, when, check_each, capacity_type_invalid}
use awsbnkctl.Intent.Check.Passing.{>>-Passes, check_some-Passes, check_each-Passes, OnSome}
use awsbnkctl.Intent.Validate.Groups.{
  valid_capacity, check_taint, check_pin, check_group, denied_in, deny_table, validate_node_groups,
}

abbrev pub IsCapacity : String → Type 0
IsCapacity t = (t ≡ "") ⊎ (t ≡ "on-demand") ⊎ (t ≡ "spot")

abbrev pub IsEffect : String → Type 0
IsEffect e = (e ≡ "NoSchedule") ⊎ (e ≡ "NoExecute") ⊎ (e ≡ "PreferNoSchedule")

-- A zone that the cluster has, with GPU capacity.
abbrev pub IsUsable : List String → List String → String → Type 0
IsUsable azs denied az = Mem az azs × ¬ Mem az denied

-- What is asked of a node group, in a cluster with these zones and these zones without GPUs.
abbrev pub IsSound : List String → List String → NodeGroupSpec → Type 0
IsSound azs denied ng =
    IsCapacity ng.capacity_type
    × All (λ (t : NodeTaintSpec). IsEffect t.effect) ng.taints
    × (is_gpu ng ≡ true → All (IsUsable azs denied) ng.azs)

IsCapacity-Passes :
    (i : ℕ) (name t : String)
    → Passes (fail_if (not (valid_capacity t)) (capacity_type_invalid i name t)) ↔ IsCapacity t
IsCapacity-Passes i name t = (
  λ h. grind (arith, eq_iff t "", eq_iff t "on-demand", eq_iff t "spot"),
  λ h. ground (arith, eq_iff t "", eq_iff t "on-demand", eq_iff t "spot"),
)

taint-Passes :
    (i : ℕ) (name : String) (j : ℕ) (t : NodeTaintSpec)
    → Passes (check_taint i name j t) ↔ IsEffect t.effect
unfolding check_taint
taint-Passes i name j t = (
  λ h. grind (
    arith,
    eq_iff t.effect "NoSchedule",
    eq_iff t.effect "NoExecute",
    eq_iff t.effect "PreferNoSchedule",
  ),
  λ h. ground (
    arith,
    eq_iff t.effect "NoSchedule",
    eq_iff t.effect "NoExecute",
    eq_iff t.effect "PreferNoSchedule",
  ),
)

pin-Passes :
    (azs denied : List String) (region : String) (i : ℕ) (name : String) (j : ℕ) (az : String)
    → Passes (check_pin azs denied region i name j az) ↔ IsUsable azs denied az
unfolding check_pin
pin-Passes azs denied region i name j az = (
  λ h. (contains-Mem azs az (ground arith), λ m. ground (arith, Mem-contains denied az m)),
  λ (m, n). elim (Bool-cases (contains denied az)) [
    | inl bad ↦ absurd (n (contains-Mem denied az bad))
    | inr good ↦ ground (arith, Mem-contains azs az m)
  ],
)

pins-Passes :
    (azs denied : List String) (region : String) (i : ℕ) (ng : NodeGroupSpec)
    → Passes (
        when
          (is_gpu ng && not (null ng.azs))
          (check_each (check_pin azs denied region i ng.name) 0 ng.azs))
      ↔ (is_gpu ng ≡ true → All (IsUsable azs denied) ng.azs)
pins-Passes azs denied region i ng =
    let each =
      check_each-Passes (check_pin azs denied region i ng.name)
        (pin-Passes azs denied region i ng.name) 0 in
    from ng.azs (is_gpu ng) (each ng.azs)
  where
    from :
        (pins : List String) (gpu : Bool)
        → Passes (check_each (check_pin azs denied region i ng.name) 0 pins)
          ↔ All (IsUsable azs denied) pins
        → Passes (
            when
              (gpu && not (null pins))
              (check_each (check_pin azs denied region i ng.name) 0 pins))
          ↔ (gpu ≡ true → All (IsUsable azs denied) pins)
    from pins false h = (λ _ e. cc, λ _. refl)
    from [] true h = (λ _ _. tt, λ _. refl)
    from (az ∷ pins) true h = (λ q _. h.0 q, λ q. h.1 (q refl))

group-Passes :
    (azs denied : List String) (region : String) (i : ℕ) (ng : NodeGroupSpec)
    → Passes (check_group azs denied region i ng) ↔ IsSound azs denied ng
unfolding check_group
group-Passes azs denied region i ng =
    let first =
      fail_if (not (valid_capacity ng.capacity_type))
        (capacity_type_invalid i ng.name ng.capacity_type) in
    let second = check_each (check_taint i ng.name) 0 ng.taints in
    let third =
      when (is_gpu ng && not (null ng.azs))
        (check_each (check_pin azs denied region i ng.name) 0 ng.azs) in
    let capacity = IsCapacity-Passes i ng.name ng.capacity_type in
    let taints = check_each-Passes (check_taint i ng.name) (taint-Passes i ng.name) 0 ng.taints in
    let pins = pins-Passes azs denied region i ng in
    let outer = >>-Passes (first >> second) third in
    let inner = >>-Passes first second in
    (
      λ h. (
        capacity.0 (inner.0 ((outer.0 h).0)).0,
        taints.0 (inner.0 ((outer.0 h).0)).1,
        pins.0 (outer.0 h).1,
      ),
      λ (c, t, p). outer.1 (inner.1 (capacity.1 c, taints.1 t), pins.1 p),
    )

-- The zones of the cluster's region that have no GPU capacity.
abbrev pub denied_zones : Platform → Cluster → List String
denied_zones p c = denied_in (deny_table (p.getenv "AWSBNKCTL_GPU_AZ_DENY")) c.metadata.region

-- The node groups are accepted exactly when each has a known purchasing option, known taint effects
-- and, if it is a GPU group, only zones of the cluster that are not denied in its region.
pub validate_node_groups_iff :
    (p : Platform) (c : Cluster)
    → Passes (validate_node_groups p c)
      ↔ OnSome
          (λ (cs : ClusterSpec). All (IsSound c.network.azs (denied_zones p c)) cs.node_groups)
          c.cluster_spec
unfolding validate_node_groups
validate_node_groups_iff p c =
    let check = check_group c.network.azs (denied_zones p c) c.metadata.region in
    check_some-Passes (λ cs. check_each check 0 cs.node_groups) c.cluster_spec
      (λ cs.
        check_each-Passes check (group-Passes c.network.azs (denied_zones p c) c.metadata.region) 0
          cs.node_groups)
