-- ===== src/Intent/Defaults/Idempotent.antt =====
-- applyDefaults changes nothing the second time.
use awsbnkctl.Base.{
  ℕ, suc, ◌≡◌, refl, ◌∙◌, inl, inr, String, Bool, true, false, Option, none, some, List, [], ◌∷◌,
  map, arith, Bool-cases, or_else, or_else_ℤ, or_else_idem, or_else_ℤ_idem, lookup-insert,
}
use awsbnkctl.Intent.Schema.{ClusterSpec, NodeGroupSpec, SubnetSpec, DataPathSpec, Network, is_gpu}
use awsbnkctl.Intent.Defaults.Addresses.{
  fill_azs, fill_data_path, spread, network_azs, default_network, network_self_ips, self_ips_of,
  all_subnet_azs_empty_or_auto,
}
use awsbnkctl.Intent.Defaults.Groups.{
  default_group, default_first, default_head, default_cluster_spec, with_role,
}

default_group_idem :
    (bnk : Bool) (ng : NodeGroupSpec)
    → default_group bnk (default_group bnk ng) ≡ default_group bnk ng
unfolding default_group
default_group_idem bnk ng = simp (or_else_idem, or_else_ℤ_idem)

with_role_idem : (labels : List (String × String)) → with_role (with_role labels) ≡ with_role labels
unfolding with_role
with_role_idem labels = ground (arith, lookup-insert "role" "role" "bnk" labels)

gpu_kept : (ng : NodeGroupSpec) → is_gpu (default_first (default_group true ng)) ≡ is_gpu ng
unfolding default_first default_group
gpu_kept ng = refl

first_group_idem :
    (ng : NodeGroupSpec)
    → is_gpu ng ≡ false
    → default_first (default_group true (default_first (default_group true ng)))
      ≡ default_first (default_group true ng)
unfolding default_first default_group or_else_ℤ or_else
first_group_idem ng h = ground (arith, with_role_idem ng.labels)

default_groups_idem :
    (bnk : Bool) (ngs : List NodeGroupSpec)
    → map (default_group bnk) (map (default_group bnk) ngs) ≡ map (default_group bnk) ngs
default_groups_idem bnk [] = refl
default_groups_idem bnk (ng ∷ ngs) = cc (default_group_idem bnk ng, default_groups_idem bnk ngs)

default_head_plain :
    (ng : NodeGroupSpec) (ngs : List NodeGroupSpec)
    → is_gpu ng ≡ false
    → default_head true (ng ∷ ngs) ≡ default_first ng ∷ ngs
unfolding default_head
default_head_plain ng ngs h = rw h

default_head_gpu :
    (ng : NodeGroupSpec) (ngs : List NodeGroupSpec)
    → is_gpu ng ≡ true
    → default_head true (ng ∷ ngs) ≡ ng ∷ ngs
unfolding default_head
default_head_gpu ng ngs h = rw h

group_gpu : (bnk : Bool) (ng : NodeGroupSpec) → is_gpu (default_group bnk ng) ≡ is_gpu ng
unfolding default_group
group_gpu bnk ng = refl

-- The head of the list is defaulted as a group, then as the first group.
default_head_idem :
    (bnk : Bool) (ngs : List NodeGroupSpec)
    → default_head bnk (map (default_group bnk) (default_head bnk (map (default_group bnk) ngs)))
      ≡ default_head bnk (map (default_group bnk) ngs)
default_head_idem bnk [] = unfold default_head in refl
default_head_idem true (ng ∷ ngs) = elim (Bool-cases (is_gpu ng)) [
  | inl gpu ↦
      let rest = map (default_group true) ngs in
      let once = default_head_gpu (default_group true ng) rest (group_gpu true ng ∙ gpu) in
      rw (once, default_group_idem true ng, default_groups_idem true ngs) once
  | inr plain ↦
      let rest = map (default_group true) ngs in
      let once = default_head_plain (default_group true ng) rest (group_gpu true ng ∙ plain) in
      let first = default_first (default_group true ng) in
      rw (
        once,
        default_head_plain (default_group true first) (map (default_group true) rest)
            (group_gpu true first ∙ (gpu_kept ng ∙ plain)),
        first_group_idem ng plain,
        default_groups_idem true ngs,
      )
]
default_head_idem false (ng ∷ ngs) =
    unfold default_head in cc (default_group_idem false ng, default_groups_idem false ngs)

pub default_cluster_spec_idem :
    (bnk : Bool) (cs : ClusterSpec)
    → default_cluster_spec bnk (default_cluster_spec bnk cs) ≡ default_cluster_spec bnk cs
unfolding default_cluster_spec
default_cluster_spec_idem bnk cs = simp (or_else_idem, default_head_idem)

fill_azs_idem :
    (azs : List String) (i : ℕ) (ss : List SubnetSpec)
    → fill_azs azs i (fill_azs azs i ss) ≡ fill_azs azs i ss
unfolding fill_azs
fill_azs_idem azs i [] = refl
fill_azs_idem azs i (s ∷ ss) = ground (arith, fill_azs_idem azs (suc i) ss)

fill_data_path_idem :
    (azs : List String) (dp : Option DataPathSpec)
    → fill_data_path azs (fill_data_path azs dp) ≡ fill_data_path azs dp
fill_data_path_idem azs none = refl
fill_data_path_idem azs (some dp) = ground arith

spread_idem : (azs : List String) (n : Network) → spread azs (spread azs n) ≡ spread azs n
unfolding spread
spread_idem azs n = ground (
  arith,
  fill_azs_idem azs 0 n.subnets.public,
  fill_azs_idem azs 0 n.subnets.private,
  fill_data_path_idem azs n.data_path,
)

no_azs : (region : String) (n : Network) → network_azs region n ≡ [] → spread [] n ≡ n
unfolding spread all_subnet_azs_empty_or_auto
no_azs region n h = ground arith

azs-spread :
    (region : String) (n : Network) (azs : List String)
    → network_azs region n ≡ azs
    → network_azs region (spread azs n) ≡ azs
azs-spread region n [] h = rw (no_azs region n h) h
azs-spread region n (az ∷ azs) h = unfold spread all_subnet_azs_empty_or_auto in refl

-- Once a network has zones, or can get none, its zones stay.
network_azs-spread :
    (region : String) (n : Network)
    → network_azs region (spread (network_azs region n) n) ≡ network_azs region n
network_azs-spread region n = azs-spread region n (network_azs region n) refl

default_network_idem :
    (region : String) (n : Network)
    → default_network region (default_network region n) ≡ default_network region n
unfolding default_network
default_network_idem region n =
    rw (network_azs-spread region n) (spread_idem (network_azs region n) n)

-- The self IPs are derived from fields that the zones do not touch.
default_network-self_ips :
    (bnk has : Bool) (region : String) (n : Network)
    → default_network region (network_self_ips bnk has n)
      ≡ network_self_ips bnk has (default_network region n)
unfolding default_network network_self_ips spread all_subnet_azs_empty_or_auto self_ips_of
default_network-self_ips bnk has region n = ground arith

with_self_ips_idem :
    (has : Bool) (dp : DataPathSpec)
    → self_ips_of has (record dp { self_ips = some (self_ips_of has dp) }) ≡ self_ips_of has dp
unfolding self_ips_of or_else_ℤ
with_self_ips_idem has dp = ground arith

self_ips_idem :
    (has : Bool) (n : Network) (dp : Option DataPathSpec)
    → network_self_ips true has (network_self_ips true has (record n { data_path = dp }))
      ≡ network_self_ips true has (record n { data_path = dp })
unfolding network_self_ips
self_ips_idem has n none = refl
self_ips_idem has n (some dp) = simp (with_self_ips_idem has dp)

network_self_ips_idem :
    (bnk has : Bool) (n : Network)
    → network_self_ips bnk has (network_self_ips bnk has n) ≡ network_self_ips bnk has n
unfolding network_self_ips
network_self_ips_idem true has n = self_ips_idem has n (n.data_path)
network_self_ips_idem false has n = refl

-- The network of a cluster that has its defaults.
pub network_idem :
    (bnk has : Bool) (region : String) (n : Network)
    → network_self_ips bnk has
        (default_network region (network_self_ips bnk has (default_network region n)))
      ≡ network_self_ips bnk has (default_network region n)
network_idem bnk has region n =
    rw
      (
        default_network-self_ips bnk has region (default_network region n),
        default_network_idem region n,
      )
      (network_self_ips_idem bnk has (default_network region n))
