-- ===== src/Intent/Validate/Quorum.antt =====
-- The quorum of the node groups of a loaded BNK cluster.
use awsbnkctl.Base.{
  ◌≡◌, ◌≢◌, ◌⊎◌, inl, inr, ap, String, Bool, true, false, Option, none, some, List, [], ◌∷◌, map,
  arith, All, Bool-cases, ◌&&◌, not, or_else_ℤ, ltb_ℤ, pos, ◌≤ℤ◌, ◌<ℤ◌,
}
use awsbnkctl.Platform.{Platform}
use awsbnkctl.Intent.Schema.{Cluster, ClusterSpec, NodeGroupSpec, is_gpu}
use awsbnkctl.Intent.Pattern.{is_bnk_pattern, normalize_pattern}
use awsbnkctl.Intent.Defaults.{apply_defaults, on_some}
use awsbnkctl.Intent.Defaults.Groups.{
  default_group, default_first, default_head, default_cluster_spec,
}
use awsbnkctl.Intent.Check.{Check, Warning}
use awsbnkctl.Intent.Check.Passing.{OnSome}
use awsbnkctl.Intent.Validate.{cluster, load}
use awsbnkctl.Intent.Validate.Pattern.Exact.{HasQuorum, validate_pattern_iff}
use awsbnkctl.Intent.Validate.Reload.{load_parts}
use awsbnkctl.Intent.Validate.Parts.{validate_iff}

abbrev IsSized : NodeGroupSpec → Type 0
IsSized ng = ng.desired_size ≢ pos 0

group-IsSized : (bnk : Bool) (ng : NodeGroupSpec) → IsSized (default_group bnk ng)
unfolding default_group or_else_ℤ
group-IsSized bnk ng h = ground arith

first-IsSized : (ng : NodeGroupSpec) → IsSized ng → IsSized (default_first ng)
unfolding default_first
first-IsSized ng h e = ground arith

groups-IsSized : (bnk : Bool) (ngs : List NodeGroupSpec) → All IsSized (map (default_group bnk) ngs)
groups-IsSized bnk [] = tt
groups-IsSized bnk (ng ∷ ngs) = (group-IsSized bnk ng, groups-IsSized bnk ngs)

head-IsSized :
    (bnk : Bool) (ngs : List NodeGroupSpec) → All IsSized ngs → All IsSized (default_head bnk ngs)
unfolding default_head
head-IsSized bnk [] h = tt
head-IsSized bnk (ng ∷ ngs) (h, k) = elim (Bool-cases (bnk && not (is_gpu ng))) [
  | inl e ↦ rw e (first-IsSized ng h, k)
  | inr n ↦ rw n (h, k)
]

-- Three nodes or more, or a negative size.
abbrev pub HasThree : NodeGroupSpec → Type 0
HasThree ng = is_gpu ng ≡ false → (pos 3 ≤ℤ ng.desired_size) ⊎ (ng.desired_size <ℤ pos 0)

three : (ng : NodeGroupSpec) → IsSized ng → HasQuorum ng → HasThree ng
three ng s q cpu = elim (Bool-cases (ltb_ℤ ng.desired_size (pos 0))) [
  | inl negative ↦ inr (ground arith)
  | inr other ↦ inl (q cpu (ground arith))
]

All-three : (ngs : List NodeGroupSpec) → All IsSized ngs → All HasQuorum ngs → All HasThree ngs
All-three [] s q = tt
All-three (ng ∷ ngs) (s, ss) (q, qs) = (three ng s q, All-three ngs ss qs)

spec-IsSized :
    (bnk : Bool) (o : Option ClusterSpec)
    → OnSome
        (λ (cs : ClusterSpec). All IsSized cs.node_groups)
        (on_some (default_cluster_spec bnk) o)
unfolding default_cluster_spec
spec-IsSized bnk none = tt
spec-IsSized bnk (some cs) =
    head-IsSized bnk (map (default_group bnk) cs.node_groups) (groups-IsSized bnk cs.node_groups)

spec-HasThree :
    (o : Option ClusterSpec)
    → OnSome (λ (cs : ClusterSpec). All IsSized cs.node_groups) o
    → OnSome (λ (cs : ClusterSpec). All HasQuorum cs.node_groups) o
    → OnSome (λ (cs : ClusterSpec). All HasThree cs.node_groups) o
spec-HasThree none s q = tt
spec-HasThree (some cs) s q = All-three cs.node_groups s q

bnk_named : (c : Cluster) → is_bnk_pattern c ≡ true → c.pattern_name ≢ ""
unfolding is_bnk_pattern normalize_pattern
bnk_named c h e = cc (rw e at h)

-- In a BNK cluster that Load returned, every node group that is no GPU group asks for three nodes
-- or more, or for a negative number of nodes.
pub load-HasThree :
    (p : Platform) (path : String) (c : Cluster) (ws : List Warning) (c' : Cluster)
    → is_bnk_pattern c' ≡ true
    → load p path (some c) ≡ cluster ws c'
    → OnSome (λ (cs : ClusterSpec). All HasThree cs.node_groups) c'.cluster_spec
unfolding apply_defaults
load-HasThree p path c ws c' bnk e =
    let (same, valid) = load_parts p path c e in
    let d = apply_defaults c in
    let bnk' : is_bnk_pattern d ≡ true = unfold is_bnk_pattern in rw same at bnk in
    let passed = (validate_iff p d).0 (ap (λ (k : Check). k.1) valid) in
    let fits = (validate_pattern_iff d (bnk_named d bnk')).0 (passed.3) in
    rw same (spec-HasThree d.cluster_spec (spec-IsSized _ c.cluster_spec) (fits.5))
