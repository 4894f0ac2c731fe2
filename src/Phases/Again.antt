-- ===== src/Phases/Again.antt =====
-- Phase 02 twice: the second run finds the VPC of the first.
use awsbnkctl.Base.{
  ◌≡◌, refl, sym, ◌∙◌, ap, arith, String, true, false, Option, none, some, List, [], ◌∷◌, lookup,
  is_empty, All, inl, inr, Bool-cases,
}
use awsbnkctl.Tags.{Tags, key_cluster, required, merge, cluster_filter, eks_tags}
use awsbnkctl.Tags.Merging.{IsMap, required_kept}
use awsbnkctl.Cache.Recorded.{get-set}
use awsbnkctl.Cache.{
  State, Disk, SaveError, Entries, FileSystem, save, save_run, finish_save, get, set,
}
use awsbnkctl.Intent.Schema.{Cluster}
use awsbnkctl.Phases.{
  Aws, World, Result, ok, err, unauthenticated, Reply, reply, api_error, call_failed, set_key,
  check_auth_or_die, save_state, saved, disk_of, dns_support, dns_hostnames,
}
use awsbnkctl.Phases.Vpc.{
  phase02_vpc, vpc_found, vpc_tags, create_vpc_of, find_vpc_by_tag, present_ids, first_or_empty,
}
use awsbnkctl.Phases.Rerun.{
  carry_on_ok, ListsVpcs, IsListed, record_vpc, built, first_present, find_error, auth_run,
  listed_run, vpc_found-filled, found_run, create_shape,
}

module _ {S : Type 0} (aws : Aws S) where
  -- The user's maps do not name the cluster's tag, and the order of a map is only an order.
  abbrev pub HasOwnTags : Cluster → Type 0
  HasOwnTags cl =
      ((key : String) (m : Tags) → lookup key (aws.tag_order m) ≡ lookup key m)
      × All IsMap (cl.tags ∷ cl.metadata.labels ∷ [])
      × All (λ (m : Tags). lookup key_cluster m ≡ none) (cl.tags ∷ cl.metadata.labels ∷ [])

  tagged :
      (cl : Cluster) → HasOwnTags cl → lookup key_cluster (vpc_tags aws cl) ≡ some cl.metadata.name
  unfolding merge eks_tags required
  tagged cl (order, maps, free) =
      order key_cluster
        (eks_tags (required cl.metadata.name "vpc" ∷ cl.tags ∷ cl.metadata.labels ∷ []))
      ∙ required_kept key_cluster cl.metadata.name "vpc" (cl.tags ∷ cl.metadata.labels ∷ []) maps
          free

  built-IsListed :
      (w : World S) (id : String) (out : List (Option String))
      → ListsVpcs aws
      → HasOwnTags w.cluster
      → (aws.describe_vpcs (cluster_filter w.cluster.metadata.name ∷ []) w.cloud).0 ≡ reply out
      → present_ids out ≡ []
      → (aws.create_vpc w.cluster.network.vpc_cidr (vpc_tags aws w.cluster) w.cloud).0 ≡ reply id
      → IsListed aws w.cluster.metadata.name id (built aws w.cluster id w).cloud
  built-IsListed w id out laws own e gone made =
      let name = w.cluster.metadata.name in
      let fs = cluster_filter name ∷ [] in
      let cidr = w.cluster.network.vpc_cidr in
      let tags = vpc_tags aws w.cluster in
      let s1 = (aws.create_vpc cidr tags w.cloud).1 in
      let s2 = (aws.modify_vpc_attribute id dns_support s1).1 in
      let n = laws.named cidr id tags w.cloud made in
      (
        some id ∷ [],
        laws.modified id dns_hostnames fs s2
            ∙ laws.modified id dns_support fs s1
            ∙ laws.created name cidr id tags out w.cloud e gone (tagged w.cluster own) made,
        rw n refl,
        n,
      )

  abbrev HasShape : World S → Type 0
  HasShape w =
      (id : String) × (v : World S) × (phase02_vpc aws false w ≡ record_vpc aws id v)
      × IsListed aws w.cluster.metadata.name id v.cloud
      × (v.cluster ≡ w.cluster)

  created_shape :
      (w : World S) (out : List (Option String))
      → ListsVpcs aws
      → HasOwnTags w.cluster
      → phase02_vpc aws false w ≡ create_vpc_of aws w.cluster w
      → (aws.describe_vpcs (cluster_filter w.cluster.metadata.name ∷ []) w.cloud).0 ≡ reply out
      → present_ids out ≡ []
      → (phase02_vpc aws false w).0 ≡ ok tt
      → HasShape w
  created_shape w out laws own same e gone h =
      let (id, made, shape) =
        create_shape aws w.cluster w (ap (λ (p : Result Unit × World S). p.0) (sym same) ∙ h) in
      (
        id,
        built aws w.cluster id w,
        same ∙ shape,
        built-IsListed w id out laws own e gone made,
        refl,
      )

  vpc_found-empty :
      (cl : Cluster) (id : String) (w : World S)
      → is_empty id ≡ true
      → vpc_found aws cl id w ≡ create_vpc_of aws cl w
  vpc_found-empty cl id w z = rw z refl

  first_shape_of :
      (w : World S) (r : Reply (List (Option String)))
      → ListsVpcs aws
      → HasOwnTags w.cluster
      → aws.authenticated ≡ true
      → (aws.describe_vpcs (cluster_filter w.cluster.metadata.name ∷ []) w.cloud).0 ≡ r
      → (phase02_vpc aws false w).0 ≡ ok tt
      → HasShape w
  first_shape_of w (api_error code) laws own auth e h =
      let name = w.cluster.metadata.name in
      let run = ap (λ (p : Result Unit × World S). p.0) (sym (auth_run aws w auth)) ∙ h in
      let (id, good, rest) =
        carry_on_ok (find_vpc_by_tag aws name w) (vpc_found aws w.cluster) tt run in
      let clash : err (call_failed "DescribeVpcs" code) ≡ ok id =
        sym (find_error aws name code w e) ∙ good in
      absurd (cc)
  first_shape_of w (reply out) laws own auth e h =
      let id = first_or_empty (present_ids out) in
      let run = listed_run aws out w laws auth e in
      elim (Bool-cases (is_empty id)) [
        | inl z ↦
            created_shape w out laws own (run ∙ vpc_found-empty w.cluster id w z) e
              (first_present out z) h
        | inr n ↦ (id, w, run ∙ vpc_found-filled aws w.cluster id w n, (out, e, refl, n), refl)
      ]

  no_auth :
      (w : World S) → aws.authenticated ≡ false → (phase02_vpc aws false w).0 ≡ err unauthenticated
  unfolding phase02_vpc check_auth_or_die
  no_auth w n = rw n refl

  is_authenticated : (w : World S) → (phase02_vpc aws false w).0 ≡ ok tt → aws.authenticated ≡ true
  is_authenticated w h = elim (Bool-cases aws.authenticated) [
    | inl e ↦ e
    | inr n ↦ let clash : err unauthenticated ≡ ok tt = sym (no_auth w n) ∙ h in absurd (cc)
  ]

  saved_world :
      (p : Disk × Option SaveError) (w : World S)
      → ((saved aws p w).1.cloud ≡ w.cloud)
        × ((saved aws p w).1.cluster ≡ w.cluster)
        × ((saved aws p w).1.cache ≡ w.cache)
  saved_world (d, none) w = (refl, refl, refl)
  saved_world (d, some e) w = (refl, refl, refl)

  saved_ok : (p : Disk × Option SaveError) (w : World S) → (saved aws p w).0 ≡ ok tt → p.1 ≡ none
  saved_ok (d, none) w h = refl
  saved_ok (d, some e) w h = absurd (cc)

  saved_done : (p : Disk × Option SaveError) (w : World S) → p.1 ≡ none → (saved aws p w).0 ≡ ok tt
  saved_done (d, none) w h = refl
  saved_done (d, some e) w h = absurd (cc)

  save_again :
      (fs : FileSystem) (a b : String) (order : Entries → Entries) (s t : State) (f g : Disk)
      → s.read_only ≡ t.read_only
      → (save fs a order s f).1 ≡ none
      → (save fs b order t g).1 ≡ none
  unfolding save save_run finish_save
  save_again fs a b order s t f g same h = ground arith

  -- What a run that records an id leaves.
  record_world :
      (id : String) (v : World S)
      → ((record_vpc aws id v).1.cloud ≡ v.cloud)
        × ((record_vpc aws id v).1.cluster ≡ v.cluster)
        × ((record_vpc aws id v).1.cache ≡ set "VPC_ID" id v.cache)
  unfolding set_key save_state
  record_world id v =
      saved_world
        (save aws.disk (aws.stamp v.cloud) aws.entry_order (set "VPC_ID" id v.cache)
          (disk_of aws v))
        (record v { cache = set "VPC_ID" id v.cache })

  record_again :
      (id : String) (v w : World S)
      → v.cache.read_only ≡ w.cache.read_only
      → (record_vpc aws id v).0 ≡ ok tt
      → (record_vpc aws id w).0 ≡ ok tt
  unfolding set_key save_state set
  record_again id v w same h =
      let s = set "VPC_ID" id v.cache in
      let t = set "VPC_ID" id w.cache in
      saved_done (save aws.disk (aws.stamp w.cloud) aws.entry_order t (disk_of aws w))
        (record w { cache = t })
        (save_again aws.disk (aws.stamp v.cloud) (aws.stamp w.cloud) aws.entry_order s t
          (disk_of aws v) (disk_of aws w) same
          (saved_ok (save aws.disk (aws.stamp v.cloud) aws.entry_order s (disk_of aws v))
            (record v { cache = s }) h))

  same_mode :
      (id : String) (v : World S) → v.cache.read_only ≡ (record_vpc aws id v).1.cache.read_only
  unfolding set
  same_mode id v = sym (ap (λ (s : State). s.read_only) (record_world id v).2)

  recorded : (id : String) (v : World S) → get (record_vpc aws id v).1.cache "VPC_ID" ≡ id
  recorded id v =
      ap (λ (s : State). get s "VPC_ID") (record_world id v).2 ∙ get-set id "VPC_ID" v.cache

  -- What phase 02 does when it is run again where it has just ended well.
  abbrev pub IsRepeatable : World S → Type 0
  IsRepeatable w =
      ((phase02_vpc aws false w).0 ≡ ok tt)
      × ((phase02_vpc aws false w).1.cloud ≡ w.cloud)
      × (get (phase02_vpc aws false w).1.cache "VPC_ID" ≡ get w.cache "VPC_ID")

  IsListed-at :
      (id n m : String) (s t : S) → n ≡ m → s ≡ t → IsListed aws m id t → IsListed aws n id s
  IsListed-at id n m s t e f h = rw (e, f) h

  IsRepeatable-at : (a b : World S) → a ≡ b → IsRepeatable b → IsRepeatable a
  IsRepeatable-at a b e h = rw e h

  recorded-IsRepeatable :
      (id : String) (v : World S)
      → phase02_vpc aws false (record_vpc aws id v).1 ≡ record_vpc aws id (record_vpc aws id v).1
      → (record_vpc aws id v).0 ≡ ok tt
      → IsRepeatable (record_vpc aws id v).1
  recorded-IsRepeatable id v again done =
      let w1 = (record_vpc aws id v).1 in
      (
        ap (λ (p : Result Unit × World S). p.0) again ∙ record_again id v w1 (same_mode id v) done,
        ap (λ (p : Result Unit × World S). p.1.cloud) again ∙ (record_world id w1).0,
        ap (λ (p : Result Unit × World S). get p.1.cache "VPC_ID") again
            ∙ recorded id w1
            ∙ sym (recorded id v),
      )

  shape-IsRepeatable :
      (w : World S)
      → ListsVpcs aws
      → HasShape w
      → (phase02_vpc aws false w).0 ≡ ok tt
      → IsRepeatable (phase02_vpc aws false w).1
  shape-IsRepeatable w laws (id, v, shape, listed, same) h =
      let done : (record_vpc aws id v).0 ≡ ok tt =
        ap (λ (p : Result Unit × World S). p.0) (sym shape) ∙ h in
      let w1 = (record_vpc aws id v).1 in
      let kept = record_world id v in
      let name : w1.cluster.metadata.name ≡ w.cluster.metadata.name =
        ap (λ (c : Cluster). c.metadata.name) (kept.1 ∙ same) in
      let here =
        IsListed-at id w1.cluster.metadata.name w.cluster.metadata.name w1.cloud v.cloud name kept.0
          listed in
      let again = found_run aws id w1 laws (is_authenticated w h) here in
      IsRepeatable-at (phase02_vpc aws false w).1 w1 (ap (λ (p : Result Unit × World S). p.1) shape)
        (recorded-IsRepeatable id v again done)

  first_shape :
      (w : World S)
      → ListsVpcs aws
      → HasOwnTags w.cluster
      → (phase02_vpc aws false w).0 ≡ ok tt
      → HasShape w
  first_shape w laws own h =
      first_shape_of w (aws.describe_vpcs (cluster_filter w.cluster.metadata.name ∷ []) w.cloud).0
        laws own (is_authenticated w h) refl h

  -- When the API lists a VPC under the tags that it was created with, and the user's tags do not name
  -- the cluster's tag, then after a run of phase 02 that ends well a second run ends well too,
  -- leaves the cloud as it is, so that no second VPC is created, and records the same id.
  pub phase02_vpc_again :
      (w : World S)
      → ListsVpcs aws
      → HasOwnTags w.cluster
      → (phase02_vpc aws false w).0 ≡ ok tt
      → IsRepeatable (phase02_vpc aws false w).1
  phase02_vpc_again w laws own h = shape-IsRepeatable w laws (first_shape w laws own h) h
