-- ===== src/Phases/Rerun.antt =====
-- Phase 02 when it is run again, on an API that lists what was created.
use awsbnkctl.Base.{
  ◌≡◌, refl, sym, ◌∙◌, ap, String, true, false, Option, none, some, List, [], ◌∷◌, lookup, is_empty,
  inl, inr, Bool-cases,
}
use awsbnkctl.Tags.{Tags, Filter, key_cluster, cluster_filter}
use awsbnkctl.Intent.Schema.{Cluster}
use awsbnkctl.Phases.{
  Aws, World, Action, Result, ok, err, Reply, reply, api_error, call_failed, replied, carry_on,
  ◌>>◌, set_key, call, check_auth_or_die, save_state, VpcAttribute, dns_support, dns_hostnames,
}
use awsbnkctl.Phases.Vpc.{
  phase02_vpc, vpc_found, vpc_tags, create_vpc_of, find_vpc_by_tag, find_vpcs_by_tag, present_ids,
  first_or_empty,
}

module _ {S : Type 0} where
  -- An action that ends well has gone through its first part.
  pub carry_on_ok :
      {A B : Type 0} (p : Result A × World S) (f : A → Action S B) (b : B)
      → (carry_on p f).0 ≡ ok b
      → (a : A) × (p.0 ≡ ok a) × (carry_on p f ≡ f a p.1)
  carry_on_ok (ok a, w) f b h = (a, refl, refl)
  carry_on_ok (err e, w) f b h = absurd (cc)

abbrev result_or : {A : Type 0} → A → Result A → A
result_or b (ok a) = a
result_or b (err e) = b

replied_ok :
    {A : Type 0} (name : String) (r : Reply A) (a : A) → replied name r ≡ ok a → r ≡ reply a
replied_ok name (reply b) a h = ap reply (ap (λ (r : Result _). result_or b r) h)
replied_ok name (api_error code) a h = absurd (cc)

pub first_present :
    (out : List (Option String))
    → is_empty (first_or_empty (present_ids out)) ≡ true
    → present_ids out ≡ []
first_present [] h = refl
first_present (none ∷ out) h = first_present out h
first_present (some id ∷ out) h = elim (Bool-cases (is_empty id)) [
  | inl e ↦ rw e (first_present out (rw e at h))
  | inr n ↦ let bad : is_empty id ≡ true = rw n at h in absurd (cc)
]

module _ {S : Type 0} (aws : Aws S) where
  -- What the API promises: a listing changes nothing, a VPC that is created with a cluster's tag where
  -- none was listed is listed from then on, under an id that is not empty, and an attribute of a VPC
  -- is not part of the listing.
  pub record ListsVpcs : Type 0 where
    pub listing : (fs : List Filter) (s : S) → (aws.describe_vpcs fs s).1 ≡ s
    pub created :
        (name cidr id : String) (tags : Tags) (out : List (Option String)) (s : S)
        → (aws.describe_vpcs (cluster_filter name ∷ []) s).0 ≡ reply out
        → present_ids out ≡ []
        → lookup key_cluster tags ≡ some name
        → (aws.create_vpc cidr tags s).0 ≡ reply id
        → (aws.describe_vpcs (cluster_filter name ∷ []) (aws.create_vpc cidr tags s).1).0
          ≡ reply (some id ∷ [])
    pub named :
        (cidr id : String) (tags : Tags) (s : S)
        → (aws.create_vpc cidr tags s).0 ≡ reply id
        → is_empty id ≡ false
    pub modified :
        (id : String) (a : VpcAttribute) (fs : List Filter) (s : S)
        → (aws.describe_vpcs fs (aws.modify_vpc_attribute id a s).1).0 ≡ (aws.describe_vpcs fs s).0

  -- The first VPC that is listed for a cluster.
  abbrev pub IsListed : String → String → S → Type 0
  IsListed name id s =
      (out : List (Option String)) × ((aws.describe_vpcs (cluster_filter name ∷ []) s).0
        ≡ reply out)
      × (first_or_empty (present_ids out) ≡ id)
      × (is_empty id ≡ false)

  find_reply :
      (name : String) (out : List (Option String)) (w : World S)
      → ListsVpcs
      → (aws.describe_vpcs (cluster_filter name ∷ []) w.cloud).0 ≡ reply out
      → find_vpc_by_tag aws name w ≡ (ok (first_or_empty (present_ids out)), w)
  unfolding find_vpc_by_tag find_vpcs_by_tag call
  find_reply name out w laws e = rw (e, laws.listing (cluster_filter name ∷ []) w.cloud) refl

  pub find_error :
      (name code : String) (w : World S)
      → (aws.describe_vpcs (cluster_filter name ∷ []) w.cloud).0 ≡ api_error code
      → (find_vpc_by_tag aws name w).0 ≡ err (call_failed "DescribeVpcs" code)
  unfolding find_vpc_by_tag find_vpcs_by_tag call
  find_error name code w e = rw e refl

  -- The id is recorded, and the state is saved.
  abbrev pub record_vpc : String → Action S Unit
  record_vpc id = set_key "VPC_ID" id >> save_state aws

  pub auth_run :
      (w : World S)
      → aws.authenticated ≡ true
      → phase02_vpc aws false w
        ≡ carry_on (find_vpc_by_tag aws w.cluster.metadata.name w) (vpc_found aws w.cluster)
  unfolding phase02_vpc check_auth_or_die
  auth_run w auth = rw auth refl

  pub listed_run :
      (out : List (Option String)) (w : World S)
      → ListsVpcs
      → aws.authenticated ≡ true
      → (aws.describe_vpcs (cluster_filter w.cluster.metadata.name ∷ []) w.cloud).0 ≡ reply out
      → phase02_vpc aws false w ≡ vpc_found aws w.cluster (first_or_empty (present_ids out)) w
  listed_run out w laws auth e =
      auth_run w auth
      ∙ ap (λ (p : Result String × World S). carry_on p (vpc_found aws w.cluster))
          (find_reply w.cluster.metadata.name out w laws e)

  pub vpc_found-filled :
      (cl : Cluster) (id : String) (w : World S)
      → is_empty id ≡ false
      → vpc_found aws cl id w ≡ record_vpc id w
  vpc_found-filled cl id w n = rw n refl

  pub found_run :
      (id : String) (w : World S)
      → ListsVpcs
      → aws.authenticated ≡ true
      → IsListed w.cluster.metadata.name id w.cloud
      → phase02_vpc aws false w ≡ record_vpc id w
  found_run id w laws auth (out, e, f, n) =
      listed_run out w laws auth e
      ∙ ap (λ i. vpc_found aws w.cluster i w) f
      ∙ vpc_found-filled w.cluster id w n

  -- The world in which a VPC was created and its attributes were set.
  abbrev pub built : Cluster → String → World S → World S
  built cl id w =
      let s1 = (aws.create_vpc cl.network.vpc_cidr (vpc_tags aws cl) w.cloud).1 in
      let s2 = (aws.modify_vpc_attribute id dns_support s1).1 in
      record w { cloud = (aws.modify_vpc_attribute id dns_hostnames s2).1 }

  pub create_shape :
      (cl : Cluster) (w : World S)
      → (create_vpc_of aws cl w).0 ≡ ok tt
      → (id : String) × ((aws.create_vpc cl.network.vpc_cidr (vpc_tags aws cl) w.cloud).0
          ≡ reply id)
        × (create_vpc_of aws cl w ≡ record_vpc id (built cl id w))
  unfolding create_vpc_of call
  create_shape cl w h =
      let create = call "CreateVpc" (aws.create_vpc cl.network.vpc_cidr (vpc_tags aws cl)) in
      let host =
        λ (id : String). call "ModifyVpcAttribute" (aws.modify_vpc_attribute id dns_hostnames) in
      let sup =
        λ (id : String). call "ModifyVpcAttribute" (aws.modify_vpc_attribute id dns_support) in
      let (id, made, r1) =
        carry_on_ok (create w) (λ id. sup id >> (host id >> record_vpc id)) tt h in
      let w1 = (create w).1 in
      let (u, supported, r2) =
        carry_on_ok (sup id w1) (λ u. host id >> record_vpc id) tt
          (ap (λ (p : Result Unit × World S). p.0) (sym r1) ∙ h) in
      let w2 = (sup id w1).1 in
      let (v, hosted, r3) =
        carry_on_ok (host id w2) (λ u. record_vpc id) tt
          (ap (λ (p : Result Unit × World S). p.0) (sym (r1 ∙ r2)) ∙ h) in
      (
        id,
        replied_ok "CreateVpc" (aws.create_vpc cl.network.vpc_cidr (vpc_tags aws cl) w.cloud).0 id
            made,
        r1 ∙ r2 ∙ r3,
      )
