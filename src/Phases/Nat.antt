-- ===== src/Phases/Nat.antt =====
-- internal/aws/phases/phase05_nat.go: the elastic address and the NAT gateway.
use Prim.Native.Char.{code}
use awsbnkctl.Base.{ℕ, ◌==◌, String, Bool, List, [], ◌∷◌, is_empty, not, if◌then◌else◌}
use awsbnkctl.Tags.{Tags, required, merge, cluster_filter}
use awsbnkctl.Intent.Schema.{Cluster}
use awsbnkctl.Phases.{
  Aws, Action, Result, ok, err, Reply, reply, api_error, Address, NatGateway, out_of_fuel,
  call_failed, pure, ◌>>=◌, ◌>>◌, gets, get_key, set_key, call, require_key, check_auth_or_die,
  save_state,
}
use awsbnkctl.Phases.Polling.{
  Wait, reached, failed, unfinished, is_not_found_code, wait_nat_available, wait_nat_deleted,
  wait_eip_unassociated,
}

-- splitFirst
abbrev pub split_first : String → String
split_first String.[] = ""
split_first (String.◌∷◌ c s) =
    let rest = split_first s in if code c == b',' then "" else String.◌∷◌ c rest

-- One look every ten seconds for five and for ten minutes, and a last look at the clock.
abbrev pub five_minutes : ℕ
five_minutes = 31

abbrev pub ten_minutes : ℕ
ten_minutes = 61

abbrev pub waited : Wait → Result Unit
waited reached = ok tt
waited (failed e) = err e
waited unfinished = err out_of_fuel

abbrev pub first_address : List Address → String
first_address [] = ""
first_address (a ∷ more) = a.allocation_id

abbrev pub first_nat : List NatGateway → String
first_nat [] = ""
first_nat (n ∷ more) = n.nat_id

-- ignoreNotFound
abbrev pub removed : String → Reply Unit → Result Unit
removed name (reply u) = ok tt
removed name (api_error code) =
    if is_not_found_code code then ok tt else err (call_failed name code)

module _ {S : Type 0} where
  unfoldable pub wait_for : (S → Wait × S) → Action S Unit
  wait_for f w = let (r, s) = f w.cloud in (waited r, record w { cloud = s })

  unfoldable pub call_removing : String → (S → Reply Unit × S) → Action S Unit
  unfolding is_not_found_code
  call_removing name f w = let (r, s) = f w.cloud in (removed name r, record w { cloud = s })

module _ {S : Type 0} (aws : Aws S) where
  unfoldable pub find_eip_by_tag : String → Action S String
  unfolding call
  find_eip_by_tag cluster_name = do
    out ← call "DescribeAddresses" (aws.describe_addresses (cluster_filter cluster_name ∷ []))
    pure (first_address out)

  unfoldable pub find_nat_by_tag : String → Action S String
  unfolding call
  find_nat_by_tag cluster_name = do
    out ← call "DescribeNatGateways" (
        aws.describe_nat_gateways (
          cluster_filter cluster_name
          ∷ record { name = "state"; values = "pending" ∷ "available" ∷ [] }
          ∷ []))
    pure (first_nat out)

  abbrev pub tags_of : Cluster → String → Tags
  tags_of cl component =
      merge aws.tag_order (required cl.metadata.name component ∷ cl.tags ∷ cl.metadata.labels ∷ [])

  unfoldable pub eip_or_new : Cluster → String → Action S String
  eip_or_new cl existing =
      if is_empty existing
      then call "AllocateAddress" (aws.allocate_address (tags_of cl "eip"))
      else pure existing

  unfoldable pub nat_or_new : Cluster → (subnet eip existing : String) → Action S String
  unfolding wait_for call wait_nat_available
  nat_or_new cl subnet eip existing = if not (is_empty existing) then pure existing else do
    nat ← call "CreateNatGateway" (aws.create_nat_gateway subnet eip (tags_of cl "nat"))
    wait_for (wait_nat_available aws five_minutes nat)
    pure nat

  unfoldable pub nat_with : Cluster → (subnet eip : String) → Action S Unit
  unfolding find_nat_by_tag nat_or_new set_key save_state
  nat_with cl subnet eip = do
    existing_nat ← find_nat_by_tag cl.metadata.name
    nat ← nat_or_new cl subnet eip existing_nat
    set_key "NAT_GW_ID" nat
    save_state aws

  unfoldable pub provide_nat : Cluster → String → Action S Unit
  unfolding find_eip_by_tag eip_or_new set_key nat_with
  provide_nat cl subnet = do
    existing_eip ← find_eip_by_tag cl.metadata.name
    eip ← eip_or_new cl existing_eip
    set_key "NAT_EIP_ALLOC" eip
    nat_with cl subnet eip

  abbrev pub nat_for : Cluster → Bool → String → Action S Unit
  nat_for cl dry_run subnets =
      if dry_run
      then set_key "NAT_EIP_ALLOC" "dry-run-eip" >> set_key "NAT_GW_ID" "dry-run-nat"
      else provide_nat cl (split_first subnets)

  unfoldable pub phase05_nat : Bool → Action S Unit
  unfolding check_auth_or_die require_key
  phase05_nat dry_run = do
    check_auth_or_die aws
    cl ← gets (λ w. w.cluster)
    subnets ← require_key "PUBLIC_SUBNETS"
    nat_for cl dry_run subnets

  -- The id in the state, or the one that the tags lead to.
  abbrev pub recorded_or : String → Action S String → Action S String
  recorded_or recorded found = if is_empty recorded then found else pure recorded

  unfoldable pub delete_nat : String → Action S Unit
  unfolding call_removing wait_for wait_nat_deleted
  delete_nat nat =
      if not (is_empty nat)
      then call_removing "DeleteNatGateway" (aws.delete_nat_gateway nat)
        >> wait_for (wait_nat_deleted aws ten_minutes nat)
      else pure tt

  unfoldable pub release_eip : String → Action S Unit
  unfolding call_removing wait_for wait_eip_unassociated
  release_eip eip =
      if not (is_empty eip)
      then wait_for (wait_eip_unassociated aws five_minutes eip)
        >> call_removing "ReleaseAddress" (aws.release_address eip)
      else pure tt

  unfoldable pub eip_down : Cluster → Action S Unit
  unfolding get_key set_key save_state find_eip_by_tag release_eip
  eip_down cl = do
    recorded_eip ← get_key "NAT_EIP_ALLOC"
    eip ← recorded_or recorded_eip (find_eip_by_tag cl.metadata.name)
    release_eip eip
    set_key "NAT_EIP_ALLOC" ""
    save_state aws

  unfoldable pub phase05_nat_down : Action S Unit
  unfolding check_auth_or_die get_key set_key find_nat_by_tag delete_nat eip_down
  phase05_nat_down = do
    check_auth_or_die aws
    cl ← gets (λ w. w.cluster)
    recorded_nat ← get_key "NAT_GW_ID"
    nat ← recorded_or recorded_nat (find_nat_by_tag cl.metadata.name)
    delete_nat nat
    set_key "NAT_GW_ID" ""
    eip_down cl
