-- ===== src/Phases/Failures/Nat.antt =====
-- Phase 05 when it fails, on the way up and on the way down.
use awsbnkctl.Base.{refl, String, Bool, true, false, [], ◌∷◌, is_empty, not}
use awsbnkctl.Intent.Schema.{Cluster}
use awsbnkctl.Tags.{cluster_filter}
use awsbnkctl.Phases.{
  Aws, Action, Reply, pure, ◌>>=◌, ◌>>◌, gets, get_key, set_key, call, check_auth_or_die,
  save_state,
}
use awsbnkctl.Phases.Safe.{
  Keeps, FailsSafely, Keeps-FailsSafely, if-Keeps, >>=-Keeps, >>-Keeps, >>=-FailsSafely,
  >>-FailsSafely, file_of, set_key-Keeps_file, call-Keeps_file, check_auth_or_die-Keeps_file,
}
use awsbnkctl.Phases.Polling.{Wait, wait_nat_available, wait_nat_deleted, wait_eip_unassociated}
use awsbnkctl.Phases.Nat.{
  five_minutes, ten_minutes, wait_for, call_removing, find_eip_by_tag, find_nat_by_tag, tags_of,
  eip_or_new, nat_or_new, provide_nat, nat_with, eip_down, nat_for, phase05_nat, recorded_or,
  delete_nat, release_eip, phase05_nat_down, first_address, first_nat, split_first,
}
use awsbnkctl.Phases.Failures.{guarded, saved_key, read-Keeps}

module _ {S : Type 0} where
  wait_for-Keeps : (f : S → Wait × S) → Keeps file_of (wait_for f)
  unfolding wait_for
  wait_for-Keeps f w = refl

  call_removing-Keeps :
      (name : String) (f : S → Reply Unit × S) → Keeps file_of (call_removing name f)
  unfolding call_removing
  call_removing-Keeps name f w = refl

  get_key-Keeps : (key : String) → Keeps (file_of {S = S}) (get_key key)
  unfolding get_key
  get_key-Keeps key w = refl

module _ {S : Type 0} (aws : Aws S) where
  find_eip-Keeps : (name : String) → Keeps file_of (find_eip_by_tag aws name)
  unfolding find_eip_by_tag
  find_eip-Keeps name =
      read-Keeps aws "DescribeAddresses" (aws.describe_addresses (cluster_filter name ∷ []))
        first_address

  find_nat-Keeps : (name : String) → Keeps file_of (find_nat_by_tag aws name)
  unfolding find_nat_by_tag
  find_nat-Keeps name =
      read-Keeps aws "DescribeNatGateways"
        (aws.describe_nat_gateways (
          cluster_filter name
          ∷ record { name = "state"; values = "pending" ∷ "available" ∷ [] }
          ∷ []))
        first_nat

  eip_or_new-Keeps : (cl : Cluster) (id : String) → Keeps file_of (eip_or_new aws cl id)
  unfolding eip_or_new
  eip_or_new-Keeps cl id =
      if-Keeps file_of (is_empty id)
        (call "AllocateAddress" (aws.allocate_address (tags_of aws cl "eip"))) (pure id)
        (call-Keeps_file "AllocateAddress" (aws.allocate_address (tags_of aws cl "eip")))
        (λ w. refl)

  nat_or_new-Keeps :
      (cl : Cluster) (subnet eip id : String) → Keeps file_of (nat_or_new aws cl subnet eip id)
  unfolding nat_or_new
  nat_or_new-Keeps cl subnet eip id =
      let f = aws.create_nat_gateway subnet eip (tags_of aws cl "nat") in
      if-Keeps file_of (not (is_empty id)) (pure id)
        (call "CreateNatGateway" f >>= λ nat.
          wait_for (wait_nat_available aws five_minutes nat) >> pure nat)
        (λ w. refl)
        (>>=-Keeps file_of (call "CreateNatGateway" f)
          (λ nat. wait_for (wait_nat_available aws five_minutes nat) >> pure nat)
          (call-Keeps_file "CreateNatGateway" f)
          (λ nat.
            >>-Keeps file_of (wait_for (wait_nat_available aws five_minutes nat)) (pure nat)
              (wait_for-Keeps (wait_nat_available aws five_minutes nat)) (λ w. refl)))

  nat_with_fails :
      (cl : Cluster) (subnet eip : String) → FailsSafely file_of (nat_with aws cl subnet eip)
  unfolding nat_with
  nat_with_fails cl subnet eip =
      >>=-FailsSafely file_of (find_nat_by_tag aws cl.metadata.name)
        (λ old.
          nat_or_new aws cl subnet eip old >>= λ nat. set_key "NAT_GW_ID" nat >> save_state aws)
        (find_nat-Keeps cl.metadata.name)
        (λ old.
          >>=-FailsSafely file_of (nat_or_new aws cl subnet eip old)
            (λ nat. set_key "NAT_GW_ID" nat >> save_state aws) (nat_or_new-Keeps cl subnet eip old)
            (λ nat. saved_key aws "NAT_GW_ID" nat))

  provide_nat_fails :
      (cl : Cluster) (subnet : String) → FailsSafely file_of (provide_nat aws cl subnet)
  unfolding provide_nat
  provide_nat_fails cl subnet =
      let rest = λ (eip : String). set_key "NAT_EIP_ALLOC" eip >> nat_with aws cl subnet eip in
      >>=-FailsSafely file_of (find_eip_by_tag aws cl.metadata.name)
        (λ old. eip_or_new aws cl old >>= rest) (find_eip-Keeps cl.metadata.name)
        (λ old.
          >>=-FailsSafely file_of (eip_or_new aws cl old) rest (eip_or_new-Keeps cl old) (λ eip.
            >>-FailsSafely file_of (set_key "NAT_EIP_ALLOC" eip) (nat_with aws cl subnet eip)
              (set_key-Keeps_file "NAT_EIP_ALLOC" eip) (nat_with_fails cl subnet eip)))

  nat_for_fails :
      (cl : Cluster) (dry : Bool) (v : String) → FailsSafely file_of (nat_for aws cl dry v)
  nat_for_fails cl true v =
      Keeps-FailsSafely file_of
        (set_key "NAT_EIP_ALLOC" "dry-run-eip" >> set_key "NAT_GW_ID" "dry-run-nat")
        (>>-Keeps file_of (set_key "NAT_EIP_ALLOC" "dry-run-eip")
          (set_key "NAT_GW_ID" "dry-run-nat") (set_key-Keeps_file "NAT_EIP_ALLOC" "dry-run-eip")
          (set_key-Keeps_file "NAT_GW_ID" "dry-run-nat"))
  nat_for_fails cl false v = provide_nat_fails cl (split_first v)

  pub nat_fails : (dry : Bool) → FailsSafely file_of (phase05_nat aws dry)
  unfolding phase05_nat
  nat_fails dry =
      guarded aws "PUBLIC_SUBNETS" (λ cl v. nat_for aws cl dry v) (λ cl v. nat_for_fails cl dry v)

  recorded_or-Keeps :
      (id : String) (m : Action S String) → Keeps file_of m → Keeps file_of (recorded_or aws id m)
  recorded_or-Keeps id m k = if-Keeps file_of (is_empty id) m (pure id) k (λ w. refl)

  delete_nat-Keeps : (nat : String) → Keeps file_of (delete_nat aws nat)
  unfolding delete_nat
  delete_nat-Keeps nat =
      let gone = call_removing "DeleteNatGateway" (aws.delete_nat_gateway nat) in
      let wait = wait_for (wait_nat_deleted aws ten_minutes nat) in
      if-Keeps file_of (not (is_empty nat)) (gone >> wait) (pure tt)
        (>>-Keeps file_of gone wait
          (call_removing-Keeps "DeleteNatGateway" (aws.delete_nat_gateway nat))
          (wait_for-Keeps (wait_nat_deleted aws ten_minutes nat)))
        (λ w. refl)

  release_eip-Keeps : (eip : String) → Keeps file_of (release_eip aws eip)
  unfolding release_eip
  release_eip-Keeps eip =
      let wait = wait_for (wait_eip_unassociated aws five_minutes eip) in
      let gone = call_removing "ReleaseAddress" (aws.release_address eip) in
      if-Keeps file_of (not (is_empty eip)) (wait >> gone) (pure tt)
        (>>-Keeps file_of wait gone (wait_for-Keeps (wait_eip_unassociated aws five_minutes eip))
          (call_removing-Keeps "ReleaseAddress" (aws.release_address eip)))
        (λ w. refl)

  eip_down_fails : (cl : Cluster) → FailsSafely file_of (eip_down aws cl)
  unfolding eip_down
  eip_down_fails cl =
      let eips = find_eip_by_tag aws cl.metadata.name in
      let forget = set_key "NAT_EIP_ALLOC" "" >> save_state aws in
      >>=-FailsSafely file_of (get_key "NAT_EIP_ALLOC")
        (λ was. recorded_or aws was eips >>= λ eip. release_eip aws eip >> forget)
        (get_key-Keeps "NAT_EIP_ALLOC")
        (λ was.
          >>=-FailsSafely file_of (recorded_or aws was eips) (λ eip. release_eip aws eip >> forget)
            (recorded_or-Keeps was eips (find_eip-Keeps cl.metadata.name))
            (λ eip.
              >>-FailsSafely file_of (release_eip aws eip) forget (release_eip-Keeps eip)
                (saved_key aws "NAT_EIP_ALLOC" "")))

  down_from :
      (cl : Cluster) (nat : String)
      → FailsSafely file_of (delete_nat aws nat >> (set_key "NAT_GW_ID" "" >> eip_down aws cl))
  down_from cl nat =
      >>-FailsSafely file_of (delete_nat aws nat) (set_key "NAT_GW_ID" "" >> eip_down aws cl)
        (delete_nat-Keeps nat)
        (>>-FailsSafely file_of (set_key "NAT_GW_ID" "") (eip_down aws cl)
          (set_key-Keeps_file "NAT_GW_ID" "") (eip_down_fails cl))

  found_down :
      (cl : Cluster)
      → FailsSafely file_of (
          get_key "NAT_GW_ID" >>= λ was.
          recorded_or aws was (find_nat_by_tag aws cl.metadata.name) >>= λ nat.
          delete_nat aws nat >> (set_key "NAT_GW_ID" "" >> eip_down aws cl))
  found_down cl =
      let nats = find_nat_by_tag aws cl.metadata.name in
      let rest =
        λ (nat : String). delete_nat aws nat >> (set_key "NAT_GW_ID" "" >> eip_down aws cl) in
      >>=-FailsSafely file_of (get_key "NAT_GW_ID") (λ was. recorded_or aws was nats >>= rest)
        (get_key-Keeps "NAT_GW_ID")
        (λ was.
          >>=-FailsSafely file_of (recorded_or aws was nats) rest
            (recorded_or-Keeps was nats (find_nat-Keeps cl.metadata.name)) (down_from cl))

  pub nat_down_fails : FailsSafely file_of (phase05_nat_down aws)
  unfolding phase05_nat_down
  nat_down_fails =
      >>-FailsSafely file_of (check_auth_or_die aws)
        (gets (λ w. w.cluster) >>= λ cl. get_key "NAT_GW_ID" >>= λ was.
          recorded_or aws was (find_nat_by_tag aws cl.metadata.name) >>= λ nat.
          delete_nat aws nat >> (set_key "NAT_GW_ID" "" >> eip_down aws cl))
        (check_auth_or_die-Keeps_file aws) (λ w e h. found_down w.cluster w e h)
