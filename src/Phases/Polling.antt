-- ===== src/Phases/Polling.antt =====
-- internal/aws/phases/phase05_nat.go: the waits for a NAT gateway and for an address. A wait looks at
-- the cloud every ten seconds until a deadline; the fuel is the number of looks.
use Prim.Native.Nat.{zero}
use awsbnkctl.Base.{
  ℕ, suc, ◌+◌, String, Bool, true, false, Option, none, some, List, [], ◌∷◌, is_empty, ltb, str_eq,
  contains, if◌then◌else◌,
}
use awsbnkctl.Phases.{
  Aws, Reply, reply, api_error, Address, NatGateway, PhaseError, call_failed, nat_failed, timed_out,
  context_done,
}

abbrev pub not_found_codes : List String
not_found_codes =
    "InvalidVpcID.NotFound" ∷ "InvalidSubnetID.NotFound" ∷ "InvalidRouteTableID.NotFound"
    ∷ "InvalidInternetGatewayID.NotFound" ∷ "InvalidNatGatewayID.NotFound"
    ∷ "InvalidAllocationID.NotFound" ∷ "InvalidNetworkInterfaceID.NotFound"
    ∷ "InvalidInstanceID.NotFound" ∷ "InvalidGroup.NotFound"
    ∷ "InvalidInstanceConnectEndpoint.NotFound" ∷ "InvalidInstanceConnectEndpointId.NotFound"
    ∷ "InvalidLaunchTemplateId.NotFound" ∷ "InvalidLaunchTemplateName.NotFoundException"
    ∷ "InvalidKeyPair.NotFound" ∷ []

unfoldable pub is_not_found_code : String → Bool
is_not_found_code code = contains not_found_codes code

-- What a look at the cloud decides: the wait is over, or it goes on.
pub data Look : Type 0 where
  seen : Look
  broken : PhaseError → Look
  again : Look

-- How a wait ends; `unfinished` is out of fuel.
pub data Wait : Type 0 where
  reached : Wait
  failed : PhaseError → Wait
  unfinished : Wait

abbrev look_nat_state : (want state : String) → Look
look_nat_state want state =
    if str_eq state want then seen else if str_eq state "failed" then broken nat_failed else again

unfoldable pub look_nat : String → Reply (List NatGateway) → Look
unfolding is_not_found_code
look_nat want (api_error code) =
    if is_not_found_code code
    then if str_eq want "deleted" then seen else again
    else broken (call_failed "DescribeNatGateways" code)
look_nat want (reply []) = if str_eq want "deleted" then seen else again
look_nat want (reply (n ∷ ns)) = look_nat_state want n.nat_state

abbrev pub look_association : Option String → Look
look_association none = seen
look_association (some id) = if is_empty id then seen else again

unfoldable pub look_eip : Reply (List Address) → Look
unfolding is_not_found_code
look_eip (api_error code) =
    if is_not_found_code code then seen else broken (call_failed "DescribeAddresses" code)
look_eip (reply []) = seen
look_eip (reply (a ∷ more)) = look_association a.association_id

module _ {S : Type 0} (aws : Aws S) where
  abbrev pub after_sleep : Bool × S → (S → Wait × S) → Wait × S
  after_sleep (true, s) next = (failed context_done, s)
  after_sleep (false, s) next = next s

  abbrev pub after_look : Look → S → (S → Wait × S) → Wait × S
  after_look seen s next = (reached, s)
  after_look (broken e) s next = (failed e, s)
  after_look again s next = after_sleep (aws.sleep 10 s) next

  -- The loop of both waits: `look` is the call and what its answer decides.
  unfoldable pub poll : (S → Look × S) → ℕ → ℕ → S → Wait × S
  poll look deadline zero s = (unfinished, s)
  poll look deadline (suc fuel) s =
      let next = poll look deadline fuel in
      if ltb (aws.clock s) deadline
      then after_look (look s).0 (look s).1 next
      else (failed timed_out, s)

  abbrev pub nat_look : (want nat : String) → S → Look × S
  nat_look want nat s = let (r, s') = aws.describe_nat_gateway nat s in (look_nat want r, s')

  abbrev pub eip_look : String → S → Look × S
  eip_look alloc s = let (r, s') = aws.describe_address alloc s in (look_eip r, s')

  unfoldable pub poll_nat_state : ℕ → (nat want : String) → ℕ → S → Wait × S
  poll_nat_state fuel nat want timeout s = poll (nat_look want nat) (aws.clock s + timeout) fuel s

  unfoldable pub wait_nat_available : ℕ → String → S → Wait × S
  unfolding poll_nat_state
  wait_nat_available fuel nat s = poll_nat_state fuel nat "available" 300 s

  unfoldable pub wait_nat_deleted : ℕ → String → S → Wait × S
  unfolding poll_nat_state
  wait_nat_deleted fuel nat s = poll_nat_state fuel nat "deleted" 600 s

  unfoldable pub wait_eip_unassociated : ℕ → String → S → Wait × S
  wait_eip_unassociated fuel alloc s = poll (eip_look alloc) (aws.clock s + 300) fuel s
