-- ===== src/Tests/Scans.antt =====
-- The verdict on a cluster that is halfway from 2.3 to 2.4.
use awsbnkctl.Base.{
  ◌≡◌, refl, ◌↔◌, String, Bool, true, false, List, [], ◌∷◌, pos, ℕ, arith, ltb, ◌+◌, none, some,
  if◌then◌else◌,
}
use awsbnkctl.Bnkscan.{
  Generation, gen23, gen_mixed, Object, Index, problems, tally, readiness, gateway_f5_group,
  legacy_policy_group, generation_problems, controller_problems, tmm_problems, infra_problems,
  object_problems, unready, complete,
}
use awsbnkctl.Bnkscan.Verdict.{IsHealthy, readiness_iff}
use awsbnkctl.Bnkscan.Waiting.{Watch, KeepsTime, Ends, became_ready, wait_ready, wait_ready-Ends}

abbrev object : String → Bool → Object
object name ready = record {
  namespace = "shop";
  name = name;
  ready = ready;
  detail = "not Accepted";
}

abbrev cluster : Generation → List String → List Object → Index
cluster generation groups gateways = record {
  generation = generation;
  groups = groups;
  infras = object "infra" true ∷ [];
  gateways = gateways;
  persistence_profiles = [];
  ai_gateway_profiles = [];
  ai_gateways = [];
  controller = record {
    namespace = "f5-cne-system";
    name = "f5-cne-controller";
    found = true;
    desired = pos 2;
    available = pos 2;
    ready = true;
  };
  tmm = record {
    namespace = "f5-cne-system";
    name = "f5-tmm";
    found = true;
    desired = pos 3;
    ready = pos 3;
    pending = [];
  };
  legacy = record {
    f5_bnk_gateways = 0;
    bnk_sec_policies = 2;
    bnk_net_policies = 0;
    f5_spk_vlans = 0;
    f5_spk_egresses = 0;
  };
}

abbrev both_groups : List String
both_groups = gateway_f5_group ∷ legacy_policy_group ∷ []

abbrev halfway : Index
halfway = cluster gen_mixed both_groups (object "web" true ∷ object "api" false ∷ [])

abbrev old : Index
old = cluster gen23 (legacy_policy_group ∷ []) (object "web" true ∷ [])

one_problem : problems false halfway ≡ "Gateway shop/api: not Accepted" ∷ []
unfolding problems
one_problem = refl

one_of_two : tally halfway.gateways ≡ record { total = 2; ready = 1 }
unfolding tally
one_of_two = refl

readiness_iff_example : (readiness false halfway).ready ≡ true ↔ IsHealthy false halfway
readiness_iff_example = readiness_iff false halfway

-- A cluster that cannot be scanned for four nanoseconds and is then of generation 2.3.
abbrev booting : Watch ℕ
booting = record {
  scan = λ t. (if ltb t 5 then none else some old, t);
  now = λ t. t;
  pause = λ n t. (false, t + n);
}

abbrev booting_time : KeepsTime booting
booting_time = record { scan_time = λ t. omega arith; pause_time = λ n t. omega arith }

ready_at_last :
    (wait_ready booting true (pos 9) (pos 3) 4 0).0 ≡ became_ready (readiness true old) old
unfolding wait_ready readiness problems generation_problems controller_problems tmm_problems
    complete infra_problems object_problems unready
ready_at_last = refl

wait_ready-Ends_example : Ends booting true (wait_ready booting true (pos 9) (pos 3) 5 0).0
wait_ready-Ends_example =
    wait_ready-Ends booting booting_time true (pos 9) (pos 3) 4 0 (omega arith)
