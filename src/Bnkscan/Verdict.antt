-- ===== src/Bnkscan/Verdict.antt =====
-- internal/k8s/bnkscan/types.go and readiness.go: what a verdict says of a cluster.
use awsbnkctl.Base.{
  ◌≡◌, ◌≢◌, refl, ap, arith, ◌↔◌, inl, inr, suc, ◌≤◌, String, Bool, true, false, not, ◌&&◌, List,
  [], ◌∷◌, ◌++◌, All, length, null, Bool-cases, if◌then◌else◌,
}
use awsbnkctl.Bnkscan.{
  Generation, gen23, gen24, gen_mixed, gen_none, Object, Controller, Tmm, Index, complete,
  generation_problems, controller_problems, tmm_problem, tmm_problems, unready, infra_problems,
  object_problems, problems, tally, readiness,
}

-- What is asked of the API that the cluster serves.
abbrev pub Serves : Bool → Generation → Type 0
Serves accept gen_none = true ≡ false
Serves accept gen23 = accept ≡ true
Serves accept other = true ≡ true

abbrev pub AllReady : List Object → Type 0
AllReady = All (λ (o : Object). o.ready ≡ true)

-- What is asked of the Infra objects.
abbrev pub HasInfras : Generation → List Object → Type 0
HasInfras gen24 os = (os ≢ []) × AllReady os
HasInfras gen_mixed os = (os ≢ []) × AllReady os
HasInfras other os = true ≡ true

abbrev pub IsHealthy : Bool → Index → Type 0
IsHealthy accept idx =
    Serves accept idx.generation
    × (((idx.controller.found && idx.controller.ready) ≡ true)
        × ((idx.tmm.found ≡ true → complete idx.tmm ≡ true)
            × (HasInfras idx.generation idx.infras
                × (AllReady idx.gateways
                    × (AllReady idx.persistence_profiles
                        × (AllReady idx.ai_gateway_profiles × AllReady idx.ai_gateways))))))

null-append {ℓ} :
    {A : Type ℓ} (xs ys : List A) → null (xs ++ ys) ≡ true ↔ (null xs ≡ true) × (null ys ≡ true)
null-append [] ys = ((λ h. (refl, h)), λ h. h.1)
null-append (x ∷ xs) ys = ((λ h. cc), λ h. h.0)

null-unready :
    (message : Object → String) (os : List Object) → null (unready message os) ≡ true ↔ AllReady os
unfolding unready
null-unready message [] = ((λ h. tt), λ h. refl)
null-unready message (o ∷ os) = elim (Bool-cases o.ready) [
  | inl e ↦
      rw (e) ((λ h. (refl, (null-unready message os).0 h)), λ h. (null-unready message os).1 h.1)
  | inr e ↦ rw (e) ((λ h. cc), λ h. cc)
]

null_append_iff {ℓ κ μ} :
    {A : Type ℓ} {P : Type κ} {Q : Type μ} (xs ys : List A)
    → (null xs ≡ true ↔ P)
    → (null ys ≡ true ↔ Q)
    → null (xs ++ ys) ≡ true ↔ P × Q
null_append_iff xs ys p q = (
  (λ h. let both = (null-append xs ys).0 h in (p.0 both.0, q.0 both.1)),
  λ h. (null-append xs ys).1 (p.1 h.0, q.1 h.1),
)

serves_iff :
    (accept : Bool) (g : Generation) → null (generation_problems accept g) ≡ true ↔ Serves accept g
unfolding generation_problems
serves_iff true gen23 = ((λ h. refl), λ h. refl)
serves_iff false gen23 = ((λ h. cc), λ h. cc)
serves_iff true gen24 = ((λ h. refl), λ h. refl)
serves_iff false gen24 = ((λ h. refl), λ h. refl)
serves_iff true gen_mixed = ((λ h. refl), λ h. refl)
serves_iff false gen_mixed = ((λ h. refl), λ h. refl)
serves_iff true gen_none = ((λ h. cc), λ h. cc)
serves_iff false gen_none = ((λ h. cc), λ h. cc)

controller_iff :
    (c : Controller) → null (controller_problems c) ≡ true ↔ ((c.found && c.ready) ≡ true)
unfolding controller_problems
controller_iff c = elim (Bool-cases c.found) [
  | inl f ↦ elim (Bool-cases c.ready) [
    | inl r ↦ rw (f, r) ((λ h. refl), λ h. refl)
    | inr r ↦ rw (f, r) ((λ h. cc), λ h. cc)
  ]
  | inr f ↦ rw (f) ((λ h. cc), λ h. cc)
]

message_iff :
    (found whole : Bool) (msg : String)
    → null (if found && not whole then msg ∷ [] else []) ≡ true ↔ (found ≡ true → whole ≡ true)
message_iff true true msg = ((λ h g. refl), λ h. refl)
message_iff true false msg = ((λ h g. cc), λ h. let wrong = h refl in cc)
message_iff false whole msg = ((λ h g. cc), λ h. refl)

tmm_iff : (t : Tmm) → null (tmm_problems t) ≡ true ↔ (t.found ≡ true → complete t ≡ true)
unfolding tmm_problems
tmm_iff t = message_iff t.found (complete t) (tmm_problem t)

some_ready_iff :
    (message : Object → String) (os : List Object)
    → null (
          (if null os then "no Infra CR (gateway.k8s.f5.com) found" ∷ [] else [])
          ++ unready message os)
        ≡ true
      ↔ (os ≢ []) × AllReady os
some_ready_iff message [] = ((λ h. cc), λ h. absurd (h.0 refl))
some_ready_iff message (o ∷ os) =
    let rest = null-unready message (o ∷ os) in ((λ h. ((λ e. cc), rest.0 h)), λ h. rest.1 h.1)

infras_iff :
    (g : Generation) (os : List Object) → null (infra_problems g os) ≡ true ↔ HasInfras g os
unfolding infra_problems
infras_iff gen23 os = ((λ h. refl), λ h. refl)
infras_iff gen_none os = ((λ h. refl), λ h. refl)
infras_iff gen24 os = some_ready_iff _ os
infras_iff gen_mixed os = some_ready_iff _ os

problems_iff :
    (accept : Bool) (idx : Index) → null (problems accept idx) ≡ true ↔ IsHealthy accept idx
unfolding problems object_problems
problems_iff accept idx = null_append_iff _ _ (serves_iff accept idx.generation) (
    null_append_iff _ _ (controller_iff idx.controller) (
      null_append_iff _ _ (tmm_iff idx.tmm) (
        null_append_iff _ _ (infras_iff idx.generation idx.infras) (
          null_append_iff _ _ (null-unready _ idx.gateways) (
            null_append_iff _ _ (null-unready _ idx.persistence_profiles) (
              null_append_iff _ _ (null-unready _ idx.ai_gateway_profiles)
                (null-unready _ idx.ai_gateways)))))))

-- A cluster is ready if and only if it serves the 2.4 API (a 2.3 API is enough when it is accepted),
-- the controller is found and complete, a TMM that is found is complete, there is an Infra and each is
-- ready where the 2.4 API is served, and each Gateway, persistence profile, AI gateway profile and AI
-- gateway is ready.
pub readiness_iff :
    (accept : Bool) (idx : Index) → (readiness accept idx).ready ≡ true ↔ IsHealthy accept idx
unfolding readiness
readiness_iff accept idx = problems_iff accept idx

pub tally_bounds :
    (os : List Object)
    → ((tally os).total ≡ length os)
      × ((tally os).ready ≤ (tally os).total)
      × ((tally os).ready ≡ (tally os).total ↔ AllReady os)
unfolding tally
tally_bounds [] = (refl, omega arith, ((λ h. tt), λ h. refl))
tally_bounds (o ∷ os) =
    let (l, b, (to, from)) = tally_bounds os in
    elim (Bool-cases o.ready) [
      | inl e ↦
          rw (e) (ap suc l, omega arith, ((λ h. (refl, to (omega arith))), λ h. ap suc (from h.1)))
      | inr e ↦ rw (e) (ap suc l, omega arith, ((λ h. absurd (omega arith)), λ h. cc))
    ]

serves_accepted : (g : Generation) → Serves false g ↔ Serves true g × (g ≢ gen23)
serves_accepted gen23 = ((λ h. cc), λ h. absurd (h.1 refl))
serves_accepted gen24 = ((λ h. (h, λ e. cc)), λ h. h.0)
serves_accepted gen_mixed = ((λ h. (h, λ e. cc)), λ h. h.0)
serves_accepted gen_none = ((λ h. (h, λ e. cc)), λ h. h.0)

-- The strict verdict is ready if and only if the one that accepts a 2.3 API is and the generation is
-- not 2.3.
pub readiness_accepted :
    (idx : Index)
    → (readiness false idx).ready ≡ true
      ↔ ((readiness true idx).ready ≡ true) × (idx.generation ≢ gen23)
readiness_accepted idx = (
  (λ h.
      let strict = (readiness_iff false idx).0 h in
      let both = (serves_accepted idx.generation).0 strict.0 in
      ((readiness_iff true idx).1 (both.0, strict.1), both.1)),
  λ h.
      let lenient = (readiness_iff true idx).0 h.0 in
      (readiness_iff false idx).1 ((serves_accepted idx.generation).1 (lenient.0, h.1), lenient.1),
)
