-- ===== src/Intent/Validate/Parts.antt =====
-- validate accepts a cluster when each of its parts does.
use awsbnkctl.Base.{◌≡◌, ◌↔◌, true, Option}
use awsbnkctl.Platform.{Platform}
use awsbnkctl.Intent.Schema.{Cluster, BigIpVeSpec}
use awsbnkctl.Intent.Check.{Check, Passes, when, check_some}
use awsbnkctl.Intent.Check.Passing.{>>_iff, when_iff, check_some-Passes, OnSome}
use awsbnkctl.Intent.Validate.{check_network, check_cluster_spec, check_ai, validate}
use awsbnkctl.Intent.Validate.Groups.{validate_node_groups}
use awsbnkctl.Intent.Validate.Pattern.{validate_pattern}
use awsbnkctl.Intent.Validate.Demo.{validate_testing, validate_bnk, validate_demo, demo_on}
use awsbnkctl.Intent.Validate.BigIp.{validate_big_ip_ve}

same : (k : Check) → Passes k ↔ Passes k
same k = (λ h. h, λ h. h)

block {ℓ} :
    {A : Type ℓ} (o : Option A) (k : A → Check)
    → Passes (check_some o k) ↔ OnSome (λ a. Passes (k a)) o
block o k = check_some-Passes k o (λ a. same (k a))

-- A configuration passes validate exactly when it passes all nine parts: the metadata and network
-- checks, the cluster block, the bnk block, the pattern, the testing block, the demo block if it is
-- enabled, the BIG-IP block if it is enabled, the ai block, and the node groups.
pub validate_iff :
    (p : Platform) (c : Cluster)
    → Passes (validate p c) ↔ (
        Passes (check_network c)
        × OnSome (λ cs. Passes (check_cluster_spec cs)) c.cluster_spec
        × OnSome (λ b. Passes (validate_bnk b)) c.bnk
        × Passes (validate_pattern c)
        × OnSome (λ t. Passes (validate_testing c t)) c.testing
        × (demo_on c.demo ≡ true → Passes (validate_demo p c))
        × OnSome
            (λ (ve : BigIpVeSpec). ve.enabled ≡ true → Passes (validate_big_ip_ve c ve))
            c.big_ip_ve
        × OnSome (λ ai. Passes (check_ai p ai)) c.ai
        × Passes (validate_node_groups p c))
unfolding validate
validate_iff p c =
    let first =
      >>_iff _ _
        (>>_iff _ _ (>>_iff _ _ (same (check_network c)) (block c.cluster_spec check_cluster_spec))
          (block c.bnk validate_bnk))
        (same (validate_pattern c)) in
    let second =
      >>_iff _ _
        (>>_iff _ _ (>>_iff _ _ first (block c.testing (validate_testing c)))
          (when_iff (demo_on c.demo) (validate_demo p c) (same (validate_demo p c))))
        (check_some-Passes (λ ve. when ve.enabled (validate_big_ip_ve c ve)) c.big_ip_ve
          (λ ve. when_iff ve.enabled (validate_big_ip_ve c ve) (same (validate_big_ip_ve c ve)))) in
    let all =
      >>_iff _ _ (>>_iff _ _ second (block c.ai (check_ai p))) (same (validate_node_groups p c)) in
    (
      λ h. let ((((((((a, b), d), e), f), g), i), j), k) = all.0 h in (a, b, d, e, f, g, i, j, k),
      λ (a, b, d, e, f, g, i, j, k). all.1 ((((((((a, b), d), e), f), g), i), j), k),
    )
