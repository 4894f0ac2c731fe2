-- ===== src/Intent/Validate/Reload.antt =====
-- What Load gives back, and what it gives when that is loaded again.
use awsbnkctl.Base.{arith, ◌≡◌, refl, sym, ap, ◌∙◌, String, none, some, List}
use awsbnkctl.Platform.{Platform}
use awsbnkctl.Intent.Schema.{Cluster}
use awsbnkctl.Intent.Pattern.{is_bnk_pattern, has_internal_interface}
use awsbnkctl.Intent.Validate.Pattern.{validate_pattern}
use awsbnkctl.Intent.Validate.Groups.{validate_node_groups}
use awsbnkctl.Intent.Validate.Demo.{validate_testing, validate_demo}
use awsbnkctl.Intent.Validate.BigIp.{validate_big_ip_ve}
use awsbnkctl.Intent.Defaults.{apply_defaults}
use awsbnkctl.Intent.Defaults.Laws.{apply_defaults_idem}
use awsbnkctl.Intent.Check.{Check, Warning}
use awsbnkctl.Intent.Validate.{cluster, at_path, loaded_as, validate, load}

apply_defaults-at_path :
    (path : String) (c : Cluster)
    → apply_defaults (at_path path c) ≡ at_path path (apply_defaults c)
unfolding apply_defaults is_bnk_pattern has_internal_interface
apply_defaults-at_path path c = refl

validate-at_path :
    (p : Platform) (path : String) (c : Cluster) → validate p (at_path path c) ≡ validate p c
unfolding validate validate_pattern validate_testing validate_demo validate_big_ip_ve is_bnk_pattern
    has_internal_interface validate_node_groups
validate-at_path p path c = refl

loaded_parts :
    (path : String) (d : Cluster) (k : Check) {ws : List Warning} {c' : Cluster}
    → loaded_as path d k ≡ cluster ws c'
    → (c' ≡ at_path path d) × (k ≡ (ws, none))
loaded_parts path d (ws, none) e = ground arith
loaded_parts path d (ws, some x) e = cc

-- What a load that succeeds has done: the cluster is the one with the defaults, at its path, and
-- the validation of that cluster found no error and the warnings that are returned.
pub load_parts :
    (p : Platform) (path : String) (c : Cluster) {ws : List Warning} {c' : Cluster}
    → load p path (some c) ≡ cluster ws c'
    → (c' ≡ at_path path (apply_defaults c)) × (validate p (apply_defaults c) ≡ (ws, none))
unfolding load
load_parts p path c e = loaded_parts path (apply_defaults c) (validate p (apply_defaults c)) e

-- A cluster that Load returned is a fixed point of Load: written to a file without change and loaded
-- again from the same path, it is accepted with the same warnings and comes back unchanged.
pub load_again :
    (p : Platform) (path : String) (c : Cluster) (ws : List Warning) (c' : Cluster)
    → load p path (some c) ≡ cluster ws c'
    → load p path (some c') ≡ cluster ws c'
unfolding load
load_again p path c ws c' e =
    let (same, valid) = load_parts p path c e in
    let again : apply_defaults c' ≡ at_path path (apply_defaults c) =
      ap apply_defaults same
      ∙ apply_defaults-at_path path (apply_defaults c)
      ∙ ap (at_path path) (apply_defaults_idem c) in
    let valid' : validate p (apply_defaults c') ≡ (ws, none) =
      ap (validate p) again ∙ validate-at_path p path (apply_defaults c) ∙ valid in
    rw (valid', again) (ap (cluster ws) (sym same))
