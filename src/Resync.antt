-- ===== src/Resync.antt =====
-- pkg/bnk/resync.go: the weights of a route's backends are raised by one and put back, so that the
-- controller resolves the route's members again. A decoded JSON value is a tree; the cluster is a
-- record of what the program asks of it.
pub mod Weights
pub mod Collected
pub mod Server
pub mod Refusal
pub mod Toggle
pub mod Accounts
pub mod Run
pub mod Targeting
use Prim.Native.String
use awsbnkctl.Base.{
  ℕ, suc, ◌+◌, String, Bool, true, false, Option, none, some, List, [], ◌∷◌, ◌++◌, length, lookup,
  ℤ, pos, negsuc, ltb, zero, ◌==◌, str_eq, ◌^◌, ◌-◌, show_nat, if◌then◌else◌,
}

-- What encoding/json and the dynamic client put into an interface{}. A whole number is an int64, any
-- other number is a float64, of which the program takes the whole part.
mutual
  pub data Json : Type 0 where
    null : Json
    bool : Bool → Json
    int : ℤ → Json
    float : (whole : ℤ) → Json
    text : String → Json
    array : Items → Json
    object : Fields → Json

  pub data Items : Type 0 where
    end : Items
    item : Json → Items → Items

  pub data Fields : Type 0 where
    close : Fields
    field : String → Json → Fields → Fields

to_list : Items → List Json
to_list end = []
to_list (item x xs) = x ∷ to_list xs

-- `m[key]`
unfoldable pub field_value : String → Fields → Option Json
field_value key close = none
field_value key (field k v fs) = if str_eq k key then some v else field_value key fs

-- A JSON array under a key, and nothing for any other value.
unfoldable pub slice_of : Option Json → List Json
unfolding to_list
slice_of (some (array xs)) = to_list xs
slice_of other = []

-- The package unstructured, on a decoded object: the empty list, or the empty text, for a path that
-- does not lead to a value of the kind.
pub record Unstructured : Type 0 where
  pub nested_slice : Json → List String → List Json
  pub nested_string : Json → List String → String
  pub get_namespace : Json → String
  pub get_name : Json → String

pub record WeightEntry : Type 0 where
  pub rule_idx : ℕ
  pub ref_idx : ℕ
  pub orig : ℤ
  pub field_exists : Bool

pub record PatchOp : Type 0 where
  pub op : String
  pub path : String
  pub value : Option ℤ

-- The switch on the type of `b["weight"]`.
unfoldable pub entry_of : ℕ → ℕ → Option Json → WeightEntry
entry_of ri bi none = record { rule_idx = ri; ref_idx = bi; orig = pos 1; field_exists = false }
entry_of ri bi (some (int v)) = record {
  rule_idx = ri;
  ref_idx = bi;
  orig = v;
  field_exists = true;
}
entry_of ri bi (some (float v)) = record {
  rule_idx = ri;
  ref_idx = bi;
  orig = v;
  field_exists = true;
}
entry_of ri bi (some other) = record {
  rule_idx = ri;
  ref_idx = bi;
  orig = pos 1;
  field_exists = true;
}

unfoldable pub collect_refs : ℕ → ℕ → List Json → List WeightEntry
unfolding field_value
collect_refs ri bi [] = []
collect_refs ri bi (object b ∷ refs) =
    entry_of ri bi (field_value "weight" b) ∷ collect_refs ri (suc bi) refs
collect_refs ri bi (other ∷ refs) = collect_refs ri (suc bi) refs

unfoldable pub collect_rules : ℕ → List Json → List WeightEntry
unfolding slice_of field_value
collect_rules ri [] = []
collect_rules ri (object r ∷ rules) =
    collect_refs ri 0 (slice_of (field_value "backendRefs" r)) ++ collect_rules (suc ri) rules
collect_rules ri (other ∷ rules) = collect_rules (suc ri) rules

unfoldable pub count_rules : List Json → ℕ
unfolding slice_of field_value
count_rules [] = 0
count_rules (object r ∷ rules) = length (slice_of (field_value "backendRefs" r)) + count_rules rules
count_rules (other ∷ rules) = count_rules rules

-- int64 addition of one, which wraps around.
unfoldable pub plus_one : ℤ → ℤ
plus_one (pos n) = if n == 2 ^ 63 - 1 then negsuc (2 ^ 63 - 1) else pos (suc n)
plus_one (negsuc zero) = pos 0
plus_one (negsuc (suc n)) = negsuc n

unfoldable pub weight_path : WeightEntry → String
weight_path e = String.◌++◌ "/spec/rules/" (
    String.◌++◌ (show_nat e.rule_idx)
      (String.◌++◌ "/backendRefs/" (String.◌++◌ (show_nat e.ref_idx) "/weight")))

abbrev pub patch_op : String → String → Option ℤ → PatchOp
patch_op op path value = record { op = op; path = path; value = value }

unfoldable pub build_forward_patches : List WeightEntry → List PatchOp
build_forward_patches [] = []
build_forward_patches (e ∷ es) =
    (if e.field_exists
      then patch_op "test" (weight_path e) (some e.orig)
        ∷ patch_op "replace" (weight_path e) (some (plus_one e.orig))
        ∷ []
      else patch_op "add" (weight_path e) (some (plus_one e.orig)) ∷ [])
    ++ build_forward_patches es

unfoldable pub build_restore_patches : List WeightEntry → List PatchOp
build_restore_patches [] = []
build_restore_patches (e ∷ es) =
    patch_op "test" (weight_path e) (some (plus_one e.orig))
    ∷ (if e.field_exists
        then patch_op "replace" (weight_path e) (some e.orig)
        else patch_op "remove" (weight_path e) none)
    ∷ build_restore_patches es

-- What the program asks of the cluster; `none` is an error. A wait may end because the context does.
pub record Api (S : Type 0) : Type 0 where
  pub get_route : String → String → S → Option Json
  pub list_routes : String → S → Option (List Json)
  pub list_gateways : S → Option (List Json)
  pub patch_route : String → String → List PatchOp → S → Option String × S
  pub reconcile_wait : S → Bool × S

pub record ResyncOptions : Type 0 where
  pub namespace : String
  pub name : String
  pub all_in_namespace : Bool
  pub gateway_class : String
  pub dry_run : Bool

pub record ResyncedRoute : Type 0 where
  pub namespace : String
  pub name : String
  pub rules : ℕ
  pub applied : Bool

pub data ToggleError : Type 0 where
  forward_patch cancelled restore_patch : ToggleError

pub record ResyncError : Type 0 where
  pub namespace : String
  pub name : String
  pub cause : ToggleError

pub record ResyncResult : Type 0 where
  pub resynced : List ResyncedRoute
  pub errors : List ResyncError

pub data Failure : Type 0 where
  getting listing_routes listing_gateways nothing_selected : Failure
  failed_routes : ℕ → Failure

pub data Targets : Type 0 where
  targets : List Json → Targets
  untargeted : Failure → Targets

module _ (u : Unstructured) where
  unfoldable pub collect_weights : Json → List WeightEntry
  collect_weights route = collect_rules 0 (u.nested_slice route ("spec" ∷ "rules" ∷ []))

  unfoldable pub count_backend_refs : Json → ℕ
  count_backend_refs route = count_rules (u.nested_slice route ("spec" ∷ "rules" ∷ []))
