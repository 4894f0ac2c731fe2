-- ===== src/Tests/Resyncs.antt =====
-- Routes that are patched, on a server that keeps the number at each path.
use awsbnkctl.Base.{
  ◌≡◌, ◌≢◌, refl, sym, ◌∙◌, ap, arith, String, Bool, true, false, Option, none, some, List, [], ◌∷◌,
  All, ℤ, pos, negsuc, str_eq, eq_iff, inl, inr, Bool-cases, if◌then◌else◌, eqb_ℤ, ◌↔◌, show_nat,
}
use awsbnkctl.Resync.{
  Json, null as json_null, int, text, array, object, end, item, close, field, Unstructured, Api,
  ResyncOptions, PatchOp, cancelled, restore_patch, collect_weights, collect_rules, collect_refs,
  entry_of, weight_path, plus_one,
}
use awsbnkctl.Resync.Weights.{AreApart}
use awsbnkctl.Resync.Collected.{collect_weights-AreApart}
use awsbnkctl.Resync.Server.{
  Number, absent, whole, other_value, number_of, Patching, FollowsRfc, apply_ops, IsCurrent, raised,
}
use awsbnkctl.Resync.Toggle.{
  Serves, toggle_weights_restores, toggle_weights_interrupted, toggle_weights_respects,
}
use awsbnkctl.Resync.Targeting.{resolve_targets}
use awsbnkctl.Resync.Run.{toggle_weights, resync_http_routes}
use awsbnkctl.Resync.Accounts.{reported, named, IsApplied, resync_accounts}

abbrev pub Page : Type 0
Page = String → Number

abbrev is_whole : Number → ℤ → Bool
is_whole (whole w) v = eqb_ℤ w v
is_whole other v = false

abbrev put_number : String → Option ℤ → Page → Page
put_number path v d q = if str_eq path q then number_of v else d q

abbrev run_test : Option ℤ → String → Page → Option Page
run_test none path d = none
run_test (some v) path d = if is_whole (d path) v then some d else none

abbrev page_step : PatchOp → Page → Option Page
page_step o d =
    if str_eq o.op "test" then run_test o.value o.path d else some (put_number o.path o.value d)

abbrev pages : Patching Page
pages = record {
  step = page_step;
  number_at = λ path d. d path;
  put = put_number;
  has_parent = λ path d. true;
}

eqb_ℤ_self : (v : ℤ) → eqb_ℤ v v ≡ true
eqb_ℤ_self (pos n) = ground arith
eqb_ℤ_self (negsuc n) = ground arith

is_whole_sound : (n : Number) (v : ℤ) → is_whole n v ≡ true → n ≡ whole v
is_whole_sound absent v h = cc
is_whole_sound other_value v h = cc
is_whole_sound (whole (pos m)) (pos n) h = ap (λ k. whole (pos k)) (ground arith)
is_whole_sound (whole (pos m)) (negsuc n) h = cc
is_whole_sound (whole (negsuc m)) (pos n) h = cc
is_whole_sound (whole (negsuc m)) (negsuc n) h = ap (λ k. whole (negsuc k)) (ground arith)

str_eq_self : (s : String) → str_eq s s ≡ true
str_eq_self s = (eq_iff s s).1 refl

str_eq_other : (s t : String) → s ≢ t → str_eq s t ≡ false
str_eq_other s t n = elim (Bool-cases (str_eq s t)) [
  | inl e ↦ absurd (n ((eq_iff s t).0 e))
  | inr e ↦ e
]

pages_put_put :
    (p : String) (v w : Option ℤ) (d : Page) (q : String)
    → put_number p v (put_number p w d) q ≡ put_number p v d q
pages_put_put p v w d q = elim (Bool-cases (str_eq p q)) [ inl e ↦ rw e refl | inr e ↦ rw e refl ]

pages_put_other :
    (p r : String) (v w : Option ℤ) (d : Page) (q : String)
    → p ≢ r
    → put_number p v (put_number r w d) q ≡ put_number r w (put_number p v d) q
pages_put_other p r v w d q n = elim (Bool-cases (str_eq p q)) [
  | inl e ↦
      let same : p ≡ q = (eq_iff p q).0 e in rw (e, str_eq_other r q (λ s. n (same ∙ sym s))) refl
  | inr e ↦ rw e refl
]

pages_put_old :
    (p : String) (v : Option ℤ) (d : Page) (q : String)
    → d p ≡ number_of v
    → put_number p v d q ≡ d q
pages_put_old p v d q h = elim (Bool-cases (str_eq p q)) [
  | inl e ↦ rw e (sym h ∙ ap d ((eq_iff p q).0 e))
  | inr e ↦ rw e refl
]

not_whole : (n : Number) (v : ℤ) → n ≢ whole v → is_whole n v ≡ false
not_whole n v h = elim (Bool-cases (is_whole n v)) [
  | inl e ↦ absurd (h (is_whole_sound n v e))
  | inr e ↦ e
]

pages_rfc : FollowsRfc pages
pages_rfc = record {
  test_same = λ e v d h. rw (h, eqb_ℤ_self v) refl;
  test_other = λ e v d n. rw (not_whole (d (weight_path e)) v n) refl;
  replaced = λ e v w d h. refl;
  added = λ e v d h. refl;
  removed = λ e w d h. refl;
  number_put = λ e v d h. rw (str_eq_self (weight_path e)) refl;
  number_put_other = λ e f v d n. rw (str_eq_other (weight_path e) (weight_path f) n) refl;
  parent_put = λ e f v d. refl;
  put_put = λ e v w d. λ i q. pages_put_put (weight_path e) v w d q i;
  put_other = λ e f v w d n. λ i q. pages_put_other (weight_path e) (weight_path f) v w d q n i;
  put_old = λ e v d h. λ i q. pages_put_old (weight_path e) v d q h i;
}

abbrev pub web_ref : Json
web_ref = object (field "name" (text "web") (field "weight" (int (pos 3)) close))

abbrev pub plain_ref : Json
plain_ref = object (field "name" (text "api") close)

abbrev web_rule : Json
web_rule = object (field "backendRefs" (array (item web_ref (item plain_ref end))) close)

abbrev rules_found : Json → List Json
rules_found json_null = []
rules_found other = web_rule ∷ []

abbrev pub object_reader : Unstructured
object_reader = record {
  nested_slice = λ j p. rules_found j;
  nested_string = λ j p. "web";
  get_namespace = λ j. "shop";
  get_name = λ j. "web";
}

abbrev pub web_page : Page
web_page = put_number "/spec/rules/0/backendRefs/0/weight" (some (pos 3)) (λ p. absent)

abbrev sent_patch : Option Page → Page → Option String × Page
sent_patch none d = (none, d)
sent_patch (some e) d = (some "2", e)

abbrev pub quiet_api : Api Page
quiet_api = record {
  get_route = λ ns name d. some web_ref;
  list_routes = λ ns d. some (web_ref ∷ plain_ref ∷ []);
  list_gateways = λ d. some [];
  patch_route = λ ns name ops d. sent_patch (apply_ops pages ops d) d;
  reconcile_wait = λ d. (false, d);
}

quiet_serves : Serves quiet_api pages (λ d. d) "shop" "web"
quiet_serves = record {
  applied = λ ops s d h. ("2", d, rw h refl, refl);
  rejected = λ ops s h. (s, rw h refl, refl);
}

web-IsCurrent : All (IsCurrent pages web_page) (collect_weights object_reader web_ref)
unfolding collect_weights collect_rules collect_refs entry_of weight_path show_nat
web-IsCurrent = ((refl, refl), ((refl, refl), tt))

toggle_weights_restores_example :
    ((toggle_weights quiet_api object_reader "shop" "web" web_ref web_page).0 ≡ none)
    × ((toggle_weights quiet_api object_reader "shop" "web" web_ref web_page).1 ≡ web_page)
toggle_weights_restores_example =
    toggle_weights_restores quiet_api pages (λ d. d) "shop" "web" object_reader web_ref pages_rfc
      quiet_serves (λ s. (refl, refl)) web_page web-IsCurrent

abbrev ended_api : Api Page
ended_api = record quiet_api { reconcile_wait = λ d. (true, d) }

ended_serves : Serves ended_api pages (λ d. d) "shop" "web"
ended_serves = record { applied = quiet_serves.applied; rejected = quiet_serves.rejected }

toggle_weights_interrupted_example :
    ((toggle_weights ended_api object_reader "shop" "web" web_ref web_page).0 ≡ some cancelled)
    × ((toggle_weights ended_api object_reader "shop" "web" web_ref web_page).1
        ≡ raised pages (collect_weights object_reader web_ref) web_page)
unfolding collect_weights collect_rules collect_refs entry_of
toggle_weights_interrupted_example =
    toggle_weights_interrupted ended_api pages (λ d. d) "shop" "web" object_reader web_ref pages_rfc
      ended_serves (λ s. (refl, refl)) web_page web-IsCurrent refl refl

abbrev edited : Page → Page
edited = put_number "/spec/rules/0/backendRefs/0/weight" (some (pos 9))

abbrev shared_api : Api Page
shared_api = record quiet_api { reconcile_wait = λ d. (false, edited d) }

shared_serves : Serves shared_api pages (λ d. d) "shop" "web"
shared_serves = record { applied = quiet_serves.applied; rejected = quiet_serves.rejected }

toggle_weights_respects_example :
    (s1 : Page) × (s1 ≡ raised pages (collect_weights object_reader web_ref) web_page)
    × ((toggle_weights shared_api object_reader "shop" "web" web_ref web_page).0
        ≡ some restore_patch)
    × ((toggle_weights shared_api object_reader "shop" "web" web_ref web_page).1 ≡ edited s1)
unfolding collect_weights collect_rules collect_refs entry_of weight_path show_nat plus_one
toggle_weights_respects_example =
    toggle_weights_respects shared_api pages (λ d. d) "shop" "web" object_reader web_ref pages_rfc
      shared_serves (λ s. refl) web_page web-IsCurrent refl
      (λ s1 up.
        inl (λ same. let bad : true ≡ false = ap (λ n. is_whole n (pos 9)) same in absurd (cc)))

abbrev pub in_namespace : ResyncOptions
in_namespace = record {
  namespace = "shop";
  name = "";
  all_in_namespace = true;
  gateway_class = "";
  dry_run = true;
}

abbrev patching : ResyncOptions
patching = record in_namespace { dry_run = false }

resync_accounts_example :
    ((p : String → String → Bool)
      → reported p ((resync_http_routes ended_api object_reader patching web_page).0)
        ≡ named ended_api object_reader p (web_ref ∷ plain_ref ∷ []))
    × All
        (IsApplied ended_api object_reader false)
        ((resync_http_routes ended_api object_reader patching web_page).0).resynced
    × (((resync_http_routes ended_api object_reader patching web_page).1 ≡ none)
        ↔ ((resync_http_routes ended_api object_reader patching web_page).0.errors ≡ []))
unfolding resolve_targets
resync_accounts_example =
    resync_accounts ended_api object_reader patching web_page (web_ref ∷ plain_ref ∷ []) refl

collect_weights-AreApart_example : AreApart (collect_weights object_reader web_ref)
collect_weights-AreApart_example = collect_weights-AreApart object_reader web_ref
