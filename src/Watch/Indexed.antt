-- ===== src/Watch/Indexed.antt =====
-- pkg/bnk/watch.go: what buildServiceIndex says of the routes that it is given.
use awsbnkctl.Base.{
  ◌≡◌, refl, sym, ap, ◌∙◌, arith, eq_iff, inl, inr, ℕ, ◌+◌, String, Bool, true, false, ◌||◌, ◌&&◌,
  Option, none, some, List, [], ◌∷◌, ◌++◌, str_eq, lookup, insert, lookup-insert, Bool-cases,
  if◌then◌else◌,
}
use awsbnkctl.Resync.{
  Json, null, bool, int, float, text, array, object, Unstructured, Api, ResyncOptions, targets,
  field_value, slice_of,
}
use awsbnkctl.Resync.Targeting.{resolve_targets}
use awsbnkctl.Watch.{
  RouteKey, same_route, contains_route, Index, or_no_routes, routes_at, service_of, add_route,
  index_refs, index_rules, index_routes, indexed, build_service_index, route_key, rules_of,
}
use awsbnkctl.Watch.Keys.{
  Matches, count_route, contains-count, same_route_sound, or_assoc, or_false,
}

abbrev pub any {ℓ} : {A : Type ℓ} → (A → Bool) → List A → Bool
any p [] = false
any p (x ∷ xs) = p x || any p xs

abbrev pub is_key : Option String → String → Bool
is_key none q = false
is_key (some key) q = str_eq key q

-- Whether a reference, or a rule, of a route in a namespace names the service.
abbrev pub ref_names : (ns key : String) → Json → Bool
ref_names ns key (object b) = is_key (service_of ns b) key
ref_names ns key other = false

abbrev pub rule_names : (ns key : String) → Json → Bool
rule_names ns key (object r) = any (ref_names ns key) (slice_of (field_value "backendRefs" r))
rule_names ns key other = false

-- Whether one of the routes has the key and names the service.
abbrev pub any_names : Unstructured → List Json → String → RouteKey → Bool
any_names u [] key k = false
any_names u (route ∷ routes) key k =
    any (rule_names (u.get_namespace route) key) (rules_of u route)
      && same_route (route_key u route) k
    || any_names u routes key k

-- At each service the index has the routes of a relation, each once.
abbrev Fits : Index → (String → RouteKey → Bool) → Type 0
Fits index f = (q : String) → Matches (routes_at index q) (f q)

or_idem : (c : Bool) → (c || c) ≡ c
or_idem true = refl
or_idem false = refl

fold_or : (f x y c : Bool) → ((f || (x && c)) || (y && c)) ≡ (f || ((x || y) && c))
fold_or true x y c = refl
fold_or false true true c = or_idem c
fold_or false true false c = or_false c
fold_or false false y c = refl

both : (a b : Bool) → (a && b) ≡ true → (a ≡ true) × (b ≡ true)
both true b h = (refl, h)
both false b h = absurd (cc)

or_absorbed : (f b : Bool) → (b ≡ true → f ≡ true) → f ≡ (f || b)
or_absorbed true b h = refl
or_absorbed false true h = h refl
or_absorbed false false h = refl

added_once :
    (f s : Bool) (n : ℕ)
    → n ≡ (if f then 1 else 0)
    → (s ≡ true → f ≡ false)
    → n + (if s then 1 else 0) ≡ (if f || s then 1 else 0)
added_once true true n h e = let wrong = e refl in absurd (cc)
added_once true false n h e = omega arith
added_once false true n h e = omega arith
added_once false false n h e = omega arith

count-append :
    (k r : RouteKey) (rs : List RouteKey)
    → count_route k (rs ++ (r ∷ [])) ≡ count_route k rs + (if same_route r k then 1 else 0)
count-append k r [] = ground arith
count-append k r (x ∷ rs) = omega (arith, count-append k r rs)

routes_if :
    (b : Bool) (rs : List RouteKey) (o : Option (List RouteKey))
    → or_no_routes (if b then some rs else o) ≡ (if b then rs else or_no_routes o)
routes_if true rs o = refl
routes_if false rs o = refl

routes_at-insert :
    (key q : String) (rs : List RouteKey) (index : Index)
    → routes_at (insert key rs index) q ≡ (if str_eq key q then rs else routes_at index q)
routes_at-insert key q rs index =
    ap or_no_routes (lookup-insert key q rs index) ∙ routes_if (str_eq key q) rs (lookup q index)

-- A route that is at the key already, and one that is put there.
kept-Fits :
    (key : String) (rk : RouteKey) (index : Index) (f : String → RouteKey → Bool)
    → Fits index f
    → contains_route (routes_at index key) rk ≡ true
    → Fits index (λ q k. f q k || str_eq key q && same_route rk k)
kept-Fits key rk index f h old q k =
    h q k
    ∙ ap (λ b. if b then 1 else 0)
        (or_absorbed (f q k) (str_eq key q && same_route rk k) (λ e.
          let (at, same) = both (str_eq key q) (same_route rk k) e in
          ap (λ x. f x k) (sym ((eq_iff key q).0 at))
          ∙ ap (f key) (sym (same_route_sound rk k same))
          ∙ sym (contains-count rk (routes_at index key) (f key rk) (h key rk))
          ∙ old))

put-Fits :
    (key : String) (rk : RouteKey) (index : Index) (f : String → RouteKey → Bool)
    → Fits index f
    → contains_route (routes_at index key) rk ≡ false
    → Fits
        (insert key (routes_at index key ++ (rk ∷ [])) index)
        (λ q k. f q k || str_eq key q && same_route rk k)
put-Fits key rk index f h new q k =
    let there = routes_at index key in
    let rest : count_route k (if str_eq key q then there ++ (rk ∷ []) else routes_at index q)
        ≡ (if f q k || str_eq key q && same_route rk k then 1 else 0) =
      elim (Bool-cases (str_eq key q)) [
        | inl e ↦ rw (e) (
            count-append k rk there
            ∙ added_once (f key k) (same_route rk k) (count_route k there) (h key k) (λ same.
              ap (f key) (sym (same_route_sound rk k same))
              ∙ sym (contains-count rk there (f key rk) (h key rk))
              ∙ new)
            ∙ ap (λ x. if f x k || same_route rk k then 1 else 0) ((eq_iff key q).0 e))
        | inr e ↦ rw (e) (h q k ∙ ap (λ b. if b then 1 else 0) (sym (or_false (f q k))))
      ] in
    ap (count_route k) (routes_at-insert key q (there ++ (rk ∷ [])) index) ∙ rest

add_route-Fits :
    (o : Option String) (rk : RouteKey) (index : Index) (f : String → RouteKey → Bool)
    → Fits index f
    → Fits (add_route o rk index) (λ q k. f q k || is_key o q && same_route rk k)
unfolding add_route
add_route-Fits none rk index f h q k = h q k ∙ ap (λ b. if b then 1 else 0) (sym (or_false (f q k)))
add_route-Fits (some key) rk index f h q k =
    elim (Bool-cases (contains_route (routes_at index key) rk)) [
      | inl old ↦ rw (old) (kept-Fits key rk index f h old q k)
      | inr new ↦ rw (new) (put-Fits key rk index f h new q k)
    ]

index_refs-Fits :
    (rk : RouteKey) (refs : List Json) (index : Index) (f : String → RouteKey → Bool)
    → Fits index f
    → Fits
        (index_refs rk refs index)
        (λ q k. f q k || any (ref_names rk.ns q) refs && same_route rk k)
unfolding index_refs
index_refs-Fits rk [] index f h q k = h q k ∙ ap (λ b. if b then 1 else 0) (sym (or_false (f q k)))
index_refs-Fits rk (object b ∷ refs) index f h q k =
    index_refs-Fits rk refs (add_route (service_of rk.ns b) rk index)
      (λ q k. f q k || is_key (service_of rk.ns b) q && same_route rk k)
      (add_route-Fits (service_of rk.ns b) rk index f h) q k
    ∙ ap (λ b. if b then 1 else 0)
        (fold_or (f q k) (is_key (service_of rk.ns b) q) (any (ref_names rk.ns q) refs)
          (same_route rk k))
index_refs-Fits rk (null ∷ refs) index f h q k = index_refs-Fits rk refs index f h q k
index_refs-Fits rk (bool v ∷ refs) index f h q k = index_refs-Fits rk refs index f h q k
index_refs-Fits rk (int v ∷ refs) index f h q k = index_refs-Fits rk refs index f h q k
index_refs-Fits rk (float v ∷ refs) index f h q k = index_refs-Fits rk refs index f h q k
index_refs-Fits rk (text v ∷ refs) index f h q k = index_refs-Fits rk refs index f h q k
index_refs-Fits rk (array v ∷ refs) index f h q k = index_refs-Fits rk refs index f h q k

index_rules-Fits :
    (rk : RouteKey) (rules : List Json) (index : Index) (f : String → RouteKey → Bool)
    → Fits index f
    → Fits
        (index_rules rk rules index)
        (λ q k. f q k || any (rule_names rk.ns q) rules && same_route rk k)
unfolding index_rules
index_rules-Fits rk [] index f h q k = h q k ∙ ap (λ b. if b then 1 else 0) (sym (or_false (f q k)))
index_rules-Fits rk (object r ∷ rules) index f h q k =
    let refs = slice_of (field_value "backendRefs" r) in
    index_rules-Fits rk rules (index_refs rk refs index)
      (λ q k. f q k || any (ref_names rk.ns q) refs && same_route rk k)
      (index_refs-Fits rk refs index f h) q k
    ∙ ap (λ b. if b then 1 else 0)
        (fold_or (f q k) (any (ref_names rk.ns q) refs) (any (rule_names rk.ns q) rules)
          (same_route rk k))
index_rules-Fits rk (null ∷ rules) index f h q k = index_rules-Fits rk rules index f h q k
index_rules-Fits rk (bool v ∷ rules) index f h q k = index_rules-Fits rk rules index f h q k
index_rules-Fits rk (int v ∷ rules) index f h q k = index_rules-Fits rk rules index f h q k
index_rules-Fits rk (float v ∷ rules) index f h q k = index_rules-Fits rk rules index f h q k
index_rules-Fits rk (text v ∷ rules) index f h q k = index_rules-Fits rk rules index f h q k
index_rules-Fits rk (array v ∷ rules) index f h q k = index_rules-Fits rk rules index f h q k

module _ (u : Unstructured) where
  index_routes-Fits :
      (routes : List Json) (index : Index) (f : String → RouteKey → Bool)
      → Fits index f
      → Fits (index_routes u routes index) (λ q k. f q k || any_names u routes q k)
  unfolding index_routes
  index_routes-Fits [] index f h q k = h q k ∙ ap (λ b. if b then 1 else 0) (sym (or_false (f q k)))
  index_routes-Fits (route ∷ routes) index f h q k =
      let rk = route_key u route in
      let named = any (rule_names rk.ns q) (rules_of u route) && same_route rk k in
      index_routes-Fits routes (index_rules rk (rules_of u route) index)
        (λ q k. f q k || any (rule_names rk.ns q) (rules_of u route) && same_route rk k)
        (index_rules-Fits rk (rules_of u route) index f h) q k
      ∙ ap (λ b. if b then 1 else 0) (or_assoc (f q k) named (any_names u routes q k))

  -- When the routes are resolved, the index is built, and at each service it has every route that names
  -- the service in a reference of one of its rules, once, and no other.
  pub build_service_index-Fits :
      {S : Type 0} (api : Api S) (opts : ResyncOptions) (s : S) (routes : List Json)
      → resolve_targets u api opts s ≡ targets routes
      → (index : Index) × (build_service_index u api opts s ≡ indexed index)
        × ((q : String) → Matches (routes_at index q) (any_names u routes q))
  unfolding build_service_index
  build_service_index-Fits api opts s routes h = (
    index_routes u routes [],
    rw (h) refl,
    index_routes-Fits routes [] (λ q k. false) (λ q k. refl),
  )
