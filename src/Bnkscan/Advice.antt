-- ===== src/Bnkscan/Advice.antt =====
-- internal/k8s/bnkscan/readiness.go: the tallies of a verdict, and when it advises a migration.
use Prim.Native.String
use awsbnkctl.Base.{
  ◌≡◌, refl, ap, ◌∙◌, arith, show_nat, ◌↔◌, ◌⊎◌, inl, inr, ℕ, ◌≤◌, ◌<◌, String, Bool, true, false,
  List, [], ◌∷◌, ◌++◌, length, null, contains, codes, codes-append, join, ltb, sym, not, Bool-cases,
  if◌then◌else◌,
}
use awsbnkctl.Bnkscan.{
  Generation, gen23, gen24, gen_mixed, gen_none, Index, readiness, detect_generation, count,
  legacy_policy_group, gateway_f5_group, migration_advice, advice_text, serves_24, migrate_hint,
}
use awsbnkctl.Bnkscan.Verdict.{AllReady, tally_bounds}

-- In a verdict each tally counts every object of its kind, never has more ready objects than objects,
-- and has as many of them if and only if each object is ready.
pub readiness_tallies :
    (accept : Bool) (idx : Index)
    → let r = readiness accept idx in
      ((r.infras.total ≡ length idx.infras)
        × (r.infras.ready ≤ r.infras.total)
        × (r.infras.ready ≡ r.infras.total ↔ AllReady idx.infras))
      × ((r.gateways.total ≡ length idx.gateways)
          × (r.gateways.ready ≤ r.gateways.total)
          × (r.gateways.ready ≡ r.gateways.total ↔ AllReady idx.gateways))
unfolding readiness
readiness_tallies accept idx = (tally_bounds idx.infras, tally_bounds idx.gateways)

null-left {ℓ} : {A : Type ℓ} (xs ys : List A) → null xs ≡ false → null (xs ++ ys) ≡ false
null-left [] ys h = cc
null-left (x ∷ xs) ys h = refl

null-right {ℓ} : {A : Type ℓ} (xs ys : List A) → null ys ≡ false → null (xs ++ ys) ≡ false
null-right [] ys h = h
null-right (x ∷ xs) ys h = refl

text_left : (a b : String) → null (codes a) ≡ false → null (codes (String.◌++◌ a b)) ≡ false
text_left a b h = rw (codes-append a b) (null-left (codes a) (codes b) h)

text_right : (a b : String) → null (codes b) ≡ false → null (codes (String.◌++◌ a b)) ≡ false
text_right a b h = rw (codes-append a b) (null-right (codes a) (codes b) h)

join-first :
    (p q : String) (ps : List String)
    → null (codes p) ≡ false
    → null (codes (join "" (p ∷ q ∷ ps))) ≡ false
unfolding join
join-first p q ps h = text_left p (String.◌++◌ "" (join "" (q ∷ ps))) h

join-second :
    (p q r : String) (ps : List String)
    → null (codes q) ≡ false
    → null (codes (join "" (p ∷ q ∷ r ∷ ps))) ≡ false
unfolding join
join-second p q r ps h =
    let rest = join-first q r ps h in
    text_right p (String.◌++◌ "" (join "" (q ∷ r ∷ ps))) (text_right "" (join "" (q ∷ r ∷ ps)) rest)

advice-crds : (crs : ℕ) → null (codes (advice_text true crs)) ≡ false
unfolding advice_text
advice-crds crs = elim (Bool-cases (ltb 0 crs)) [
  | inl e ↦ rw (e) (
      join-first "legacy 2.3 CRDs (" legacy_policy_group
        (") still served and " ∷ show_nat crs ∷ " legacy CR(s) present; " ∷ migrate_hint ∷ []) refl)
  | inr e ↦ rw (e) (
      join-first "legacy 2.3 CRDs (" legacy_policy_group (") still served; " ∷ migrate_hint ∷ [])
        refl)
]

advice-crs : (crs : ℕ) → null (codes (advice_text false crs)) ≡ not (ltb 0 crs)
unfolding advice_text
advice-crs crs = elim (Bool-cases (ltb 0 crs)) [
  | inl e ↦ rw (e) (join-second (show_nat crs) " legacy 2.3 CR(s) present; " migrate_hint [] refl)
  | inr e ↦ rw (e) refl
]

-- Which clusters are advised to migrate.
abbrev pub IsHalfWay : Index → Type 0
IsHalfWay idx = (idx.generation ≡ gen_mixed) ⊎ ((idx.generation ≡ gen24) × (0 < count idx.legacy))

abbrev serves_23 : Generation → Bool
serves_23 gen23 = true
serves_23 gen_mixed = true
serves_23 other = false

detect_generation-legacy :
    (groups : List String)
    → contains groups legacy_policy_group ≡ serves_23 (detect_generation groups)
unfolding detect_generation
detect_generation-legacy groups = elim (Bool-cases (contains groups gateway_f5_group)) [
  | inl e ↦ elim (Bool-cases (contains groups legacy_policy_group)) [
    | inl f ↦ rw (e, f) refl
    | inr f ↦ rw (e, f) refl
  ]
  | inr e ↦ elim (Bool-cases (contains groups legacy_policy_group)) [
    | inl f ↦ rw (e, f) refl
    | inr f ↦ rw (e, f) refl
  ]
]

advice_iff :
    (g : Generation) (crs : ℕ)
    → null (codes (if not (serves_24 g) then "" else advice_text (serves_23 g) crs)) ≡ false
      ↔ (g ≡ gen_mixed) ⊎ ((g ≡ gen24) × (0 < crs))
advice_iff gen23 crs = ((λ h. cc), λ h. elim h [ inl e ↦ cc | inr e ↦ let wrong = e.0 in cc ])
advice_iff gen_none crs = ((λ h. cc), λ h. elim h [ inl e ↦ cc | inr e ↦ let wrong = e.0 in cc ])
advice_iff gen_mixed crs = ((λ h. inl refl), λ h. advice-crds crs)
advice_iff gen24 crs = (
  (λ h. let left = advice-crs crs in inr (refl, ground arith)),
  λ h. elim h [
    | inl e ↦ cc
    | inr e ↦ let (same, some) = e in let left = advice-crs crs in ground arith
  ],
)

-- When the generation is the one detected from the groups, a verdict advises a migration if and only if
-- the cluster serves both APIs, or serves 2.4 and has an object of 2.3.
pub migration_advice_iff :
    (accept : Bool) (idx : Index)
    → idx.generation ≡ detect_generation idx.groups
    → null (codes (migration_advice (readiness accept idx))) ≡ false ↔ IsHalfWay idx
unfolding migration_advice readiness
migration_advice_iff accept idx same =
    let legacy = detect_generation-legacy idx.groups in
    rw (legacy ∙ ap serves_23 (sym same)) (advice_iff idx.generation (count idx.legacy))
