-- ===== src/Phases/Routes/Down/Collected.antt =====
-- internal/aws/phases/phase06_routetables.go: the ids that the way down collects.
use mathlib.Core.Path.{subst}
use awsbnkctl.Base.{
  ◌≡◌, refl, sym, ap, ◌∙◌, arith, eq_iff, inl, inr, Bool-cases, ℕ, ◌+◌, String, Bool, true, false,
  not, ◌&&◌, ◌||◌, List, [], ◌∷◌, ◌++◌, ltb, str_eq, is_empty, contains, if◌then◌else◌,
}
use awsbnkctl.Phases.Routes.{RouteTable}
use awsbnkctl.Phases.Routes.Down.{has_main, add_id, add_table, add_tables, rtb_ids_of}

abbrev pub one : Bool → ℕ
one b = if b then 1 else 0

-- How many times the id occurs.
abbrev pub count_id : String → List String → ℕ
count_id id [] = 0
count_id id (x ∷ xs) = one (str_eq x id) + count_id id xs

-- Whether the id is that of a table that is not the main one of its VPC.
abbrev pub owns : String → List RouteTable → Bool
owns id [] = false
owns id (rt ∷ rts) = (not (has_main rt.associations) && str_eq rt.rtb_id id) || owns id rts

count_id-append :
    (id : String) (xs : List String) (x : String)
    → count_id id (xs ++ (x ∷ [])) ≡ count_id id xs + one (str_eq x id)
count_id-append id [] x = omega arith
count_id-append id (y ∷ ys) x = omega (arith, count_id-append id ys x)

contains-count_id : (id : String) (xs : List String) → contains xs id ≡ ltb 0 (count_id id xs)
contains-count_id id [] = refl
contains-count_id id (x ∷ xs) = ground (arith, contains-count_id id xs)

add_same :
    (ids : List String) (id : String) (b : Bool)
    → count_id id ids ≡ one b
    → count_id id (add_id ids id) ≡ one (b || not (is_empty id))
add_same ids id b h =
    ground (arith, contains-count_id id ids, count_id-append id ids id, eq_iff id id)

add_other :
    (ids : List String) (x id : String)
    → str_eq x id ≡ false
    → count_id id (add_id ids x) ≡ count_id id ids
add_other ids x id n = ground (arith, count_id-append id ids x)

add_id-count :
    (ids : List String) (x id : String) (b : Bool)
    → count_id id ids ≡ one b
    → count_id id (add_id ids x) ≡ one (b || (not (is_empty id) && str_eq x id))
add_id-count ids x id b h = elim (Bool-cases (str_eq x id)) [
  | inl e ↦
      subst (λ y. count_id id (add_id ids y) ≡ one (b || (not (is_empty id) && str_eq y id)))
        (sym ((eq_iff x id).0 e)) (ground (arith, add_same ids id b h, eq_iff id id))
  | inr n ↦ ground (arith, add_other ids x id n)
]

add_table-count :
    (ids : List String) (rt : RouteTable) (id : String) (b : Bool)
    → count_id id ids ≡ one b
    → count_id id (add_table ids rt)
      ≡ one (b || (not (is_empty id) && (not (has_main rt.associations) && str_eq rt.rtb_id id)))
add_table-count ids rt id b h = elim (Bool-cases (has_main rt.associations)) [
  | inl main ↦ ground arith
  | inr own ↦ rw own (add_id-count ids rt.rtb_id id b h)
]

regroup : (b e m o : Bool) → ((b || (e && m)) || (e && o)) ≡ (b || (e && (m || o)))
regroup true e m o = refl
regroup false false m o = refl
regroup false true m o = refl

add_tables-count :
    (rts : List RouteTable) (ids : List String) (id : String) (b : Bool)
    → count_id id ids ≡ one b
    → count_id id (add_tables ids rts) ≡ one (b || (not (is_empty id) && owns id rts))
add_tables-count [] ids id b h = ground arith
add_tables-count (rt ∷ rts) ids id b h =
    let e = not (is_empty id) in
    let m = not (has_main rt.associations) && str_eq rt.rtb_id id in
    add_tables-count rts (add_table ids rt) id (b || (e && m)) (add_table-count ids rt id b h)
    ∙ ap one (regroup b e m (owns id rts))

collected : (e p q o : Bool) → (((e && p) || (e && q)) || (e && o)) ≡ (e && (p || q || o))
collected false p q o = refl
collected true true q o = refl
collected true false true o = refl
collected true false false o = refl

-- Whether the id is recorded, or that of a table found which is not the main one of its VPC.
abbrev pub is_doomed : (public private : String) → List RouteTable → String → Bool
is_doomed public private rts id =
    not (is_empty id) && (str_eq public id || str_eq private id || owns id rts)

rtb_ids_of-count :
    (public private : String) (rts : List RouteTable) (id : String)
    → count_id id (rtb_ids_of public private rts) ≡ one (is_doomed public private rts id)
unfolding rtb_ids_of
rtb_ids_of-count public private rts id =
    let e = not (is_empty id) in
    let p = e && str_eq public id in
    let q = p || (e && str_eq private id) in
    let first = add_id-count [] public id false refl in
    let second = add_id-count (add_id [] public) private id p first in
    add_tables-count rts (add_id (add_id [] public) private) id q second
    ∙ ap one (collected e (str_eq public id) (str_eq private id) (owns id rts))

-- The ids that are collected are those.
pub contains-rtb_ids_of :
    (public private : String) (rts : List RouteTable) (id : String)
    → contains (rtb_ids_of public private rts) id ≡ is_doomed public private rts id
contains-rtb_ids_of public private rts id = ground (
  arith,
  contains-count_id id (rtb_ids_of public private rts),
  rtb_ids_of-count public private rts id,
)
