-- ===== src/Watch/Keys.antt =====
-- pkg/bnk/watch.go: sets of routes as lists without repetition.
use awsbnkctl.Base.{
  ◌≡◌, refl, sym, ap, ◌∙◌, arith, eq_iff, inl, inr, ℕ, ◌+◌, Bool, true, false, ◌||◌, List, [], ◌∷◌,
  Bool-cases, ltb, if◌then◌else◌,
}
use awsbnkctl.Watch.{RouteKey, same_route, contains_route}
use awsbnkctl.Watch.Loop.{queue_route, queue_routes}

pub same_route_sound : (r k : RouteKey) → same_route r k ≡ true → r ≡ k
same_route_sound r k h =
    let ns : r.ns ≡ k.ns = ground (arith, eq_iff r.ns k.ns) in
    let name : r.name ≡ k.name = ground (arith, eq_iff r.name k.name) in
    ap (λ n. record r { ns = n }) ns ∙ ap (λ n. record k { name = n }) name

pub same_route_self : (r : RouteKey) → same_route r r ≡ true
same_route_self r = ground (arith, eq_iff r.ns r.ns, eq_iff r.name r.name)

-- How often a route stands in a list.
abbrev pub count_route : RouteKey → List RouteKey → ℕ
count_route k [] = 0
count_route k (r ∷ rs) = (if same_route r k then 1 else 0) + count_route k rs

abbrev pub RouteSet : Type 0
RouteSet = RouteKey → Bool

-- A list has each route of a set once and no other.
abbrev pub Matches : List RouteKey → RouteSet → Type 0
Matches rs f = (k : RouteKey) → count_route k rs ≡ (if f k then 1 else 0)

contains_head :
    (s b c : Bool) (n : ℕ)
    → (if s then 1 else 0) + n ≡ (if b then 1 else 0)
    → (n ≡ (if b then 1 else 0) → c ≡ b)
    → (s || c) ≡ b
contains_head true true c n h rest = refl
contains_head true false c n h rest = absurd (omega arith)
contains_head false b c n h rest = let same : n ≡ 0 + n = omega arith in rest (same ∙ h)

pub contains-count :
    (k : RouteKey) (rs : List RouteKey) (b : Bool)
    → count_route k rs ≡ (if b then 1 else 0)
    → contains_route rs k ≡ b
contains-count k [] true h = absurd (omega arith)
contains-count k [] false h = refl
contains-count k (r ∷ rs) b h =
    contains_head (same_route r k) b (contains_route rs k) (count_route k rs) h
      (contains-count k rs b)

pub contains_ltb :
    (k : RouteKey) (rs : List RouteKey) → contains_route rs k ≡ ltb 0 (count_route k rs)
contains_ltb k [] = refl
contains_ltb k (r ∷ rs) =
    let rest = contains_ltb k rs in
    elim (Bool-cases (same_route r k)) [
      | inl e ↦ rw (e) (ground arith)
      | inr e ↦ rw (e) (ground arith)
    ]

pub contains-queue_routes :
    (k : RouteKey) (ks rs : List RouteKey)
    → contains_route rs k ≡ true
    → contains_route (queue_routes ks rs) k ≡ true
unfolding queue_routes
contains-queue_routes k [] rs h = h
contains-queue_routes k (r ∷ ks) rs h =
    contains-queue_routes k ks (queue_route r rs) (elim (Bool-cases (contains_route rs r)) [
      | inl e ↦ rw (e) h
      | inr e ↦ rw (e) (rw (h) (ground arith))
    ])

queued_head :
    (old new s : Bool) (n : ℕ)
    → n ≡ (if new then 1 else 0)
    → (s ≡ true → old ≡ new)
    → (if old then n else (if s then 1 else 0) + n) ≡ (if new || s then 1 else 0)
queued_head true true s n h e = h
queued_head false true true n h e = let wrong = e refl in absurd (cc)
queued_head false true false n h e = omega arith
queued_head true false true n h e = let wrong = e refl in absurd (cc)
queued_head true false false n h e = h
queued_head false false true n h e = omega arith
queued_head false false false n h e = omega arith

count-if :
    (k r : RouteKey) (rs : List RouteKey) (b : Bool)
    → count_route k (if b then rs else r ∷ rs)
      ≡ (if b then count_route k rs else (if same_route r k then 1 else 0) + count_route k rs)
count-if k r rs true = refl
count-if k r rs false = refl

queue_route-Matches :
    (r : RouteKey) (rs : List RouteKey) (f : RouteSet)
    → Matches rs f
    → Matches (queue_route r rs) (λ k. f k || same_route r k)
queue_route-Matches r rs f h k =
    let old : contains_route rs r ≡ f r = contains-count r rs (f r) (h r) in
    count-if k r rs (contains_route rs r)
    ∙ queued_head (contains_route rs r) (f k) (same_route r k) (count_route k rs) (h k)
        (λ e. old ∙ ap f (same_route_sound r k e))

pub or_assoc : (a b c : Bool) → ((a || b) || c) ≡ (a || (b || c))
or_assoc true b c = refl
or_assoc false b c = refl

pub or_false : (a : Bool) → (a || false) ≡ a
or_false true = refl
or_false false = refl

pub queue_routes-Matches :
    (ks rs : List RouteKey) (f : RouteSet)
    → Matches rs f
    → Matches (queue_routes ks rs) (λ k. f k || contains_route ks k)
unfolding queue_routes
queue_routes-Matches [] rs f h k = h k ∙ ap (λ b. if b then 1 else 0) (sym (or_false (f k)))
queue_routes-Matches (r ∷ ks) rs f h k =
    queue_routes-Matches ks (queue_route r rs) (λ k. f k || same_route r k)
      (queue_route-Matches r rs f h) k
    ∙ ap (λ b. if b then 1 else 0) (or_assoc (f k) (same_route r k) (contains_route ks k))
