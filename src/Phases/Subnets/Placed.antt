-- ===== src/Phases/Subnets/Placed.antt =====
-- Where resolveClusterAZs puts the subnets.
use native.Mathlib.Nat.{mod-lt}
use awsbnkctl.Base.{
  ℕ, suc, ◌%◌, ◌<◌, ◌≡◌, refl, arith, String, Bool, true, false, List, [], ◌∷◌, length, take,
  get_or, contains, is_empty, Option, none, some, ◌&&◌, all, null, eq_iff, ◌||◌, zero, ltb, inl,
  inr, Bool-cases, if◌then◌else◌,
}
use awsbnkctl.Intent.Schema.{Cluster, SubnetSpec, DataPathSpec}
use awsbnkctl.Phases.{reply, Zone}
use awsbnkctl.Phases.Subnets.Zones.{
  is_open, any_open, active_zones, place_subnets, place_side, place_path, place_cluster,
  resolve_zones, available_zones, sort_strings,
}

-- The zone of a subnet is one of the list.
abbrev pub stands_in : List String → SubnetSpec → Bool
stands_in avail s = contains avail s.az

all_grow :
    (x : String) (xs zs : List String)
    → all (contains xs) zs ≡ true
    → all (contains (x ∷ xs)) zs ≡ true
all_grow x xs [] h = refl
all_grow x xs (z ∷ zs) h = ground (arith, all_grow x xs zs)

all_self : (xs : List String) → all (contains xs) xs ≡ true
all_self [] = refl
all_self (x ∷ xs) = ground (arith, all_grow x xs xs (all_self xs), eq_iff x x)

all-take :
    (f : String → Bool) (n : ℕ) (xs : List String) → all f xs ≡ true → all f (take n xs) ≡ true
all-take f zero xs h = refl
all-take f (suc n) [] h = refl
all-take f (suc n) (x ∷ xs) h = ground (arith, all-take f n xs)

all-get_or :
    (f : String → Bool) (xs : List String) (i : ℕ)
    → all f xs ≡ true
    → i < length xs
    → f (get_or xs i "") ≡ true
all-get_or f [] i h k = absurd (omega arith)
all-get_or f (x ∷ xs) zero h k = ground arith
all-get_or f (x ∷ xs) (suc i) h k = all-get_or f xs i (ground arith) (omega arith)

none_open : (avail azs : List String) → any_open avail azs ≡ false → all (contains avail) azs ≡ true
none_open avail [] h = refl
none_open avail (az ∷ azs) h = ground (arith, none_open avail azs)

-- How many zones are taken when the ones of the file cannot be kept.
wanted : List String → List String → ℕ
wanted avail azs =
    let n = if ltb (length azs) 2 then 2 else length azs in
    if ltb (length avail) n then length avail else n

active_zones_available :
    (avail azs : List String) → all (contains avail) (active_zones avail azs) ≡ true
unfolding active_zones wanted
active_zones_available avail azs = elim (Bool-cases (null azs || any_open avail azs)) [
  | inl e ↦ rw e (all-take (contains avail) (wanted avail azs) avail (all_self avail))
  | inr n ↦ rw n (none_open avail azs (ground arith))
]

take_some : (n : ℕ) (a : String) (xs : List String) → 0 < n → 0 < length (take n (a ∷ xs))
take_some zero a xs h = absurd (omega arith)
take_some (suc n) a xs h = omega arith

wanted_some : (avail azs : List String) → 0 < length avail → 0 < wanted avail azs
unfolding wanted
wanted_some avail azs h = ground arith

some_kept : (avail azs : List String) → (null azs || any_open avail azs) ≡ false → 0 < length azs
some_kept avail [] h = absurd (cc)
some_kept avail (az ∷ azs) h = omega arith

active_zones_some :
    (avail azs : List String) → null avail ≡ false → 0 < length (active_zones avail azs)
unfolding active_zones wanted
active_zones_some [] azs h = absurd (cc)
active_zones_some (a ∷ avail) azs h = elim (Bool-cases (null azs || any_open (a ∷ avail) azs)) [
  | inl e ↦
      rw e (take_some (wanted (a ∷ avail) azs) a avail (wanted_some (a ∷ avail) azs (omega arith)))
  | inr n ↦ rw n (some_kept (a ∷ avail) azs n)
]

place_subnets_available :
    (avail azs : List String) (i : ℕ) (ss : List SubnetSpec)
    → all (contains avail) azs ≡ true
    → 0 < length azs
    → all (stands_in avail) (place_subnets avail azs i ss) ≡ true
unfolding place_subnets
place_subnets_available avail azs i [] h k = refl
place_subnets_available avail azs i (s ∷ ss) h k =
    let rest = place_subnets_available avail azs (suc i) ss h k in
    let chosen = all-get_or (contains avail) azs (i % length azs) h (mod-lt i k) in
    elim (Bool-cases (is_open avail s.az)) [
      | inl e ↦ rw (e, chosen) rest
      | inr n ↦ let stays : contains avail s.az ≡ true = ground arith in rw (n, stays) rest
    ]

-- The zone of a subnet of the data path that has a block is one of the list.
abbrev pub side_stands_in : List String → SubnetSpec → Bool
side_stands_in avail s = is_empty s.cidr || contains avail s.az

abbrev pub path_stands_in : List String → Option DataPathSpec → Bool
path_stands_in avail none = true
path_stands_in avail (some dp) =
    side_stands_in avail dp.external && side_stands_in avail dp.internal

place_side_available :
    (avail azs : List String) (s : SubnetSpec)
    → all (contains avail) azs ≡ true
    → 0 < length azs
    → side_stands_in avail (place_side avail azs s) ≡ true
place_side_available avail azs s h k =
    let chosen = all-get_or (contains avail) azs 0 h k in
    elim (Bool-cases (is_empty s.cidr)) [
      | inl e ↦ simp (e) refl
      | inr f ↦ elim (Bool-cases (is_open avail s.az)) [
        | inl e ↦ simp (f, e, chosen) refl
        | inr n ↦
            let stays : contains avail s.az ≡ true = ground arith in rw (f, n, stays) (ground arith)
      ]
    ]

place_path_available :
    (avail azs : List String) (dp : Option DataPathSpec)
    → all (contains avail) azs ≡ true
    → 0 < length azs
    → path_stands_in avail (place_path avail azs dp) ≡ true
place_path_available avail azs none h k = refl
place_path_available avail azs (some dp) h k =
    rw
      (
        place_side_available avail azs dp.external h k,
        place_side_available avail azs dp.internal h k,
      )
      refl

-- When the API names an available zone, then after resolveClusterAZs every zone of the cluster, the
-- zone of every public and of every private subnet, and that of each subnet of the data path that has
-- a block, is one of the available zones.
pub resolve_zones_available :
    (zones : List Zone) (cl : Cluster)
    → null (sort_strings (available_zones zones)) ≡ false
    → (all
          (contains (sort_strings (available_zones zones)))
          (resolve_zones (reply zones) cl).network.azs
        ≡ true)
      × (all
            (stands_in (sort_strings (available_zones zones)))
            (resolve_zones (reply zones) cl).network.subnets.public
          ≡ true)
      × (all
            (stands_in (sort_strings (available_zones zones)))
            (resolve_zones (reply zones) cl).network.subnets.private
          ≡ true)
      × (path_stands_in
            (sort_strings (available_zones zones))
            (resolve_zones (reply zones) cl).network.data_path
          ≡ true)
unfolding resolve_zones place_cluster
resolve_zones_available zones cl h =
    let avail = sort_strings (available_zones zones) in
    let azs = active_zones avail cl.network.azs in
    let known = active_zones_available avail cl.network.azs in
    let filled = active_zones_some avail cl.network.azs h in
    rw h (
      known,
      place_subnets_available avail azs 0 cl.network.subnets.public known filled,
      place_subnets_available avail azs 0 cl.network.subnets.private known filled,
      place_path_available avail azs cl.network.data_path known filled,
    )
