-- ===== src/Phases/Routes/Joined.antt =====
-- internal/aws/phases/phase06_routetables.go: the subnets that a run associates with a table.
use mathlib.Core.Path.{subst}
use awsbnkctl.Base.{
  ◌≡◌, refl, sym, arith, inl, inr, Bool-cases, String, Bool, true, false, ◌||◌, List, [], ◌∷◌, All,
  is_empty, if◌then◌else◌,
}
use awsbnkctl.Tags.{Filter}
use awsbnkctl.Phases.{
  World, Action, Result, ok, err, Reply, reply, api_error, replied, carry_on, pure, call,
}
use awsbnkctl.Phases.Routes.{
  RouteTable, RouteApi, describe_rtb, first_has, is_dry_id, associate_unless,
  ensure_rtb_association, associate_all, associate_path,
}

-- What EC2 says of associations, with a view that tells which subnets a table has: a table that is
-- described shows no others, a call that associates succeeds only in adding one, and no look or
-- association takes one away.
pub record Associates {S : Type 0} (api : RouteApi S) (joined : S → (rtb subnet : String) → Bool)
    : Type 0 where
  pub describe_keeps :
      (fs : List Filter) (s : S) (rtb subnet : String)
      → joined s rtb subnet ≡ true
      → joined (api.describe_route_tables fs s).1 rtb subnet ≡ true
  pub describe_shows :
      (s : S) (rtb subnet : String) (rts : List RouteTable)
      → (api.describe_route_tables (record { name = "route-table-id"; values = rtb ∷ [] } ∷ []) s).0
        ≡ reply rts
      → first_has subnet rts ≡ true
      → joined
          (api.describe_route_tables
            (record { name = "route-table-id"; values = rtb ∷ [] } ∷ [])
            s).1
          rtb
          subnet
        ≡ true
  pub associate_keeps :
      (s : S) (rtb' subnet' rtb subnet : String)
      → joined s rtb subnet ≡ true
      → joined (api.associate_route_table rtb' subnet' s).1 rtb subnet ≡ true
  pub associate_joins :
      (s : S) (rtb subnet : String)
      → (api.associate_route_table rtb subnet s).0 ≡ reply tt
      → joined (api.associate_route_table rtb subnet s).1 rtb subnet ≡ true

replied_ok : (name : String) (r : Reply Unit) → replied name r ≡ ok tt → r ≡ reply tt
replied_ok name (reply u) h = refl
replied_ok name (api_error code) h = absurd (cc)

module _ {S : Type 0} where
  -- A chain that succeeds, step by step.
  pub ran :
      {A : Type 0} (p : Result A × World S) (f : A → Action S Unit)
      → (carry_on p f).0 ≡ ok tt
      → (a : A) × ((f a p.1).0 ≡ ok tt) × ((carry_on p f).1 ≡ (f a p.1).1) × (p.0 ≡ ok a)
  ran (ok a, w) f h = (a, h, refl, refl)
  ran (err e, w) f h = absurd (cc)

module _ {S : Type 0} (api : RouteApi S) (joined : S → (rtb subnet : String) → Bool)
    (laws : Associates api joined) where
  abbrev pub IsIn : World S → (rtb subnet : String) → Type 0
  IsIn w rtb subnet = joined w.cloud rtb subnet ≡ true

  abbrev pub Grows : Action S Unit → Type 0
  Grows m = (w : World S) (rtb subnet : String) → IsIn w rtb subnet → IsIn (m w).1 rtb subnet

  pub carry_on-Grows :
      {A : Type 0} (p : Result A × World S) (f : A → Action S Unit) (rtb subnet : String)
      → IsIn p.1 rtb subnet
      → ((a : A) → Grows (f a))
      → IsIn (carry_on p f).1 rtb subnet
  carry_on-Grows (ok a, w) f rtb subnet h k = k a w rtb subnet h
  carry_on-Grows (err e, w) f rtb subnet h k = h

  unless-Grows : (rtb subnet : String) (b : Bool) → Grows (associate_unless api rtb subnet b)
  unfolding call
  unless-Grows rtb subnet true w r x h = h
  unless-Grows rtb subnet false w r x h = laws.associate_keeps w.cloud rtb subnet r x h

  ensure-Grows : (rtb subnet : String) → Grows (ensure_rtb_association api rtb subnet)
  unfolding ensure_rtb_association call
  ensure-Grows rtb subnet w r x h =
      carry_on-Grows (call "DescribeRouteTables" (describe_rtb api rtb) w)
        (λ out. associate_unless api rtb subnet (first_has subnet out)) r x
        (laws.describe_keeps (record { name = "route-table-id"; values = rtb ∷ [] } ∷ []) w.cloud r
          x h)
        (λ out. unless-Grows rtb subnet (first_has subnet out))

  pub all-Grows : (rtb : String) (subnets : List String) → Grows (associate_all api rtb subnets)
  unfolding associate_all
  all-Grows rtb [] w r x h = h
  all-Grows rtb (s ∷ ss) w r x h =
      carry_on-Grows (ensure_rtb_association api rtb s w) (λ u. associate_all api rtb ss) r x
        (ensure-Grows rtb s w r x h) (λ u. all-Grows rtb ss)

  pub path-Grows : (rtb subnet : String) → Grows (associate_path api rtb subnet)
  path-Grows rtb subnet w r x h = elim (Bool-cases (is_empty subnet || is_dry_id subnet)) [
    | inl none ↦ rw none h
    | inr real ↦ rw real (ensure-Grows rtb subnet w r x h)
  ]

  unless_joins :
      (rtb subnet : String) (b : Bool) (w : World S)
      → (b ≡ true → IsIn w rtb subnet)
      → (associate_unless api rtb subnet b w).0 ≡ ok tt
      → IsIn (associate_unless api rtb subnet b w).1 rtb subnet
  unfolding call
  unless_joins rtb subnet true w h e = h refl
  unless_joins rtb subnet false w h e =
      laws.associate_joins w.cloud rtb subnet
        (replied_ok "AssociateRouteTable" (api.associate_route_table rtb subnet w.cloud).0 e)

  looked_joins :
      (rtb subnet : String) (out : Reply (List RouteTable)) (w : World S)
      → ((rts : List RouteTable)
          → out ≡ reply rts
          → first_has subnet rts ≡ true
          → IsIn w rtb subnet)
      → (let p =
            carry_on
              (replied "DescribeRouteTables" out, w)
              (λ rts. associate_unless api rtb subnet (first_has subnet rts)) in
          p.0 ≡ ok tt → IsIn p.1 rtb subnet)
  looked_joins rtb subnet (reply rts) w h =
      unless_joins rtb subnet (first_has subnet rts) w (h rts refl)
  looked_joins rtb subnet (api_error code) w h = λ e. absurd (cc)

  ensure_joins :
      (rtb subnet : String) (w : World S)
      → (ensure_rtb_association api rtb subnet w).0 ≡ ok tt
      → IsIn (ensure_rtb_association api rtb subnet w).1 rtb subnet
  unfolding ensure_rtb_association call
  ensure_joins rtb subnet w =
      let (out, s) = describe_rtb api rtb w.cloud in
      looked_joins rtb subnet out (record w { cloud = s }) (laws.describe_shows w.cloud rtb subnet)

  pub joins-All :
      (rtb : String) (subnets : List String) (w : World S)
      → (associate_all api rtb subnets w).0 ≡ ok tt
      → All (IsIn (associate_all api rtb subnets w).1 rtb) subnets
  unfolding associate_all
  joins-All rtb [] w e = tt
  joins-All rtb (s ∷ ss) w e =
      let first = ensure_rtb_association api rtb s w in
      let (u, e', end, e'') = ran first (λ u. associate_all api rtb ss) e in
      subst (λ x. All (IsIn x rtb) (s ∷ ss)) (sym end)
        (all-Grows rtb ss first.1 rtb s (ensure_joins rtb s w e''), joins-All rtb ss first.1 e')

  -- The subnet of the data path is in the table, if it is a real one.
  abbrev pub IsRouted : World S → (rtb subnet : String) → Type 0
  IsRouted w rtb subnet = (is_empty subnet || is_dry_id subnet) ≡ false → IsIn w rtb subnet

  path_if :
      (b : Bool) (rtb subnet : String) (w : World S)
      → ((if b then pure tt else ensure_rtb_association api rtb subnet) w).0 ≡ ok tt
      → b ≡ false
      → IsIn ((if b then pure tt else ensure_rtb_association api rtb subnet) w).1 rtb subnet
  path_if true rtb subnet w e h = absurd (ground arith)
  path_if false rtb subnet w e h = ensure_joins rtb subnet w e

  pub path_joins :
      (rtb subnet : String) (w : World S)
      → (associate_path api rtb subnet w).0 ≡ ok tt
      → IsRouted (associate_path api rtb subnet w).1 rtb subnet
  path_joins rtb subnet w e real = path_if (is_empty subnet || is_dry_id subnet) rtb subnet w e real
