-- ===== src/Phases/Routes/Down/Tables.antt =====
-- internal/aws/phases/phase06_routetables.go: what the calls of the way down do to the tables.
use mathlib.Core.Path.{subst}
use awsbnkctl.Base.{
  ◌≡◌, refl, arith, eq_iff, inl, inr, Bool-cases, String, Bool, true, false, not, ◌&&◌, Option,
  none, some, List, [], ◌∷◌, str_eq, contains,
}
use awsbnkctl.Tags.{Filter}
use awsbnkctl.Phases.{Aws, World, ok, err, Reply, reply, api_error, call_failed}
use awsbnkctl.Phases.Polling.{not_found_codes, is_not_found_code}
use awsbnkctl.Phases.Nat.{call_removing, removed}
use awsbnkctl.Phases.Safe.{Keeps, >>=-Keeps, >>-Keeps}
use awsbnkctl.Phases.Routes.{Association, RouteTable, RouteApi}
use awsbnkctl.Phases.Routes.Down.{
  is_main, see_tables, disassociate_id, disassociate_each, disassociate_tables, disassociate_rtb,
}

-- What EC2 says of the tables that it has, with a view that tells whether a table is there: a look
-- and the end of an association leave the tables; a call that deletes a table leaves the others, and
-- the table is not there when the call succeeds or does not find it.
pub record Deletes {S : Type 0} (api : RouteApi S) (there : S → String → Bool) : Type 0 where
  pub describe_keeps :
      (fs : List Filter) (s : S) (id : String)
      → there (api.describe_route_tables fs s).1 id ≡ there s id
  pub disassociate_keeps :
      (assoc : String) (s : S) (id : String)
      → there (api.disassociate_route_table assoc s).1 id ≡ there s id
  pub delete_spares :
      (rtb : String) (s : S) (id : String)
      → str_eq rtb id ≡ false
      → there (api.delete_route_table rtb s).1 id ≡ there s id
  pub delete_removes :
      (rtb : String) (s : S)
      → (api.delete_route_table rtb s).0 ≡ reply tt
      → there (api.delete_route_table rtb s).1 rtb ≡ false
  pub delete_absent :
      (rtb code : String) (s : S)
      → (api.delete_route_table rtb s).0 ≡ api_error code
      → contains not_found_codes code ≡ true
      → there (api.delete_route_table rtb s).1 rtb ≡ false

module _ {S : Type 0} (aws : Aws S) (api : RouteApi S) (there : S → String → Bool)
    (laws : Deletes api there) (id : String) where
  -- Whether the table is there.
  abbrev pub sees : World S → Bool
  sees w = there w.cloud id

  see_tables-Keeps : (rtb : String) → Keeps sees (see_tables aws api rtb)
  unfolding see_tables
  see_tables-Keeps rtb w =
      laws.describe_keeps (record { name = "route-table-id"; values = rtb ∷ [] } ∷ []) w.cloud id

  id-Keeps : (main : Bool) (assoc : Option String) → Keeps sees (disassociate_id aws api main assoc)
  unfolding call_removing
  id-Keeps main none w = refl
  id-Keeps true (some assoc) w = refl
  id-Keeps false (some assoc) w = laws.disassociate_keeps assoc w.cloud id

  each-Keeps : (more : List Association) → Keeps sees (disassociate_each aws api more)
  unfolding disassociate_each
  each-Keeps [] = λ w. refl
  each-Keeps (a ∷ more) =
      >>-Keeps sees (disassociate_id aws api (is_main a.main) a.association_id)
        (disassociate_each aws api more) (id-Keeps (is_main a.main) a.association_id)
        (each-Keeps more)

  tables-Keeps : (rts : List RouteTable) → Keeps sees (disassociate_tables aws api rts)
  unfolding disassociate_tables
  tables-Keeps [] = λ w. refl
  tables-Keeps (rt ∷ rts) =
      >>-Keeps sees (disassociate_each aws api rt.associations) (disassociate_tables aws api rts)
        (each-Keeps rt.associations) (tables-Keeps rts)

  pub rtb-Keeps : (rtb : String) → Keeps sees (disassociate_rtb aws api rtb)
  unfolding disassociate_rtb
  rtb-Keeps rtb =
      >>=-Keeps sees (see_tables aws api rtb) (disassociate_tables aws api) (see_tables-Keeps rtb)
        tables-Keeps

  removed_gone :
      (rtb : String) (s : S) (r : Reply Unit)
      → (api.delete_route_table rtb s).0 ≡ r
      → removed "DeleteRouteTable" r ≡ ok tt
      → there (api.delete_route_table rtb s).1 rtb ≡ false
  unfolding is_not_found_code
  removed_gone rtb s (reply u) e h = laws.delete_removes rtb s e
  removed_gone rtb s (api_error code) e h = elim (Bool-cases (contains not_found_codes code)) [
    | inl gone ↦ laws.delete_absent rtb code s e gone
    | inr n ↦ let bad : err (call_failed "DeleteRouteTable" code) ≡ ok tt = rw n at h in absurd (cc)
  ]

  -- After the call of DeleteRouteTable that does not fail.
  pub delete_sees :
      (rtb : String) (w : World S)
      → (call_removing "DeleteRouteTable" (api.delete_route_table rtb) w).0 ≡ ok tt
      → sees (call_removing "DeleteRouteTable" (api.delete_route_table rtb) w).1
        ≡ (sees w && not (str_eq rtb id))
  unfolding call_removing
  delete_sees rtb w h = elim (Bool-cases (str_eq rtb id)) [
    | inr other ↦ ground (arith, laws.delete_spares rtb w.cloud id other)
    | inl same ↦
        let gone = removed_gone rtb w.cloud (api.delete_route_table rtb w.cloud).0 refl h in
        let gone' =
          subst (λ x. there (api.delete_route_table rtb w.cloud).1 x ≡ false)
            ((eq_iff rtb id).0 same) gone in
        ground arith
  ]
