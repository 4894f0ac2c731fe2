-- ===== src/Phases/Routes/Filled.antt =====
-- internal/aws/phases/phase06_routetables.go: what a run leaves when it gets through with a table.
use mathlib.Core.Path.{subst}
use awsbnkctl.Base.{◌≡◌, refl, sym, ◌∙◌, String, Bool, ◌||◌, List, [], ◌∷◌, All, is_empty}
use awsbnkctl.Cache.{State, get}
use awsbnkctl.Cache.Recorded.{get-set}
use awsbnkctl.Phases.{World, ok, Reply, pure, ◌>>=◌, ◌>>◌, get_key, set_key, call}
use awsbnkctl.Phases.Safe.{Keeps, if-Keeps, >>=-Keeps, >>-Keeps}
use awsbnkctl.Phases.Routes.{
  RouteApi, describe_rtb, first_has, is_dry_id, ensure_rtb_association, associate_all,
  associate_path, associate_key, associate_keys, ensure_route, split_csv, fill_table,
}
use awsbnkctl.Phases.Routes.Joined.{
  Associates, ran, IsIn, Grows, carry_on-Grows, path-Grows, joins-All, IsRouted, path_joins,
}

module _ {S : Type 0} where
  abbrev cache_of : World S → State
  cache_of w = w.cache

module _ {S : Type 0} (api : RouteApi S) (joined : S → (rtb subnet : String) → Bool)
    (laws : Associates api joined) where
  call-Keeps : {A : Type 0} (name : String) (f : S → Reply A × S) → Keeps cache_of (call name f)
  unfolding call
  call-Keeps name f w = refl

  ensure-Keeps : (rtb subnet : String) → Keeps cache_of (ensure_rtb_association api rtb subnet)
  unfolding ensure_rtb_association
  ensure-Keeps rtb subnet =
      >>=-Keeps cache_of (call "DescribeRouteTables" (describe_rtb api rtb)) _
        (call-Keeps "DescribeRouteTables" (describe_rtb api rtb))
        (λ out.
          if-Keeps cache_of (first_has subnet out) (pure tt)
            (call "AssociateRouteTable" (api.associate_route_table rtb subnet)) (λ w. refl)
            (call-Keeps "AssociateRouteTable" (api.associate_route_table rtb subnet)))

  all-Keeps :
      (rtb : String) (subnets : List String) → Keeps cache_of (associate_all api rtb subnets)
  unfolding associate_all
  all-Keeps rtb [] = λ w. refl
  all-Keeps rtb (s ∷ ss) =
      >>-Keeps cache_of (ensure_rtb_association api rtb s) (associate_all api rtb ss)
        (ensure-Keeps rtb s) (all-Keeps rtb ss)

  path-Keeps : (rtb subnet : String) → Keeps cache_of (associate_path api rtb subnet)
  path-Keeps rtb subnet =
      if-Keeps cache_of (is_empty subnet || is_dry_id subnet) (pure tt)
        (ensure_rtb_association api rtb subnet) (λ w. refl) (ensure-Keeps rtb subnet)

  key-Grows : (rtb key : String) → Grows api joined laws (associate_key api rtb key)
  unfolding associate_key get_key
  key-Grows rtb key w = path-Grows api joined laws rtb (get w.cache key) w

  keys-Grows :
      (rtb : String) (keys : List String) → Grows api joined laws (associate_keys api rtb keys)
  unfolding associate_keys
  keys-Grows rtb [] w r x h = h
  keys-Grows rtb (k ∷ ks) w r x h =
      carry_on-Grows api joined laws (associate_key api rtb k w) (λ u. associate_keys api rtb ks) r
        x (key-Grows rtb k w r x h) (λ u. keys-Grows rtb ks)

  key-Keeps : (rtb key : String) → Keeps cache_of (associate_key api rtb key)
  unfolding associate_key get_key
  key-Keeps rtb key w = path-Keeps rtb (get w.cache key) w

  keys-Keeps : (rtb : String) (keys : List String) → Keeps cache_of (associate_keys api rtb keys)
  unfolding associate_keys
  keys-Keeps rtb [] = λ w. refl
  keys-Keeps rtb (k ∷ ks) =
      >>-Keeps cache_of (associate_key api rtb k) (associate_keys api rtb ks) (key-Keeps rtb k)
        (keys-Keeps rtb ks)

  -- The subnets of the data path that a state names are in the table.
  abbrev pub AreRouted : State → World S → String → List String → Type 0
  AreRouted c w rtb = All (λ key. IsRouted api joined laws w rtb (get c key))

  keys_join :
      (rtb : String) (keys : List String) (w : World S)
      → (associate_keys api rtb keys w).0 ≡ ok tt
      → AreRouted w.cache (associate_keys api rtb keys w).1 rtb keys
  unfolding associate_keys associate_key get_key
  keys_join rtb [] w e = tt
  keys_join rtb (k ∷ ks) w e =
      let first = associate_key api rtb k w in
      let (u, e', end, e'') = ran first (λ u. associate_keys api rtb ks) e in
      subst (λ x. AreRouted w.cache x rtb (k ∷ ks)) (sym end)
        (
          λ real.
              keys-Grows rtb ks first.1 rtb (get w.cache k)
                (path_joins api joined laws rtb (get w.cache k) w e'' real),
          subst (λ c. AreRouted c (associate_keys api rtb ks first.1).1 rtb ks) (key-Keeps rtb k w)
              (keys_join rtb ks first.1 e'),
        )

  keys_grow-All :
      (rtb : String) (keys subnets : List String) (w : World S)
      → All (IsIn api joined laws w rtb) subnets
      → All (IsIn api joined laws (associate_keys api rtb keys w).1 rtb) subnets
  keys_grow-All rtb keys [] w h = tt
  keys_grow-All rtb keys (s ∷ ss) w (h, hs) =
      (keys-Grows rtb keys w rtb s h, keys_grow-All rtb keys ss w hs)

  -- What a run leaves that began with the recorded ids `c`.
  abbrev pub IsFilled :
      State → (subnets_key : String) → List String → (rtb_key rtb : String) → World S → Type 0
  IsFilled c subnets_key path_keys rtb_key rtb w =
      All (IsIn api joined laws w rtb) (split_csv (get c subnets_key))
      × AreRouted c w rtb path_keys
      × (get w.cache rtb_key ≡ rtb)

  -- On a server that associates as EC2 says, when phase 06 gets through with a table, every subnet of
  -- the recorded list is in the table, so is every subnet of the data path that is recorded and is
  -- not one of a dry run, and the table is recorded.
  pub fill_table_joins :
      (igw nat subnets_key : String) (path_keys : List String) (rtb_key rtb : String) (w : World S)
      → (fill_table api igw nat subnets_key path_keys rtb_key rtb w).0 ≡ ok tt
      → IsFilled w.cache subnets_key path_keys rtb_key rtb
          (fill_table api igw nat subnets_key path_keys rtb_key rtb w).1
  unfolding fill_table ensure_route get_key set_key
  fill_table_joins igw nat subnets_key path_keys rtb_key rtb w e =
      let subnets = split_csv (get w.cache subnets_key) in
      let routed = ensure_route api rtb "0.0.0.0/0" igw nat w in
      let record_rtb = set_key {S = S} rtb_key rtb in
      let path = associate_keys api rtb path_keys >> record_rtb in
      let listed = get_key subnets_key >>= λ ss. associate_all api rtb (split_csv ss) >> path in
      let (u, e', end, f) = ran routed (λ u. listed) e in
      let shared = associate_all api rtb subnets routed.1 in
      let (u', e'', end', f') = ran shared (λ u. path) e' in
      let pathed = associate_keys api rtb path_keys shared.1 in
      let (u'', e''', end'', f'') = ran pathed (λ u. record_rtb) e'' in
      subst (IsFilled w.cache subnets_key path_keys rtb_key rtb) (sym (end ∙ end' ∙ end'')) (
        keys_grow-All rtb path_keys subnets shared.1
            (joins-All api joined laws rtb subnets routed.1 f'),
        subst (λ c. AreRouted c pathed.1 rtb path_keys) (all-Keeps rtb subnets routed.1)
            (keys_join rtb path_keys shared.1 f''),
        get-set rtb rtb_key pathed.1.cache,
      )
