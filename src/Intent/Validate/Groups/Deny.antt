-- ===== src/Intent/Validate/Groups/Deny.antt =====
-- The table of zones without GPU capacity, and the variable that extends it.
use mathlib.Core.List.{append-nil}
use awsbnkctl.Base.{
  ◌≡◌, ◌≢◌, refl, sym, ◌∙◌, ap, inl, inr, String, true, false, Option, none, some, List, [], ◌∷◌,
  ◌++◌, arith, Bool-cases, str_eq, eq_iff, is_empty, lookup, insert, lookup-insert, if◌then◌else◌,
  cut, split, trim_space,
}
use awsbnkctl.Intent.Validate.Groups.{
  Table, gpu_instance_az_deny, denied_in, append_to, add_azs, add_entry, add_entries,
  parse_gpu_az_deny_env, merge_into, deny_table,
}

is_empty-false : (s : String) → s ≢ "" → is_empty s ≡ false
is_empty-false s h = ground (arith, eq_iff s "")

-- Every region stands in the table once.
abbrev IsTable : Table → Type 0
IsTable [] = Unit
IsTable ((r, azs) ∷ t) = (lookup r t ≡ none) × IsTable t

insert-IsTable : (r : String) (azs : List String) (t : Table) → IsTable t → IsTable (insert r azs t)
insert-IsTable r azs [] h = (refl, tt)
insert-IsTable r azs ((q, bzs) ∷ t) (h, k) = elim (Bool-cases (str_eq q r)) [
  | inl e ↦ let same : q ≡ r = (eq_iff q r).0 e in rw e (rw same at h, k)
  | inr n ↦
      rw n
        (ground (arith, lookup-insert r q azs t, eq_iff q r, eq_iff r q), insert-IsTable r azs t k)
]

add_azs-IsTable :
    (r : String) (azs : List String) (t : Table) → IsTable t → IsTable (add_azs r azs t)
unfolding add_azs
add_azs-IsTable r [] t h = h
add_azs-IsTable r (az ∷ azs) t h = elim (Bool-cases (is_empty (trim_space az))) [
  | inl e ↦ rw e (add_azs-IsTable r azs t h)
  | inr n ↦ rw n (add_azs-IsTable r azs _ (insert-IsTable r _ t h))
]

add_entry-IsTable : (e : Option (String × String)) (t : Table) → IsTable t → IsTable (add_entry e t)
add_entry-IsTable none t h = h
add_entry-IsTable (some (r, azs)) t h = add_azs-IsTable (trim_space r) (split b',' azs) t h

add_entries-IsTable : (es : List String) (t : Table) → IsTable t → IsTable (add_entries es t)
unfolding add_entries
add_entries-IsTable [] t h = h
add_entries-IsTable (e ∷ es) t h =
    add_entries-IsTable es _ (add_entry-IsTable (cut b':' (trim_space e)) t h)

-- What a region has after an entry is appended.
denied_in-append_to :
    (r : String) (azs : List String) (t : Table) (q : String)
    → denied_in (append_to r azs t) q ≡ (if str_eq r q then denied_in t q ++ azs else denied_in t q)
denied_in-append_to r azs t q =
    ground (arith, lookup-insert r q (denied_in t r ++ azs) t, eq_iff r q)

denied_none : (t : Table) (r : String) → lookup r t ≡ none → denied_in t r ≡ []
denied_none t r h = ground arith

denied_head :
    (r : String) (azs : List String) (t : Table) (q : String)
    → str_eq r q ≡ true
    → denied_in ((r, azs) ∷ t) q ≡ azs
denied_head r azs t q h = ground arith

denied_skip :
    (r : String) (azs : List String) (t : Table) (q : String)
    → str_eq r q ≡ false
    → denied_in ((r, azs) ∷ t) q ≡ denied_in t q
denied_skip r azs t q h = ground arith

denied_in-merge_into :
    (es t : Table) (q : String)
    → IsTable es
    → denied_in (merge_into es t) q ≡ denied_in t q ++ denied_in es q
unfolding merge_into
denied_in-merge_into [] t q h = sym (append-nil (denied_in t q))
denied_in-merge_into ((r, azs) ∷ es) t q (h, k) =
    denied_in-merge_into es (append_to r azs t) q k ∙ elim (Bool-cases (str_eq r q)) [
      | inl e ↦
          let same : q ≡ r = sym ((eq_iff r q).0 e) in
          rw (denied_in-append_to r azs t q, e)
            (cc (
              denied_head r azs es q e,
              denied_none es q (rw same h),
              append-nil (denied_in t q ++ azs),
            ))
      | inr n ↦
          rw (denied_in-append_to r azs t q, n)
            (ap (λ (xs : List String). denied_in t q ++ xs) (sym (denied_skip r azs es q n)))
    ]

-- The variable adds to the built-in table: in every region the zones denied are the built-in ones,
-- then those that the variable names for it.
pub deny_table_adds :
    (env region : String)
    → env ≢ ""
    → denied_in (deny_table env) region
      ≡ denied_in gpu_instance_az_deny region ++ denied_in (parse_gpu_az_deny_env env) region
unfolding deny_table parse_gpu_az_deny_env
deny_table_adds env region h =
    let fresh = add_entries-IsTable (split b';' env) [] tt in
    let merged =
      denied_in-merge_into (add_entries (split b';' env) []) (merge_into gpu_instance_az_deny [])
        region fresh in
    let static = denied_in-merge_into gpu_instance_az_deny [] region (refl, tt) in
    rw (is_empty-false env h) (
      merged
      ∙ ap (λ (xs : List String). xs ++ denied_in (add_entries (split b';' env) []) region) static)
