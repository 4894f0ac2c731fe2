-- ===== src/Net/Ip6/Long.antt =====
-- An address with colons has 16 bytes at least.
use awsbnkctl.Base.{
  ℕ, zero, suc, ◌-◌, ◌/◌, ◌%◌, ◌≤◌, ◌≡◌, refl, Bool, true, false, not, ◌&&◌, ◌||◌, Option, none,
  some, List, [], ◌∷◌, ◌++◌, arith, length, length-append, take_add_drop, length-replicate, take,
  drop, replicate, ◌==◌, ltb, null, if◌then◌else◌,
}
use awsbnkctl.Net.Ip4.{parse_v4}
use awsbnkctl.Net.Ip6.{
  parse_v6, finish, embedded, separator, after_group, groups, start, hex_group, absent, has,
}

abbrev pub IsLong : Option (List ℕ) → Type 0
IsLong none = Unit
IsLong (some ip) = 16 ≤ length ip

if_IsLong :
    (b : Bool) (x y : Option (List ℕ))
    → (b ≡ true → IsLong x)
    → (b ≡ false → IsLong y)
    → IsLong (if b then x else y)
if_IsLong true x y h k = h refl
if_IsLong false x y h k = k refl

finish-IsLong : (s ip : List ℕ) (e : Option ℕ) → IsLong (finish s ip e)
unfolding finish
finish-IsLong (c ∷ s) ip e = tt
finish-IsLong [] ip none =
    if_IsLong (ltb (length ip) 16) none (some ip) (λ _. tt) (λ enough. ground arith)
finish-IsLong [] ip (some e) =
    if_IsLong (ltb (length ip) 16) _ none
      (λ short. ground (
        arith,
        length-append (take e ip) (replicate (16 - length ip) 0 ++ drop e ip),
        length-append (replicate (16 - length ip) 0) (drop e ip),
        take_add_drop e ip,
        length-replicate {A = ℕ} (16 - length ip) 0,
      ))
      (λ _. tt)

joined-IsLong :
    (ip : List ℕ) (f : Option (List ℕ)) (e : Option ℕ)
    → IsLong (elim f [ none ↦ none | some g ↦ finish [] (ip ++ g) e ])
joined-IsLong ip none e = tt
joined-IsLong ip (some g) e = finish-IsLong [] (ip ++ g) e

embedded-IsLong : (s ip : List ℕ) (e : Option ℕ) → IsLong (embedded s ip e)
unfolding embedded
embedded-IsLong s ip e =
    if_IsLong ((absent e && not (length ip == 12)) || ltb 12 (length ip)) none _ (λ _. tt)
      (λ _. joined-IsLong ip (parse_v4 s) e)

module _ (loop : List ℕ → List ℕ → Option ℕ → Option (List ℕ))
    (long : (s ip : List ℕ) (e : Option ℕ) → IsLong (loop s ip e)) where
  separator-IsLong : (s ip : List ℕ) (e : Option ℕ) → IsLong (separator loop s ip e)
  unfolding separator
  separator-IsLong [] ip e = finish-IsLong [] ip e
  separator-IsLong (c ∷ []) ip e = tt
  separator-IsLong (c ∷ d ∷ s) ip e =
      if_IsLong (not (c == b':')) none _ (λ _. tt)
        (λ _.
          if_IsLong (not (d == b':')) _ _ (λ _. long (d ∷ s) ip e)
            (λ _.
              if_IsLong (not (absent e)) none _ (λ _. tt)
                (λ _.
                  if_IsLong (null s) _ _ (λ _. finish-IsLong [] ip (some (length ip)))
                    (λ _. long s ip (some (length ip))))))

  after_group-IsLong :
      (s : List ℕ) (g : Option (ℕ × ℕ × List ℕ)) (ip : List ℕ) (e : Option ℕ)
      → IsLong (after_group loop s g ip e)
  unfolding after_group
  after_group-IsLong s none ip e = tt
  after_group-IsLong s (some (acc, off, [])) ip e =
      if_IsLong (off == 0) none _ (λ _. tt)
        (λ _. finish-IsLong [] (ip ++ acc / 256 ∷ acc % 256 ∷ []) e)
  after_group-IsLong s (some (acc, off, c ∷ rest)) ip e =
      if_IsLong (off == 0) none _ (λ _. tt)
        (λ _.
          if_IsLong (c == b'.') _ _ (λ _. embedded-IsLong s ip e)
            (λ _. separator-IsLong (c ∷ rest) (ip ++ acc / 256 ∷ acc % 256 ∷ []) e))

groups-IsLong : (n : ℕ) (s ip : List ℕ) (e : Option ℕ) → IsLong (groups n s ip e)
unfolding groups
groups-IsLong zero s ip e = finish-IsLong s ip e
groups-IsLong (suc n) s ip e =
    after_group-IsLong (groups n) (groups-IsLong n) s (hex_group s 0 0) ip e

start-IsLong : (s : List ℕ) → IsLong (start s)
unfolding start
start-IsLong [] = groups-IsLong 8 [] [] none
start-IsLong (c ∷ []) = groups-IsLong 8 (c ∷ []) [] none
start-IsLong (c ∷ d ∷ s) =
    if_IsLong (c == b':' && d == b':') _ _
      (λ _. if_IsLong (null s) _ _ (λ _. omega arith) (λ _. groups-IsLong 8 s [] (some 0)))
      (λ _. groups-IsLong 8 (c ∷ d ∷ s) [] none)

pub parse_v6-IsLong : (s : List ℕ) → IsLong (parse_v6 s)
unfolding parse_v6
parse_v6-IsLong s = if_IsLong (has b'%' s) none (start s) (λ _. tt) (λ _. start-IsLong s)
