-- ===== src/Intent/Check/Passing.antt =====
-- When a validation passes: rules for each way of composing one.
use awsbnkctl.Base.{
  ℕ, suc, ◌≡◌, ◌↔◌, refl, Bool, true, false, Option, none, some, List, [], ◌∷◌, arith, All,
}
use awsbnkctl.Intent.Check.{Check, IntentError, Passes, fail_if, when, ◌>>◌, check_some, check_each}

pub >>-Passes : (a b : Check) → Passes (a >> b) ↔ (Passes a × Passes b)
>>-Passes a b = ground arith

pub fail_if-Passes : (b : Bool) (e : IntentError) → Passes (fail_if b e) ↔ (b ≡ false)
fail_if-Passes b e = ground arith

pub when-Passes : (b : Bool) (k : Check) → Passes (when b k) ↔ (b ≡ true → Passes k)
when-Passes true k = (λ h e. h, λ h. h refl)
when-Passes false k = (λ h e. cc, λ h. refl)

-- A block that is absent passes.
abbrev pub OnSome {ℓ κ} : {A : Type ℓ} → (A → Type κ) → Option A → Type κ
OnSome P none = Unit
OnSome P (some a) = P a

pub check_some-Passes {ℓ κ} :
    {A : Type ℓ} {P : A → Type κ} (k : A → Check) (o : Option A)
    → ((a : A) → Passes (k a) ↔ P a)
    → Passes (check_some o k) ↔ OnSome P o
check_some-Passes k none h = (λ _. tt, λ _. refl)
check_some-Passes k (some a) h = h a

-- A loop passes when every round does, if no round depends on its index for that.
pub check_each-Passes {ℓ κ} :
    {A : Type ℓ} {P : A → Type κ} (f : ℕ → A → Check)
    → ((i : ℕ) (a : A) → Passes (f i a) ↔ P a)
    → (i : ℕ) (xs : List A) → Passes (check_each f i xs) ↔ All P xs
unfolding check_each
check_each-Passes f h i [] = (λ _. tt, λ _. refl)
check_each-Passes f h i (x ∷ xs) =
    let rest = check_each-Passes f h (suc i) xs in
    let both = >>-Passes (f i x) (check_each f (suc i) xs) in
    (λ p. ((h i x).0 (both.0 p).0, rest.0 (both.0 p).1), λ (q, r). both.1 ((h i x).1 q, rest.1 r))

pub >>_iff {ℓ κ} :
    {A : Type ℓ} {B : Type κ} (a b : Check)
    → Passes a ↔ A
    → Passes b ↔ B
    → Passes (a >> b) ↔ (A × B)
>>_iff a b f g =
    let both = >>-Passes a b in
    (λ h. (f.0 (both.0 h).0, g.0 (both.0 h).1), λ (x, y). both.1 (f.1 x, g.1 y))

pub when_iff {ℓ} :
    {A : Type ℓ} (b : Bool) (k : Check) → Passes k ↔ A → Passes (when b k) ↔ (b ≡ true → A)
when_iff b k f = (λ h e. f.0 ((when-Passes b k).0 h e), λ h. (when-Passes b k).1 (λ e. f.1 (h e)))
