-- ===== src/Watch/Backoff.antt =====
-- pkg/bnk/watch.go: the sleeps between the rounds of WatchHTTPRoutes.
use Prim.Native.Nat.{zero}
use awsbnkctl.Base.{
  ◌≡◌, refl, arith, inl, inr, ◌⊎◌, ℕ, suc, ◌*◌, ◌^◌, ◌≤◌, Bool, true, false, List, [], ◌∷◌, All,
}
use awsbnkctl.Watch.Rounds.{
  second, Round, index_failed, refreshed, interrupted, cancelled, Then, sleep, returns_index_error,
  Outer, outer_start, doubled, round, rounds,
}

-- A sleep takes between one second and 32, and a failed index does not end the loop.
abbrev pub IsCalm : Then → Type 0
IsCalm (sleep n) = (second ≤ n) × (n ≤ 32 * second)
IsCalm returns_index_error = true ≡ false
IsCalm other = true ≡ true

-- A power of two, of seconds, up to 32.
abbrev IsBackoff : ℕ → Type 0
IsBackoff b = (k : ℕ) × (k ≤ 5) × (b ≡ 2 ^ k * second)

double_power : (k : ℕ) → k ≤ 5 → IsBackoff (doubled (2 ^ k * second))
double_power zero h = (1, omega arith, refl)
double_power (suc zero) h = (2, omega arith, refl)
double_power (suc (suc zero)) h = (3, omega arith, refl)
double_power (suc (suc (suc zero))) h = (4, omega arith, refl)
double_power (suc (suc (suc (suc zero)))) h = (5, omega arith, refl)
double_power (suc (suc (suc (suc (suc zero))))) h = (5, omega arith, refl)
double_power (suc (suc (suc (suc (suc (suc k)))))) h = absurd (omega arith)

power_bounds : (k : ℕ) → k ≤ 5 → (second ≤ 2 ^ k * second) × (2 ^ k * second ≤ 32 * second)
power_bounds zero h = (omega arith, omega arith)
power_bounds (suc zero) h = (omega arith, omega arith)
power_bounds (suc (suc zero)) h = (omega arith, omega arith)
power_bounds (suc (suc (suc zero))) h = (omega arith, omega arith)
power_bounds (suc (suc (suc (suc zero)))) h = (omega arith, omega arith)
power_bounds (suc (suc (suc (suc (suc zero))))) h = (omega arith, omega arith)
power_bounds (suc (suc (suc (suc (suc (suc k)))))) h = absurd (omega arith)

backoff_bounds : (b : ℕ) → IsBackoff b → (second ≤ b) × (b ≤ 32 * second)
backoff_bounds b (k, h, e) = rw (e) (power_bounds k h)

doubled-IsBackoff : (b : ℕ) → IsBackoff b → IsBackoff (doubled b)
doubled-IsBackoff b (k, h, e) = rw (e) (double_power k h)

abbrev guarding : ℕ → Outer
guarding b = record { first = false; backoff = b }

rounds-IsCalm :
    (rs : List (Round × Bool)) (b : ℕ) → IsBackoff b → All IsCalm (rounds rs (guarding b)).0
unfolding rounds round
rounds-IsCalm [] b h = tt
rounds-IsCalm ((refreshed, ended) ∷ rs) b h = (refl, rounds-IsCalm rs second (0, omega arith, refl))
rounds-IsCalm ((cancelled, ended) ∷ rs) b h = (refl, tt)
rounds-IsCalm ((index_failed, true) ∷ rs) b h = (backoff_bounds b h, (refl, tt))
rounds-IsCalm ((index_failed, false) ∷ rs) b h =
    (backoff_bounds b h, rounds-IsCalm rs (doubled b) (doubled-IsBackoff b h))
rounds-IsCalm ((interrupted, true) ∷ rs) b h = (backoff_bounds b h, (refl, tt))
rounds-IsCalm ((interrupted, false) ∷ rs) b h =
    (backoff_bounds b h, rounds-IsCalm rs (doubled b) (doubled-IsBackoff b h))

-- Whatever the rounds of WatchHTTPRoutes see, either the first index cannot be built and the loop
-- returns at once, or no failure but the end of the context ends the loop and every sleep takes between
-- one second and 32 seconds.
pub rounds_backoff :
    (rs : List (Round × Bool))
    → ((rounds rs outer_start).0 ≡ returns_index_error ∷ []) ⊎ All IsCalm (rounds rs outer_start).0
unfolding rounds round
rounds_backoff [] = inr tt
rounds_backoff ((index_failed, ended) ∷ rs) = inl refl
rounds_backoff ((refreshed, ended) ∷ rs) =
    inr (refl, rounds-IsCalm rs second (0, omega arith, refl))
rounds_backoff ((cancelled, ended) ∷ rs) = inr (refl, tt)
rounds_backoff ((interrupted, true) ∷ rs) =
    inr (backoff_bounds second (0, omega arith, refl), (refl, tt))
rounds_backoff ((interrupted, false) ∷ rs) = inr (
  backoff_bounds second (0, omega arith, refl),
  rounds-IsCalm rs (2 * second) (1, omega arith, refl),
)
