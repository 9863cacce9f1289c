-- ===== src/Base/Sums.antt =====
-- Sums of a family of numbers over the indices below a bound.
use native.Mathlib.Decide.{dec_lt, ℕ_discrete}
use mathlib.Core.Logic.{ite}
use bhcpp_hptool_kit.Base.{ℕ, zero, suc, ◌+◌, ◌≤◌, ◌<◌, ◌≡◌, refl, arith}

unfoldable pub total : (ℕ → ℕ) → ℕ → ℕ
total f zero = 0
total f (suc n) = total f n + f n

pub total_congr : (f g : ℕ → ℕ) (n : ℕ) → ((j : ℕ) → j < n → f j ≡ g j) → total f n ≡ total g n
unfolding total
total_congr f g zero h = refl
total_congr f g (suc n) h =
    omega (arith, total_congr f g n (λ j p. h j (omega arith)), h n (omega arith))

-- A family that differs from `f` at `i` alone.
pub total-update :
    (f g : ℕ → ℕ) (n i v : ℕ)
    → i < n
    → ((j : ℕ) → g j ≡ ite (ℕ_discrete i j) v (f j))
    → total g n + f i ≡ total f n + v
unfolding total
total-update f g zero i v h e = absurd (omega arith)
total-update f g (suc n) i v h e = elim (dec_lt i n) [
  | yes below ↦ ground (arith, total-update f g n i v below e, e n)
  | no last ↦ ground (arith, total_congr g f n (λ j p. ground (arith, e j)), e n)
]

pub total-le : (f : ℕ → ℕ) (n : ℕ) → ((j : ℕ) → f j ≤ 1) → total f n ≤ n
unfolding total
total-le f zero h = omega arith
total-le f (suc n) h = omega (arith, total-le f n h, h n)

pub total_ones : (f : ℕ → ℕ) (n : ℕ) → ((j : ℕ) → j < n → f j ≡ 1) → total f n ≡ n
unfolding total
total_ones f zero h = refl
total_ones f (suc n) h = omega (arith, total_ones f n (λ j p. h j (omega arith)), h n (omega arith))

pub total_zeros : (f : ℕ → ℕ) (n : ℕ) → ((j : ℕ) → j < n → f j ≡ 0) → total f n ≡ 0
unfolding total
total_zeros f zero h = refl
total_zeros f (suc n) h =
    omega (arith, total_zeros f n (λ j p. h j (omega arith)), h n (omega arith))

-- A sum that reaches the bound has no room for a 0.
pub full-total : (f : ℕ → ℕ) (n i : ℕ) → ((j : ℕ) → f j ≤ 1) → n ≤ total f n → i < n → f i ≡ 1
unfolding total
full-total f zero i small h lt = absurd (omega arith)
full-total f (suc n) i small h lt = elim (dec_lt i n) [
  | yes below ↦ full-total f n i small (omega (arith, small n)) below
  | no last ↦ let e : i ≡ n = omega arith in rw e (omega (arith, total-le f n small, small n))
]
