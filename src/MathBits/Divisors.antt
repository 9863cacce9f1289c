-- ===== src/MathBits/Divisors.antt =====
-- `gcd` and `lcm` of Foundations/MathBits.hpp.
use mathlib.Core.WellFounded.{Acc}
use mathlib.Core.Logic.{dite}
use mathlib.Core.Path.{subst}
use Prim.Native.Nat.{◌∣◌}
use native.Mathlib.Decide.{dec_lt}
use native.Mathlib.Nat.{
  dvd_refl, dvd-zero, dvd-mod_iff, dvd-sub, dvd-mul_left, dvd-mul_right_of_dvd, div-mul_cancel,
  div-add-mod, mul_comm, mul_assoc, one-mul, mod-lt, mul-dvd-mul_left, mod-eq_of_lt,
  mul-dvd-mul_right, dvd_of_mul-dvd-mul_right, mul-sub, pos_of_dvd_of_pos,
}
use bhcpp_hptool_kit.Base.{ℕ, ◌-◌, ◌*◌, ◌/◌, ◌%◌, ◌^◌, ◌<◌, ◌≡◌, ap, arith}
use bhcpp_hptool_kit.Base.Order.{lt_wf}

-- `while (b != 0) { t = a % b; a = b; b = t; }`
gcd_loop : (a b : ℕ) → Acc ◌<◌ b → ℕ
gcd_loop a b (Acc.intro _ smaller) =
    dite (dec_lt 0 b) (λ h. gcd_loop b (a % b) (smaller (a % b) (mod-lt a h))) (λ _. a)

unfoldable pub gcd : ℕ → ℕ → ℕ
unfolding gcd_loop lt_wf dec_lt
gcd a b = gcd_loop a b (lt_wf.apply b)

unfoldable pub lcm : ℕ → ℕ → ℕ
unfolding gcd
lcm a b = (a / gcd a b * b) % 2 ^ 64

-- What holds at `b = 0`, and of a pair when it holds of the next one, holds of the result.
module _ (P : ℕ → ℕ → ℕ → Type 0) (stop : (a : ℕ) → P a 0 a)
    (next : (a b g : ℕ) → P b (a % b) g → P a b g) where
  gcd_loop_ind : (a b : ℕ) (w : Acc ◌<◌ b) → P a b (gcd_loop a b w)
  unfolding gcd_loop
  gcd_loop_ind a b (Acc.intro _ smaller) =
      elim (dec_lt 0 b)
        as (λ d. P a b (dite d (λ h. gcd_loop b (a % b) (smaller (a % b) (mod-lt a h))) (λ _. a))) [
          | yes h ↦ next a b _ (gcd_loop_ind b (a % b) (smaller (a % b) (mod-lt a h)))
          | no h ↦ let e : b ≡ 0 = omega arith in rw e (stop a)
        ]

  gcd_ind : (a b : ℕ) → P a b (gcd a b)
  unfolding gcd
  gcd_ind a b = gcd_loop_ind a b (lt_wf.apply b)

-- `gcd a b` divides `a` and `b`.
pub gcd-dvd : (a b : ℕ) → (gcd a b ∣ a) × (gcd a b ∣ b)
gcd-dvd =
    gcd_ind (λ a b g. (g ∣ a) × (g ∣ b)) (λ a. (dvd_refl a, dvd-zero a))
      (λ a b g ih. ((dvd-mod_iff g ih.0).0 ih.1, ih.0))

-- What divides `m * a` and `m * b` divides `m * gcd a b`.
pub dvd-mul-gcd : (d m a b : ℕ) → d ∣ m * a → d ∣ m * b → d ∣ m * gcd a b
dvd-mul-gcd d m =
    gcd_ind (λ a b g. d ∣ m * a → d ∣ m * b → d ∣ m * g) (λ a p q. p)
      (λ a b g ih p q.
        ih q
          (rw (remainder a b) (dvd-sub d p (rw (← mul_assoc) (dvd-mul_right_of_dvd d q (a / b))))))
  where
    remainder : (a b : ℕ) → m * (a % b) ≡ m * a - m * (b * (a / b))
    remainder a b = rw (← mul-sub) (ap (λ t. m * t) (omega (arith, div-add-mod a b)))

-- `gcd` is the greatest common divisor: it divides both numbers, and every common divisor
-- divides it.
pub gcd_lem : (a b : ℕ) → (gcd a b ∣ a) × (gcd a b ∣ b) × ((d : ℕ) → d ∣ a → d ∣ b → d ∣ gcd a b)
gcd_lem a b = (
  (gcd-dvd a b).0,
  (gcd-dvd a b).1,
  λ d p q. rw one-mul at (dvd-mul-gcd d 1 a b (rw one-mul p) (rw one-mul q)),
)

-- Where the product does not wrap, `lcm` is the least common multiple: both numbers divide it,
-- and it divides every common multiple.
pub lcm_lem :
    (a b : ℕ)
    → 0 < a
    → a / gcd a b * b < 2 ^ 64
    → (a ∣ lcm a b) × (b ∣ lcm a b) × ((m : ℕ) → a ∣ m → b ∣ m → lcm a b ∣ m)
unfolding lcm
lcm_lem a b pos small = rw (mod-eq_of_lt small) (left, dvd-mul_left b (a / gcd a b), least)
  where
    g : ℕ
    g = gcd a b

    whole : a / g * g ≡ a
    whole = div-mul_cancel g (gcd-dvd a b).0

    left : a ∣ a / g * b
    left = subst (λ t. t ∣ a / g * b) whole (mul-dvd-mul_left g (a / g) (gcd-dvd a b).1)

    least : (m : ℕ) → a ∣ m → b ∣ m → a / g * b ∣ m
    least m p q =
        dvd_of_mul-dvd-mul_right {k = g} (a / g * b) (pos_of_dvd_of_pos (gcd-dvd a b).0 pos) (
          subst (λ t. t ∣ m * g) product
            (dvd-mul-gcd (a * b) m a b (rw (mul_comm m a) (mul-dvd-mul_left b a q))
              (mul-dvd-mul_right a p b)))
      where
        product : a * b ≡ a / g * b * g
        product = omega (arith, ap (λ (t : ℕ). t * b) whole)
