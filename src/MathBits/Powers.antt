-- ===== src/MathBits/Powers.antt =====
-- `is_power_of_two` and `round_up_power_of_two` of Foundations/MathBits.hpp.
use native.Mathlib.Nat.{pow-suc, pow-le-pow_right, mod-eq_of_lt, div-le_self}
use Prim.Native.Nat.{bit_and-bitwise}
use native.Mathlib.Decide.{dec_lt}
use bhcpp_hptool_kit.Base.{
  ℕ, zero, suc, ◌+◌, ◌-◌, ◌/◌, ◌%◌, ◌^◌, ◌≤◌, ◌<◌, ◌≡◌, ◌↔◌, sym, ◌∙◌, arith, ◌==◌, leb,
  if◌then◌else◌, Bool, true, false, ◌&&◌, not, bit_and, bit_or,
}
use bhcpp_hptool_kit.Base.Bits.{
  bit, bit_le_one, bit-bit_or, bit-shr, bit_and_step, bit_or-lt, bit_ext, bit_of_ones, pow_pos,
}

unfoldable pub is_power_of_two : ℕ → Bool
is_power_of_two value = not (value == 0) && bit_and value (value - 1) == 0

-- `value |= value >> s`
abbrev or_shr : ℕ → ℕ → ℕ
or_shr value s = bit_or value (value / 2 ^ s)

-- the six assignments that copy the highest digit down
smear : ℕ → ℕ
smear value = or_shr (or_shr (or_shr (or_shr (or_shr (or_shr value 1) 2) 4) 8) 16) 32

unfoldable pub round_up_power_of_two : ℕ → ℕ
unfolding smear
round_up_power_of_two value = if leb value 1 then 1 else (smear (value - 1) + 1) % 2 ^ 64

bit_and_self : (n x : ℕ) → x ≤ n → bit_and x x ≡ x
bit_and_self n zero h = omega (arith, bit_and-bitwise 0 0)
bit_and_self zero (suc x) h = absurd (omega arith)
bit_and_self (suc n) (suc x) h =
    omega (arith, bit_and_step (suc x) (suc x), bit_and_self n (suc x / 2) (omega arith))

-- Clearing the lowest one leaves 0 only if it is the only one.
and_pred : (n x : ℕ) → x < n → 0 < x → bit_and x (x - 1) ≡ 0 → (k : ℕ) × (x ≡ 2 ^ k)
and_pred zero x lt pos h = absurd (omega arith)
and_pred (suc n) x lt pos h = elim (dec_lt 0 (x % 2)) [
  | yes odd ↦
      let half : (x - 1) / 2 ≡ x / 2 = omega arith in
      let same = rw half at (bit_and_step x (x - 1)) in
      (0, omega (arith, same, bit_and_self (x / 2) (x / 2) (omega arith)))
  | no even ↦
      let half : (x - 1) / 2 ≡ x / 2 - 1 = omega arith in
      let same = rw half at (bit_and_step x (x - 1)) in
      let (k, e) = and_pred n (x / 2) (omega arith) (omega arith) (omega arith) in
      (suc k, omega (arith, pow-suc 2 k))
]

pow-and_pred : (k : ℕ) → bit_and (2 ^ k) (2 ^ k - 1) ≡ 0
pow-and_pred zero = omega (arith, bit_and_step 1 0, bit_and-bitwise 0 0)
pow-and_pred (suc k) =
    let half : 2 ^ suc k / 2 ≡ 2 ^ k = omega (arith, pow-suc 2 k) in
    let rest : (2 ^ suc k - 1) / 2 ≡ 2 ^ k - 1 = omega (arith, pow-suc 2 k) in
    let step = rw (half, rest) at (bit_and_step (2 ^ suc k) (2 ^ suc k - 1)) in
    omega (arith, step, pow-and_pred k, pow-suc 2 k, pow_pos k)

-- `is_power_of_two` accepts exactly the powers of two.
pub is_power_of_two_iff : (value : ℕ) → (is_power_of_two value ≡ true) ↔ ((k : ℕ) × (value ≡ 2 ^ k))
unfolding is_power_of_two
is_power_of_two_iff value = (
  λ h. and_pred (suc value) value (omega arith) (ground arith) (ground arith),
  λ p. rw (p.1) (ground (arith, pow-and_pred p.0, pow_pos p.0)),
)

-- The highest one of a positive number.
pub highest_bit : (n x : ℕ) → x < n → 0 < x → (k : ℕ) × (2 ^ k ≤ x) × (x < 2 ^ suc k)
highest_bit zero x lt pos = absurd (omega arith)
highest_bit (suc n) x lt pos = elim (dec_lt 1 x) [
  | no p ↦ (0, omega arith, omega arith)
  | yes p ↦
      let (k, lo, hi) = highest_bit n (x / 2) (omega arith) (omega arith) in
      (suc k, omega (arith, pow-suc 2 k), omega (arith, pow-suc 2 (suc k)))
]

bit_highest : (k x : ℕ) → 2 ^ k ≤ x → x < 2 ^ suc k → bit x k ≡ 1
unfolding bit
bit_highest zero x lo hi = omega arith
bit_highest (suc k) x lo hi =
    bit_highest k (x / 2) (omega (arith, pow-suc 2 k)) (omega (arith, pow-suc 2 (suc k)))

-- `x` has no digit above `k`, and the `m` digits from `k` down are ones.
record Filled (k m x : ℕ) : Type 0 where
  small : x < 2 ^ suc k
  ones : (i : ℕ) → i ≤ k → k < i + m → bit x i ≡ 1

or_shr-Filled : {k m x : ℕ} (s : ℕ) → s ≤ m → Filled k m x → Filled k (m + s) (or_shr x s)
or_shr-Filled {k} {m} {x} s h f = record {
  small = bit_or-lt (suc k) x (x / 2 ^ s) f.small (omega (arith, f.small, div-le_self x (2 ^ s)));
  ones = λ i le lt. elim (dec_lt k (i + m)) [
    | yes p ↦ omega (arith, bit-bit_or x (x / 2 ^ s) i, f.ones i le p, bit_le_one (x / 2 ^ s) i)
    | no p ↦ omega (
      arith,
      bit-bit_or x (x / 2 ^ s) i,
      bit-shr x s i,
      f.ones (i + s) (omega arith) (omega arith),
      bit_le_one x i,
    )
  ];
}

-- The copies fill 64 digits, so all of them below the highest one.
smear-eq : (k x : ℕ) → k < 64 → 2 ^ k ≤ x → x < 2 ^ suc k → smear x + 1 ≡ 2 ^ suc k
unfolding smear
smear-eq k x small lo hi =
    let last = or_shr-Filled 32 (omega arith) (
      or_shr-Filled 16 (omega arith) (
        or_shr-Filled 8 (omega arith) (
          or_shr-Filled 4 (omega arith) (
            or_shr-Filled 2 (omega arith)
              (or_shr-Filled {k = k} {m = 1} {x = x} 1 (omega arith) first))))) in
    omega (
      arith,
      pow_pos (suc k),
      bit_ext (suc k) (smear x) (2 ^ suc k - 1) last.small (omega (arith, pow_pos (suc k)))
          (λ i h. last.ones i (omega arith) (omega arith) ∙ sym (bit_of_ones (suc k) i h)),
    )
  where
    first : Filled k 1 x
    first = record {
      small = hi;
      ones = λ i le lt. let e : i ≡ k = omega arith in rw e (bit_highest k x lo hi);
    }

pub lt_of_pow-lt-pow : (a b : ℕ) → 2 ^ a < 2 ^ b → a < b
lt_of_pow-lt-pow a b h = elim (dec_lt a b) [
  | yes p ↦ p
  | no p ↦
      absurd (omega (arith, pow-le-pow_right {n = 2} (omega arith) {i = b} {j = a} (omega arith)))
]

-- Up to `2 ^ 63` the result is the least power of two that is not below `value`.
pub round_up_power_of_two_lem :
    (value : ℕ)
    → value ≤ 2 ^ 63
    → (k : ℕ) × (round_up_power_of_two value ≡ 2 ^ k)
      × (value ≤ 2 ^ k)
      × ((j : ℕ) → value ≤ 2 ^ j → 2 ^ k ≤ 2 ^ j)
unfolding round_up_power_of_two
round_up_power_of_two_lem value small = elim (dec_lt 1 value) [
  | no p ↦ (0, ground arith, omega arith, λ j h. pow_pos j)
  | yes p ↦
      let (k, lo, hi) = highest_bit value (value - 1) (omega arith) (omega arith) in
      let k-lt : k < 63 = lt_of_pow-lt-pow k 63 (omega arith) in
      let full = smear-eq k (value - 1) (omega arith) lo hi in
      let leb-false : leb value 1 ≡ false = ground arith in
      (
        suc k,
        rw (leb-false, full)
            (mod-eq_of_lt
              (omega (arith, pow-le-pow_right {n = 2} (omega arith) {i = suc k} {j = 63} k-lt))),
        omega arith,
        λ j h. pow-le-pow_right {n = 2} (omega arith) (lt_of_pow-lt-pow k j (omega arith)),
      )
]

-- Above `2 ^ 63` the sum wraps and the result is 0.
pub round_up_power_of_two-wraps :
    (value : ℕ) → 2 ^ 63 < value → value < 2 ^ 64 → round_up_power_of_two value ≡ 0
unfolding round_up_power_of_two
round_up_power_of_two-wraps value lo hi =
    let full = smear-eq 63 (value - 1) (omega arith) (omega arith) (omega arith) in ground arith
