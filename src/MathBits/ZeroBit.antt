-- ===== src/MathBits/ZeroBit.antt =====
-- `find_first_zero_bit` of Foundations/MathBits.hpp, in its portable form.
use native.Mathlib.Decide.{dec_lt}
use bhcpp_hptool_kit.Base.{
  ℕ, zero, suc, ◌+◌, ◌-◌, ◌*◌, ◌^◌, ◌<◌, ◌≡◌, ◌≢◌, refl, arith, ◌==◌, Bool-cases, inl, inr,
  if◌then◌else◌, bit_and, sym, ◌∙◌,
}
use bhcpp_hptool_kit.Base.Bits.{bit, bit_le_one, bit_and-pow, bit_ext, bit_of_ones, pow_pos}

-- `while ((value & (uint64_t(1) << index)) != 0) ++index;`, on fuel
zero_bit_from : ℕ → ℕ → ℕ → ℕ
zero_bit_from zero value index = index
zero_bit_from (suc fuel) value index =
    let rest = zero_bit_from fuel value (index + 1) in
    if bit_and value (2 ^ index) == 0 then index else rest

-- A word that is not all ones has a zero among its 64 digits, so 64 rounds are enough.
unfoldable pub find_first_zero_bit : ℕ → ℕ
unfolding zero_bit_from
find_first_zero_bit value = zero_bit_from 64 value 0

record FirstZero (value i : ℕ) : Type 0 where
  pub inside : i < 64
  pub clear : bit value i ≡ 0
  pub ones : (j : ℕ) → j < i → bit value j ≡ 1

bit-test : (value i : ℕ) → (bit_and value (2 ^ i) == 0) ≡ (bit value i == 0)
bit-test value i = elim (dec_lt 0 (bit value i)) [
  | yes p ↦
      let one : bit value i ≡ 1 = omega (arith, bit_le_one value i) in
      let e : bit_and value (2 ^ i) ≡ 1 * 2 ^ i = rw (← one) (bit_and-pow value i) in
      ground (arith, pow_pos i)
  | no p ↦
      let nil : bit value i ≡ 0 = omega arith in
      let e : bit_and value (2 ^ i) ≡ 0 * 2 ^ i = rw (← nil) (bit_and-pow value i) in ground arith
]

zero_bit_from-FirstZero :
    (fuel value i : ℕ)
    → i + fuel ≡ 64
    → value < 2 ^ 64
    → value ≢ 2 ^ 64 - 1
    → ((j : ℕ) → j < i → bit value j ≡ 1)
    → FirstZero value (zero_bit_from fuel value i)
unfolding zero_bit_from
zero_bit_from-FirstZero zero value i e small ne ones = absurd (
    ne (
      bit_ext 64 value (2 ^ 64 - 1) small (omega arith)
        (λ j h. ones j (omega arith) ∙ sym (bit_of_ones 64 j h))))
zero_bit_from-FirstZero (suc fuel) value i e small ne ones = elim (Bool-cases (bit value i == 0)) [
  | inl z ↦
      rw (bit-test value i, z) (record { inside = omega arith; clear = ground arith; ones = ones })
  | inr o ↦
      rw (bit-test value i, o)
        (zero_bit_from-FirstZero fuel value (i + 1) (omega arith) small ne (λ j h.
          elim (dec_lt j i) [
            | yes p ↦ ones j p
            | no p ↦ let e : j ≡ i = omega arith in rw e (ground (arith, bit_le_one value i))
          ]))
]

-- In a word that is not all ones the result is the lowest digit that is 0.
pub find_first_zero_bit_lem :
    (value : ℕ)
    → value < 2 ^ 64
    → value ≢ 2 ^ 64 - 1
    → (find_first_zero_bit value < 64)
      × (bit value (find_first_zero_bit value) ≡ 0)
      × ((j : ℕ) → j < find_first_zero_bit value → bit value j ≡ 1)
unfolding find_first_zero_bit
find_first_zero_bit_lem value small ne =
    let f = zero_bit_from-FirstZero 64 value 0 refl small ne (λ j h. absurd (omega arith)) in
    (f.inside, f.clear, f.ones)
