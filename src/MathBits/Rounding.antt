-- ===== src/MathBits/Rounding.antt =====
-- `round_up` and `round_up_to_multiple` of Foundations/MathBits.hpp.
use native.Mathlib.Decide.{dec_lt}
use native.Mathlib.Nat.{
  mod-lt, div-add-mod, mod-eq_of_lt, lt_of_mul-lt-mul_right, mul-le-mul_right, mul-mod_left,
}
use bhcpp_hptool_kit.Base.{
  ℕ, ◌+◌, ◌-◌, ◌*◌, ◌/◌, ◌%◌, ◌^◌, ◌≤◌, ◌<◌, ◌≡◌, arith, ◌==◌, if◌then◌else◌,
}

unfoldable pub round_up : ℕ → ℕ → ℕ
round_up value align =
    if align == 0
    then value
    else let remainder = value % align in
      if remainder == 0 then value else (value + (align - remainder)) % 2 ^ 64

unfoldable pub round_up_to_multiple : ℕ → ℕ → ℕ
round_up_to_multiple value multiple =
    if multiple == 0
    then value
    else let remainder = value % multiple in
      if remainder == 0 then value else (value + (multiple - remainder)) % 2 ^ 64

-- The multiple that follows `value`, where it is none itself.
next_multiple :
    (value align : ℕ)
    → 0 < align
    → 0 < value % align
    → value + (align - value % align) ≡ (value / align + 1) * align
next_multiple value align pos r = omega (arith, div-add-mod value align, mod-lt value pos)

next_multiple-le :
    (value align k : ℕ)
    → 0 < align
    → 0 < value % align
    → value ≤ k * align
    → (value / align + 1) * align ≤ k * align
next_multiple-le value align k pos r h =
    let q-lt : value / align < k =
      lt_of_mul-lt-mul_right align (omega (arith, div-add-mod value align)) in
    mul-le-mul_right align (omega arith)

round_up-multiple : (value align : ℕ) → value % align ≡ 0 → round_up value align ≡ value
unfolding round_up
round_up-multiple value align e = ground arith

round_up-next :
    (value align : ℕ)
    → 0 < align
    → 0 < value % align
    → value + align ≤ 2 ^ 64
    → round_up value align ≡ (value / align + 1) * align
unfolding round_up
round_up-next value align pos r small =
    let wraps : (value + (align - value % align)) % 2 ^ 64 ≡ value + (align - value % align) =
      mod-eq_of_lt (omega (arith, mod-lt value pos)) in
    ground (arith, next_multiple value align pos r, wraps)

-- Rounding to a positive multiple that does not wrap gives the least multiple of `align` that is
-- not below `value`.
pub round_up_lem :
    (value align : ℕ)
    → 0 < align
    → value + align ≤ 2 ^ 64
    → (round_up value align % align ≡ 0)
      × (value ≤ round_up value align)
      × ((k : ℕ) → value ≤ k * align → round_up value align ≤ k * align)
round_up_lem value align pos small = elim (dec_lt 0 (value % align)) [
  | no p ↦
      let e : value % align ≡ 0 = omega arith in
      rw (round_up-multiple value align e) (e, omega arith, λ k h. h)
  | yes p ↦ rw (round_up-next value align pos p small) (
    mul-mod_left (value / align + 1) align,
    omega (arith, next_multiple value align pos p, mod-lt value pos),
    λ k h. next_multiple-le value align k pos p h,
  )
]

pub round_up_to_multiple_lem :
    (value multiple : ℕ) → round_up_to_multiple value multiple ≡ round_up value multiple
unfolding round_up_to_multiple round_up
round_up_to_multiple_lem value multiple = ground arith
