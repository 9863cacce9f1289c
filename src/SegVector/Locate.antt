-- ===== src/SegVector/Locate.antt =====
-- Where an index of SegmentVector lies.
use native.Mathlib.Nat.{div-add-mod, pow-suc, pow-le-pow_right, div-eq_of_lt}
use bhcpp_hptool_kit.Base.{
  ℕ, zero, suc, ◌+◌, ◌-◌, ◌*◌, ◌/◌, ◌%◌, ◌^◌, ◌≤◌, ◌<◌, ◌≡◌, inl, inr, sym, ◌∙◌, arith, false, ltb,
  bit_and, Bool-cases,
}
use bhcpp_hptool_kit.Base.Run.{Returns}
use bhcpp_hptool_kit.Base.Bits.{bit, bit_and_ones, bit_and_comm, bit_and-pow, bit_and-le, pow_pos}
use bhcpp_hptool_kit.SegVector.{shift_from, get_segment_shift, get_segment_mask, locate}

-- From below, the loop stops at the first power that reaches the size.
shift_from_lem :
    (fuel shift size : ℕ)
    → size ≤ 2 ^ (fuel + shift)
    → ((j : ℕ) → j < shift → 2 ^ j < size)
    → Returns (shift_from fuel shift size) λ s. (size ≤ 2 ^ s) × ((j : ℕ) → j < s → 2 ^ j < size)
unfolding shift_from
shift_from_lem zero shift size room below =
    let flat : zero + shift ≡ shift = omega arith in
    let enough : size ≤ 2 ^ shift = rw (sym flat) room in
    let stop : ltb (2 ^ shift) size ≡ false = ground arith in (shift, rw stop, (enough, below))
shift_from_lem (suc fuel) shift size room below = elim (Bool-cases (ltb (2 ^ shift) size)) [
  | inr stop ↦ (shift, rw stop, (ground arith, below))
  | inl more ↦
      let turn : suc fuel + shift ≡ fuel + (shift + 1) = omega arith in
      let smaller : 2 ^ shift < size = ground arith in
      rw more (
        shift_from_lem fuel (shift + 1) size (rw (← turn) room) (λ j p.
          elim (Bool-cases (ltb j shift)) [
            | inl e ↦ below j (ground arith)
            | inr e ↦ let same : j ≡ shift = ground arith in rw same smaller
          ]))
]

-- `getSegmentShift` terminates for sizes up to `2 ^ 63`, with the least power that holds the size.
pub get_segment_shift_lem :
    (size : ℕ)
    → size ≤ 2 ^ 63
    → Returns (get_segment_shift size) λ s. (size ≤ 2 ^ s) × ((j : ℕ) → j < s → 2 ^ j < size)
unfolding get_segment_shift
get_segment_shift_lem size small = shift_from_lem 63 0 size small (λ j p. absurd (omega arith))

-- With segments of `2 ^ k` elements the place of an index is its quotient and remainder by `2 ^ k`.
pub locate_lem :
    (k idx : ℕ)
    → ((locate k (get_segment_mask (2 ^ k)) idx).0 * 2 ^ k
          + (locate k (get_segment_mask (2 ^ k)) idx).1
        ≡ idx)
      × ((locate k (get_segment_mask (2 ^ k)) idx).1 < 2 ^ k)
unfolding locate get_segment_mask
locate_lem k idx =
    let rest : bit_and idx (2 ^ k - 1) ≡ idx % 2 ^ k = bit_and_ones k idx in
    let pos = pow_pos k in rw rest (omega (arith, div-add-mod idx (2 ^ k)), omega arith)

-- If the mask of a size lacks a digit `j` below the shift, then the indices 0 and `2 ^ j` have the same place.
pub locate-collides :
    (size shift j : ℕ)
    → bit (get_segment_mask size) j ≡ 0
    → j < shift
    → locate shift (get_segment_mask size) (2 ^ j) ≡ locate shift (get_segment_mask size) 0
unfolding locate get_segment_mask
locate-collides size shift j gap lt =
    let below : 2 ^ j < 2 ^ shift = omega (
      arith,
      pow-le-pow_right {n = 2} (omega arith) {i = suc j} {j = shift} lt,
      pow-suc 2 j,
      pow_pos j,
    ) in
    let quotient : 2 ^ j / 2 ^ shift ≡ 0 = div-eq_of_lt below in
    let none : 0 / 2 ^ shift ≡ 0 = div-eq_of_lt (pow_pos shift) in
    let digit : bit_and (2 ^ j) (size - 1) ≡ 0 =
      bit_and_comm (2 ^ j) (size - 1) ∙ (bit_and-pow (size - 1) j ∙ rw gap (omega arith)) in
    let zero_digit : bit_and 0 (size - 1) ≡ 0 =
      omega (arith, bit_and-le 0 0 (size - 1) (omega arith)) in
    rw (quotient, none, digit, zero_digit)
