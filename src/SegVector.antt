-- ===== src/SegVector.antt =====
-- The index arithmetic of HPContainer/SegVector.hpp. A segment has `getPageSize() / sizeof(T)`
-- elements, which need not be a power of two.
pub mod Locate
mod Examples
use bhcpp_hptool_kit.Base.{ℕ, zero, suc, ◌+◌, ◌-◌, ◌/◌, ◌%◌, ◌^◌, if◌then◌else◌, ltb, bit_and}
use bhcpp_hptool_kit.Base.Run.{Run, ok, fault, diverges}

-- `while ((1ULL << shift) < segmentSize) ++shift;` With 64 rounds it reaches every size up to
-- `2 ^ 63`; above, the shift leaves the width of the word.
unfoldable pub shift_from : ℕ → ℕ → ℕ → Run ℕ
shift_from zero shift segment_size =
    if ltb (2 ^ shift) segment_size then fault diverges else ok shift
shift_from (suc fuel) shift segment_size =
    let rest = shift_from fuel (shift + 1) segment_size in
    if ltb (2 ^ shift) segment_size then rest else ok shift

unfoldable pub get_segment_shift : ℕ → Run ℕ
get_segment_shift segment_size = shift_from 63 0 segment_size

unfoldable pub get_segment_mask : ℕ → ℕ
get_segment_mask segment_size = segment_size - 1

-- `segIndex` and `subIndex` of `push_back` and `operator[]`, by the shift and the mask
unfoldable pub locate : ℕ → ℕ → ℕ → ℕ × ℕ
locate shift mask idx = (idx / 2 ^ shift, bit_and idx mask)
