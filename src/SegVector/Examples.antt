-- ===== src/SegVector/Examples.antt =====
-- SegmentVector on concrete sizes: 1024 elements of 4 bytes, or 341 of 12 bytes, in a page of 4096.
use bhcpp_hptool_kit.Base.{◌≡◌, refl}
use bhcpp_hptool_kit.Base.Bits.{bit}
use bhcpp_hptool_kit.Base.Run.{ok}
use bhcpp_hptool_kit.SegVector.{shift_from, get_segment_shift, get_segment_mask}

shift_of_341 : get_segment_shift 341 ≡ ok 9
unfolding get_segment_shift shift_from
shift_of_341 = refl

-- 340 has the digits 2, 4, 6 and 8, so 0 and 1 share a place.
gap_of_341 : bit (get_segment_mask 341) 0 ≡ 0
unfolding bit get_segment_mask
gap_of_341 = refl
