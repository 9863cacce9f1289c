-- ===== src/BlockPool/Examples.antt =====
-- Sizes and segments on concrete numbers.
use mathlib.Core.Logic.{ite}
use native.Mathlib.Decide.{ℕ_discrete}
use bhcpp_hptool_kit.Base.{ℕ, ◌+◌, ◌^◌, ◌≤◌, ◌<◌, ◌≡◌, refl, arith, some, none, [], ◌∷◌}
use bhcpp_hptool_kit.Base.Bits.{bit}
use bhcpp_hptool_kit.Base.Sums.{total}
use bhcpp_hptool_kit.MathBits.{
  is_power_of_two, round_up_power_of_two, find_first_zero_bit, round_up_to_multiple,
}
use bhcpp_hptool_kit.BlockPool.Sizes.{
  normalize_min_block_size, normalize_max_block_size, choose_bucket_size, byte_capacity,
  segment_layout, new_config, choose_bucket_size_lem, byte_capacity_lem,
}
use bhcpp_hptool_kit.BlockPool.Segment.{
  Segment, new_segment, acquire_words, try_acquire_slot, release_slot,
}
use bhcpp_hptool_kit.BlockPool.Segment.Words.{slot_bit}
use bhcpp_hptool_kit.BlockPool.Segment.Laws.{
  IsValid, Acquires, is_used, try_acquire_slot_lem, release_slot_lem, new_segment_lem,
}
use bhcpp_hptool_kit.Base.Run.{Returns}
use bhcpp_hptool_kit.BlockPool.Buckets.{Bucket, allocate_slot}
use bhcpp_hptool_kit.BlockPool.Buckets.Laws.{AllValid, Given, allocate_slot_lem}

program : Unit {0}
unfolding is_power_of_two round_up_power_of_two find_first_zero_bit round_up_to_multiple
    normalize_min_block_size normalize_max_block_size choose_bucket_size byte_capacity
    segment_layout new_config new_segment acquire_words try_acquire_slot release_slot slot_bit bit
program = tt

-- 64 slots of 64 bytes in a page of 4096
page_of_slots : (segment_layout (new_config 4096 64 4096 1) 64).slot_count ≡ 64
unfolding program
page_of_slots = refl

-- slots 0 and 1 are in use
abbrev two_used : Segment
two_used = record {
  ref_counts = 1 ∷ 1 ∷ 0 ∷ [];
  bitmap = 3 ∷ [];
  block_size = 64;
  capacity = 3;
  used_count = 2;
}

abbrev three_used : Segment
three_used = record two_used { bitmap = 7 ∷ []; used_count = 3 }

takes_slot_two : try_acquire_slot two_used ≡ some (2, three_used)
unfolding program
takes_slot_two = refl

two_used-IsValid : IsValid two_used
unfolding program total
two_used-IsValid = record {
  words = (omega arith, tt);
  width = omega arith;
  counters = refl;
  counted = refl;
}

choose_bucket_size_lem_example :
    (k : ℕ) × (choose_bucket_size (2 ^ 6) 100 ≡ 2 ^ k)
    × (100 ≤ 2 ^ k)
    × (2 ^ 6 ≤ 2 ^ k)
    × (2 ^ k ≤ 2 ^ 63)
    × ((j : ℕ) → 100 ≤ 2 ^ j → 2 ^ 6 ≤ 2 ^ j → 2 ^ k ≤ 2 ^ j)
choose_bucket_size_lem_example = choose_bucket_size_lem 6 100 (omega arith) (omega arith)

byte_capacity_lem_example : (100 ≤ byte_capacity 100) × (byte_capacity 100 ≤ 2 ^ 63)
byte_capacity_lem_example = byte_capacity_lem 100 (omega arith)

try_acquire_slot_lem_example :
    (3 ≤ 2 → (try_acquire_slot two_used ≡ none) × ((j : ℕ) → j < 3 → is_used two_used j ≡ 1))
    × (2 < 3
        → (slot : ℕ) × (s' : Segment) × (try_acquire_slot two_used ≡ some (slot, s'))
          × Acquires two_used slot s')
try_acquire_slot_lem_example = try_acquire_slot_lem two_used two_used-IsValid

release_slot_lem_example :
    IsValid (release_slot two_used 1)
    × ((release_slot two_used 1).used_count + 1 ≡ 2)
    × ((j : ℕ) → is_used (release_slot two_used 1) j ≡ ite (ℕ_discrete 1 j) 0 (is_used two_used j))
unfolding program
release_slot_lem_example = release_slot_lem two_used 1 two_used-IsValid (omega arith) refl

new_segment_lem_example :
    IsValid (new_segment 64 100) × ((j : ℕ) → is_used (new_segment 64 100) j ≡ 0)
new_segment_lem_example = new_segment_lem 64 100

-- a bucket with one segment, at the address 5, of which two slots are in use
abbrev small_bucket : Bucket
small_bucket = record { segments = (5, two_used) ∷ []; segment_count = 1; block_size = 64 }

small_bucket-AllValid : AllValid small_bucket.segments
unfolding AllValid
small_bucket-AllValid = (two_used-IsValid, tt)

allocate_slot_lem_example : Returns (allocate_slot (new_config 4096 64 4096 1) 6 small_bucket) λ r.
    Given (new_config 4096 64 4096 1) 6 small_bucket r
    × AllValid r.1.segments
    × (r.1.block_size ≡ 64)
allocate_slot_lem_example =
    allocate_slot_lem (new_config 4096 64 4096 1) 6 small_bucket small_bucket-AllValid
