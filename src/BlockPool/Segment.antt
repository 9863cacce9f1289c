-- ===== src/BlockPool/Segment.antt =====
-- `BlockMemPool::Segment` of Memory/BlockMemPool.hpp: the bitmap of used slots, `tryAcquireSlot`
-- and `releaseSlot`. The segment's lock makes each of them one step (Sync models the lock).
-- A list stands for an array; the bytes of the slots are not modelled here.
pub mod Words
pub mod Laws
use bhcpp_hptool_kit.Base.{
  ℕ, zero, suc, ◌+◌, ◌-◌, ◌*◌, ◌/◌, ◌%◌, ◌^◌, ◌≤◌, ◌<◌, ◌≡◌, arith, true, false, List, [], ◌∷◌,
  Option, none, some, if◌then◌else◌, ltb, leb, ◌==◌, bit_and, bit_or, get_or, set, replicate,
}
use bhcpp_hptool_kit.MathBits.{find_first_zero_bit}

pub record Segment : Type 0 where
  pub ref_counts : List ℕ
  pub bitmap : List ℕ
  pub block_size : ℕ
  pub capacity : ℕ
  pub used_count : ℕ

abbrev pub uint64_max : ℕ
uint64_max = 2 ^ 64 - 1

-- The constructor. Reading `refCounts` past the array is not modelled: a slot in use is in range.
unfoldable pub new_segment : ℕ → ℕ → Segment
new_segment slot_size slot_count = record {
  ref_counts = replicate slot_count 0;
  bitmap = replicate ((slot_count + 63) / 64) 0;
  block_size = slot_size;
  capacity = slot_count;
  used_count = 0;
}

-- The loop over the words from `word_index` on: the slot found, and the words after it is taken.
unfoldable pub acquire_words : ℕ → ℕ → List ℕ → Option (ℕ × List ℕ)
acquire_words capacity word_index [] = none
acquire_words capacity word_index (word ∷ words) =
    let continue : Option (ℕ × List ℕ) = elim (acquire_words capacity (word_index + 1) words) [
      | none ↦ none
      | some (slot, words') ↦ some (slot, word ∷ words')
    ] in
    let bit_index = find_first_zero_bit word in
    let candidate_index = word_index * 64 + bit_index in
    if word == uint64_max
    then continue
    else if leb capacity candidate_index
    then continue
    else some (candidate_index, bit_or word (2 ^ bit_index) ∷ words)

-- `none` is the return value `false`.
unfoldable pub try_acquire_slot : Segment → Option (ℕ × Segment)
try_acquire_slot s =
    if leb s.capacity s.used_count then none else elim (acquire_words s.capacity 0 s.bitmap) [
      | none ↦ none
      | some (slot, words) ↦ some (
        slot,
        record s {
          bitmap = words;
          ref_counts = set s.ref_counts slot 0;
          used_count = s.used_count + 1;
        },
      )
    ]

-- `~mask` at 64 bits
unfoldable pub release_slot : Segment → ℕ → Segment
release_slot s slot_index =
    let word_index = slot_index / 64 in
    let bit_index = slot_index % 64 in
    let mask = 2 ^ bit_index in
    record s {
      ref_counts = set s.ref_counts slot_index 0;
      bitmap = set s.bitmap word_index (bit_and (get_or s.bitmap word_index 0) (2 ^ 64 - 1 - mask));
      used_count = if ltb 0 s.used_count then s.used_count - 1 else s.used_count;
    }
