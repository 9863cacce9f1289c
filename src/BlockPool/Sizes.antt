-- ===== src/BlockPool/Sizes.antt =====
-- The size arithmetic of Memory/BlockMemPool.hpp: the normalised limits, the bucket of a request,
-- and the storage of a new segment.
use native.Mathlib.Nat.{mod-eq_of_lt}
use bhcpp_hptool_kit.Base.{
  ℕ, ◌*◌, ◌/◌, ◌%◌, ◌^◌, ◌≤◌, ◌<◌, min, max, ◌≡◌, refl, arith, Bool-cases, inl, inr, if◌then◌else◌,
  ltb, ◌==◌,
}
use bhcpp_hptool_kit.MathBits.{
  is_power_of_two, round_up_power_of_two, round_up_to_multiple, is_power_of_two_iff,
  round_up_power_of_two_lem,
}

unfoldable pub normalize_min_block_size : ℕ → ℕ
normalize_min_block_size value =
    let candidate = max 64 value in
    if is_power_of_two candidate then candidate else round_up_power_of_two candidate

unfoldable pub normalize_max_block_size : ℕ → ℕ → ℕ
normalize_max_block_size value min_block_size =
    let candidate = max value min_block_size in
    if is_power_of_two candidate then candidate else round_up_power_of_two candidate

unfoldable pub choose_bucket_size : ℕ → ℕ → ℕ
choose_bucket_size min_block_size requested_size =
    let normalized = max requested_size min_block_size in
    let bucket_size = round_up_power_of_two normalized in max bucket_size min_block_size

-- `byte_capacity()` of the block that `allocate` returns in a pool with default arguments; a request
-- of no bytes gets the empty block.
unfoldable pub byte_capacity : ℕ → ℕ
byte_capacity requested_bytes =
    if requested_bytes == 0
    then 0
    else choose_bucket_size (normalize_min_block_size 64) requested_bytes

-- The pool's constructor arguments after normalisation.
pub record Config : Type 0 where
  pub page_size : ℕ
  pub min_block_size : ℕ
  pub max_preallocated_block_size : ℕ
  pub pages_per_segment : ℕ

unfoldable pub new_config : ℕ → ℕ → ℕ → ℕ → Config
new_config page_size min_block_size max_preallocated_block_size pages_per_segment =
    let smallest = normalize_min_block_size min_block_size in
    record {
      page_size = page_size;
      min_block_size = smallest;
      max_preallocated_block_size = normalize_max_block_size max_preallocated_block_size smallest;
      pages_per_segment = if pages_per_segment == 0 then 1 else pages_per_segment;
    }

-- What `createSegment` passes to the constructor of `Segment`.
pub record Layout : Type 0 where
  pub slot_size : ℕ
  pub slot_count : ℕ
  pub storage_bytes : ℕ

unfoldable pub segment_layout : Config → ℕ → Layout
segment_layout c block_size =
    let minimum_bytes : ℕ =
      if ltb c.max_preallocated_block_size block_size
      then block_size
      else (block_size * (c.page_size / min block_size c.page_size)) % 2 ^ 64 in
    let desired_bytes = max minimum_bytes ((c.pages_per_segment * c.page_size) % 2 ^ 64) in
    let storage_bytes = round_up_to_multiple desired_bytes c.page_size in
    let slot_count = max 1 (storage_bytes / block_size) in
    record {
      slot_size = block_size;
      slot_count = slot_count;
      storage_bytes = (slot_count * block_size) % 2 ^ 64;
    }

-- A candidate up to `2 ^ 63` is taken to the least power of two that is not below it.
round_if_needed :
    (candidate : ℕ)
    → candidate ≤ 2 ^ 63
    → (k : ℕ) × ((if is_power_of_two candidate then candidate else round_up_power_of_two candidate)
        ≡ 2 ^ k)
      × (candidate ≤ 2 ^ k)
      × ((j : ℕ) → candidate ≤ 2 ^ j → 2 ^ k ≤ 2 ^ j)
round_if_needed candidate small = elim (Bool-cases (is_power_of_two candidate)) [
  | inl y ↦
      let (k, e) = (is_power_of_two_iff candidate).0 y in
      (k, rw y e, omega arith, λ j h. omega arith)
  | inr n ↦ rw n (round_up_power_of_two_lem candidate small)
]

-- The least block size is the least power of two that is at least 64 and at least the argument.
pub normalize_min_block_size_lem :
    (value : ℕ)
    → value ≤ 2 ^ 63
    → (k : ℕ) × (normalize_min_block_size value ≡ 2 ^ k)
      × (64 ≤ 2 ^ k)
      × (value ≤ 2 ^ k)
      × ((j : ℕ) → 64 ≤ 2 ^ j → value ≤ 2 ^ j → 2 ^ k ≤ 2 ^ j)
unfolding normalize_min_block_size
normalize_min_block_size_lem value small =
    let (k, e, above, least) = round_if_needed (max 64 value) (omega arith) in
    (k, e, omega arith, omega arith, λ j h h'. least j (omega arith))

-- For a least block size that is a power of two up to 2^63 and a request of at most 2^63 bytes, the
-- bucket of the request is the least power of two that holds the request and is not below the least
-- block size.
pub choose_bucket_size_lem :
    (m requested : ℕ)
    → 2 ^ m ≤ 2 ^ 63
    → requested ≤ 2 ^ 63
    → (k : ℕ) × (choose_bucket_size (2 ^ m) requested ≡ 2 ^ k)
      × (requested ≤ 2 ^ k)
      × (2 ^ m ≤ 2 ^ k)
      × (2 ^ k ≤ 2 ^ 63)
      × ((j : ℕ) → requested ≤ 2 ^ j → 2 ^ m ≤ 2 ^ j → 2 ^ k ≤ 2 ^ j)
unfolding choose_bucket_size
choose_bucket_size_lem m requested hm hr =
    let (k, e, above, least) = round_up_power_of_two_lem (max requested (2 ^ m)) (omega arith) in
    (
      k,
      rw e (omega arith),
      omega arith,
      omega arith,
      least 63 (omega arith),
      λ j h h'. least j (omega arith),
    )

-- Where its sizes do not wrap, a new segment has a slot, and its slots fill its storage exactly.
pub segment_layout_lem :
    (c : Config) (block_size : ℕ)
    → 0 < block_size
    → (segment_layout c block_size).slot_count * block_size < 2 ^ 64
    → (0 < (segment_layout c block_size).slot_count)
      × ((segment_layout c block_size).storage_bytes
          ≡ (segment_layout c block_size).slot_count * (segment_layout c block_size).slot_size)
unfolding segment_layout
segment_layout_lem c block_size pos small = (omega arith, mod-eq_of_lt small)

-- A block of a default pool holds the bytes that were asked for.
pub byte_capacity_lem :
    (requested : ℕ)
    → requested ≤ 2 ^ 63
    → (requested ≤ byte_capacity requested) × (byte_capacity requested ≤ 2 ^ 63)
unfolding byte_capacity normalize_min_block_size is_power_of_two
byte_capacity_lem requested small =
    let smallest : normalize_min_block_size 64 ≡ 2 ^ 6 = refl in
    let (k, e, holds, _, bound, _) = choose_bucket_size_lem 6 requested (omega arith) small in
    ground arith
