-- ===== src/BlockPool/Buckets.antt =====
-- `Bucket`, `allocate`, `clear` and the handles `Block` of Memory/BlockMemPool.hpp. The locks make each
-- call one step. A segment is named by its address, which `new` gives and the calls take as an
-- argument; the data pointer of a block is its segment and slot, and the bytes are not modelled.
pub mod Laws
use bhcpp_hptool_kit.Base.{
  ℕ, zero, suc, ◌+◌, ◌-◌, ◌*◌, ◌/◌, ◌%◌, ◌^◌, Bool, true, false, ◌&&◌, List, [], ◌∷◌, ◌++◌, map,
  Option, none, some, if◌then◌else◌, ◌==◌, get_or, set, length,
}
use bhcpp_hptool_kit.Base.Run.{Run, ok, fault, runtime_error, undefined, ◌>>=◌}
use bhcpp_hptool_kit.BlockPool.Sizes.{Config, Layout, segment_layout, choose_bucket_size}
use bhcpp_hptool_kit.BlockPool.Segment.{Segment, new_segment, try_acquire_slot, release_slot}

-- The list of `head` and `next`, newest first.
abbrev pub Segments : Type 0
Segments = List (ℕ × Segment)

pub record Bucket : Type 0 where
  pub segments : Segments
  pub segment_count : ℕ
  pub block_size : ℕ

unfoldable pub new_bucket : ℕ → Bucket
new_bucket size = record { segments = []; segment_count = 0; block_size = size }

-- The first result of two tries.
unfoldable pub first_slot :
    Option (ℕ × Segment)
    → Option ((ℕ × ℕ) × Segments)
    → ℕ
    → Segment
    → Segments
    → Option ((ℕ × ℕ) × Segments)
first_slot (some (slot, s')) later a s rest = some ((a, slot), (a, s') ∷ rest)
first_slot none none a s rest = none
first_slot none (some (found, rest')) a s rest = some (found, (a, s) ∷ rest')

-- the loop of `allocate` over the segments: the segment and the slot found
unfoldable pub try_segments : Segments → Option ((ℕ × ℕ) × Segments)
try_segments [] = none
try_segments (segment ∷ rest) =
    first_slot (try_acquire_slot segment.1) (try_segments rest) segment.0 segment.1 rest

unfoldable pub create_segment : Config → ℕ → Segment
create_segment config block_size =
    let layout = segment_layout config block_size in new_segment layout.slot_size layout.slot_count

-- `allocate` once the segments were tried, with the first try on a new segment
unfoldable pub slot_or_new :
    Option ((ℕ × ℕ) × Segments) → Option (ℕ × Segment) → ℕ → Bucket → Run ((ℕ × ℕ) × Bucket)
slot_or_new (some (found, segments)) fresh address b = ok (found, record b { segments = segments })
slot_or_new none none address b = fault runtime_error
slot_or_new none (some (slot, s)) address b = ok (
  (address, slot),
  record b { segments = (address, s) ∷ b.segments; segment_count = b.segment_count + 1 },
)

-- `allocate` between the locks of the bucket; a new segment is at `address`.
unfoldable pub allocate_slot : Config → ℕ → Bucket → Run ((ℕ × ℕ) × Bucket)
allocate_slot config address b =
    slot_or_new (try_segments b.segments) (try_acquire_slot (create_segment config b.block_size))
      address b

pub record Pool : Type 0 where
  pub buckets : List Bucket
  pub bucket_order : List ℕ

-- `Block`, whose `_data` is null exactly if there is no segment
pub record Block : Type 0 where
  pub segment : Option ℕ
  pub slot_index : ℕ
  pub byte_size : ℕ
  pub byte_capacity : ℕ

abbrev pub null_block : Block
null_block = record { segment = none; slot_index = 0; byte_size = 0; byte_capacity = 0 }

-- `_buckets.find(size)`
unfoldable pub find_bucket : List Bucket → ℕ → Option Bucket
find_bucket [] size = none
find_bucket (b ∷ buckets) size = if b.block_size == size then some b else find_bucket buckets size

unfoldable pub replace_bucket : List Bucket → Bucket → List Bucket
replace_bucket [] b = []
replace_bucket (b' ∷ buckets) b =
    if b'.block_size == b.block_size then b ∷ buckets else b' ∷ replace_bucket buckets b

-- `bucketForSize`, by what it finds: the bucket, in the pool that has it
unfoldable pub bucket_for_size : Option Bucket → Pool → ℕ → Bucket × Pool
bucket_for_size (some b) pool size = (b, pool)
bucket_for_size none pool size = (
  new_bucket size,
  record {
    buckets = new_bucket size ∷ pool.buckets;
    bucket_order = pool.bucket_order ++ size ∷ [];
  },
)

-- `refCounts[slot].fetch_add(1)`
unfoldable pub retain_slot : Segment → ℕ → Segment
retain_slot s slot = record s {
  ref_counts = set s.ref_counts slot ((get_or s.ref_counts slot 0 + 1) % 2 ^ 32);
}

-- `release` of a block of the segment
unfoldable pub release_reference : Segment → ℕ → Segment
release_reference s slot =
    let previous = get_or s.ref_counts slot 0 in
    let less = record s { ref_counts = set s.ref_counts slot ((previous + 2 ^ 32 - 1) % 2 ^ 32) } in
    if previous == 1 then release_slot less slot else less

-- The segments with the one at the address changed.
unfoldable pub update_segment : (Segment → Segment) → ℕ → Segments → Segments
update_segment change a [] = []
update_segment change a (segment ∷ rest) =
    if segment.0 == a
    then (segment.0, change segment.1) ∷ rest
    else segment ∷ update_segment change a rest

-- The bucket with the segment at the address changed.
unfoldable pub update_bucket : (Segment → Segment) → ℕ → Bucket → Bucket
update_bucket change a b = record b { segments = update_segment change a b.segments }

unfoldable pub update_pool : (Segment → Segment) → ℕ → Pool → Pool
update_pool change a pool = record pool { buckets = map (update_bucket change a) pool.buckets }

unfoldable pub in_segments : ℕ → Segments → Bool
in_segments a [] = false
in_segments a (segment ∷ rest) = if segment.0 == a then true else in_segments a rest

-- Whether a segment is still there, and not deleted by `clear`.
unfoldable pub in_buckets : ℕ → List Bucket → Bool
in_buckets a [] = false
in_buckets a (b ∷ buckets) = if in_segments a b.segments then true else in_buckets a buckets

-- An access through `_segment`
unfoldable pub at_segment : (Segment → Segment) → Option ℕ → Pool → Run Pool
at_segment change none pool = ok pool
at_segment change (some a) pool =
    if in_buckets a pool.buckets then ok (update_pool change a pool) else fault undefined

unfoldable pub retain : Pool → Block → Run Pool
retain pool block = at_segment (λ s. retain_slot s block.slot_index) block.segment pool

unfoldable pub release : Pool → Block → Run Pool
release pool block = at_segment (λ s. release_reference s block.slot_index) block.segment pool

unfoldable pub allocate : Config → ℕ → Pool → ℕ → Run (Block × Pool)
allocate config address pool requested_bytes =
    if requested_bytes == 0 then ok (null_block, pool) else do
      let size = choose_bucket_size config.min_block_size requested_bytes
      let found = bucket_for_size (find_bucket pool.buckets size) pool size
      r ← allocate_slot config address found.0
      let block : Block = record {
        segment = some r.0.0;
        slot_index = r.0.1;
        byte_size = requested_bytes;
        byte_capacity = found.0.block_size;
      }
      kept ← retain (record found.1 { buckets = replace_bucket found.1.buckets r.1 }) block
      ok (block, kept)

-- `value_size` is `sizeof(T)`.
unfoldable pub allocate_as : ℕ → Config → ℕ → Pool → ℕ → Run (Block × Pool)
allocate_as value_size config address pool count = if count == 0 then ok (null_block, pool) else do
  let requested_bytes = (value_size * count) % 2 ^ 64
  r ← allocate config address pool requested_bytes
  ok (record r.0 { byte_size = requested_bytes }, r.1)

-- `operator=` from another block: the block assigned to is released first.
unfoldable pub assign_copy : Pool → Block → Block → Run (Block × Pool)
assign_copy pool target source = do
  released ← release pool target
  retained ← retain released source
  ok (source, retained)

-- `operator=` from another block that is moved: both blocks after it
unfoldable pub assign_move : Pool → Block → Block → Run ((Block × Block) × Pool)
assign_move pool target source = do
  released ← release pool target
  ok ((source, null_block), released)

-- `as<U>()`, where `value_size` is `sizeof(U)`, of a block that is not null
unfoldable pub view_as : ℕ → Pool → Block → Run (Block × Pool)
view_as value_size pool block =
    if (block.byte_size % value_size == 0) && (block.byte_capacity % value_size == 0)
    then (do retained ← retain pool block; ok (block, retained))
    else ok (null_block, pool)

unfoldable pub total_segment_count : List Bucket → ℕ
total_segment_count [] = 0
total_segment_count (b ∷ buckets) = (b.segment_count + total_segment_count buckets) % 2 ^ 64

unfoldable pub clear : Pool → Pool
clear pool = record { buckets = []; bucket_order = [] }
