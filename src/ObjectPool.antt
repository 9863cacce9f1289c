-- ===== src/ObjectPool.antt =====
-- Memory/SegmentedObjectPool.hpp: `SegmentedObjectPool`, and with ObjectPool/Shared the reference
-- counts of `PooledSharedPtr`. The atomic variants run the same bodies under the pool's spin lock.
pub mod Laws
pub mod Shared
mod Examples
use bhcpp_hptool_kit.Base.{
  ℕ, zero, suc, ◌+◌, ◌-◌, ◌*◌, ◌/◌, ◌%◌, ◌^◌, max, Bool, List, [], ◌∷◌, map, Option, none, some,
  if◌then◌else◌, ltb, ◌==◌,
}
use bhcpp_hptool_kit.MathBits.{lcm, round_up}

-- A block of `operator new`, named by a number, and the index of a slot in it: the address
-- `data + index * slot_size_`.
abbrev pub Ptr : Type 0
Ptr = ℕ × ℕ

pub record Segment : Type 0 where
  pub data_block : ℕ
  pub capacity : ℕ
  pub next_uninit : ℕ

-- `segments` has the last segment, `back()`, first; `free_stack` has its top first. `blocks` counts
-- the calls of `operator new`, which names each block anew.
pub record Pool : Type 0 where
  pub free_stack : List Ptr
  pub segments : List Segment
  pub next_pages_hint : ℕ
  pub live_count : ℕ
  pub blocks : ℕ

pub record Config : Type 0 where
  pub page_size : ℕ
  pub slot_size : ℕ
  pub pages_per_segment_base : ℕ

-- `compute_min_pages`
unfoldable pub compute_min_pages : ℕ → ℕ → ℕ → ℕ
compute_min_pages page_size slot_size user_min_pages =
    let min_pages = lcm page_size slot_size / page_size in
    if ltb 0 user_min_pages
    then (min_pages * ((user_min_pages + min_pages - 1) % 2 ^ 64 / min_pages)) % 2 ^ 64
    else min_pages

-- The constructor: `object_size` and `object_align` are `sizeof(T)` and `alignof(T)`, and pointers
-- have 8 bytes.
unfoldable pub new_config : ℕ → ℕ → ℕ → ℕ → Config
new_config page_size object_size object_align min_pages_per_segment =
    let slot_size = round_up (max object_size 8) object_align in
    record {
      page_size = page_size;
      slot_size = slot_size;
      pages_per_segment_base = compute_min_pages page_size slot_size min_pages_per_segment;
    }

unfoldable pub new_pool : Pool
new_pool = record {
  free_stack = [];
  segments = [];
  next_pages_hint = 0;
  live_count = 0;
  blocks = 0;
}

-- `grow hint` is `next_pages_hint_ * growth_factor_`, computed in `double` and cut to an integer.
module _ (grow : ℕ → ℕ) (config : Config) where
  -- the `else` branch of `add_segment_`
  unfoldable pub grown_pages : ℕ → ℕ
  grown_pages hint =
      let base = config.pages_per_segment_base in
      let target = grow hint in
      let pages = if ltb target ((hint + base) % 2 ^ 64) then (hint + base) % 2 ^ 64 else target in
      let rem = pages % base in if rem == 0 then pages else (pages + (base - rem)) % 2 ^ 64

  unfoldable pub next_pages : Pool → ℕ
  next_pages pool = elim pool.segments [
    | [] ↦ config.pages_per_segment_base
    | _ ∷ _ ↦ grown_pages pool.next_pages_hint
  ]

  -- The segment that `add_segment_` makes: `operator new` names its block.
  unfoldable pub fresh_segment : Pool → Segment
  fresh_segment pool = record {
    data_block = pool.blocks;
    capacity = (next_pages pool * config.page_size) % 2 ^ 64 / config.slot_size;
    next_uninit = 0;
  }

  unfoldable pub add_segment : Pool → Pool
  add_segment pool = record pool {
    segments = fresh_segment pool ∷ pool.segments;
    next_pages_hint = next_pages pool;
    blocks = pool.blocks + 1;
  }

-- The slot `next_uninit` of the last segment is handed out; the code tests its bound before it only
-- in a segment that was there.
unfoldable pub take_slot : Segment → List Segment → Pool → Ptr × Pool
take_slot seg others pool = (
  (seg.data_block, seg.next_uninit),
  record pool {
    segments = record seg { next_uninit = seg.next_uninit + 1 } ∷ others;
    live_count = pool.live_count + 1;
  },
)

module _ (grow : ℕ → ℕ) (config : Config) where
  -- the last part of `allocate`
  unfoldable pub allocate_new_segment : Pool → Ptr × Pool
  allocate_new_segment pool =
      take_slot (fresh_segment grow config pool) pool.segments (add_segment grow config pool)

  -- `allocate`, by its free stack and its segments
  unfoldable pub allocate_from : List Ptr → List Segment → Pool → Ptr × Pool
  allocate_from (p ∷ free) segments pool =
      (p, record pool { free_stack = free; live_count = pool.live_count + 1 })
  allocate_from [] [] pool = allocate_new_segment pool
  allocate_from [] (seg ∷ others) pool =
      if ltb seg.next_uninit seg.capacity
      then take_slot seg others pool
      else allocate_new_segment pool

  -- `allocate` and, under the lock, `atomic_allocate`
  unfoldable pub allocate : Pool → Ptr × Pool
  allocate pool = allocate_from pool.free_stack pool.segments pool

-- `deallocate` of a pointer that is not null
unfoldable pub deallocate : Pool → Ptr → Pool
deallocate pool p = record pool {
  free_stack = p ∷ pool.free_stack;
  live_count = if pool.live_count == 0 then 2 ^ 64 - 1 else pool.live_count - 1;
}

-- `clear` frees the blocks of all segments, and leaves the free stack as it is.
unfoldable pub clear : Config → Pool → Pool
clear config pool = record pool {
  segments = [];
  live_count = 0;
  next_pages_hint = config.pages_per_segment_base;
}

unfoldable pub sum_capacity : List Segment → ℕ
sum_capacity [] = 0
sum_capacity (s ∷ rest) = s.capacity + sum_capacity rest

unfoldable pub capacity_total : Pool → ℕ
capacity_total pool = sum_capacity pool.segments
