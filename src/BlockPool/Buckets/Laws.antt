-- ===== src/BlockPool/Buckets/Laws.antt =====
-- `allocate` of BlockMemPool: which slot a bucket gives.
use bhcpp_hptool_kit.Base.{
  ℕ, ◌+◌, ◌≤◌, ◌<◌, ◌≡◌, ◌⊎◌, inl, inr, refl, arith, [], ◌∷◌, Option, none, some,
}
use native.Mathlib.Decide.{dec_lt}
use bhcpp_hptool_kit.Base.Run.{Returns}
use bhcpp_hptool_kit.BlockPool.Sizes.{Config, segment_layout}
use bhcpp_hptool_kit.BlockPool.Segment.{Segment, new_segment, try_acquire_slot}
use bhcpp_hptool_kit.BlockPool.Segment.Laws.{
  IsValid, Acquires, try_acquire_slot_lem, new_segment_lem,
}
use bhcpp_hptool_kit.BlockPool.Buckets.{
  Segments, Bucket, first_slot, try_segments, create_segment, slot_or_new, allocate_slot,
}

-- Every segment is valid.
unfoldable pub AllValid : Segments → Type 0
AllValid [] = Unit
AllValid (segment ∷ rest) = IsValid segment.1 × AllValid rest

-- Every segment is full.
unfoldable pub AllFull : Segments → Type 0
AllFull [] = Unit
AllFull (segment ∷ rest) = (segment.1.capacity ≤ segment.1.used_count) × AllFull rest

-- The free slot `slot` of the segment at `a` was taken, and nothing else happened.
pub data Took (a slot : ℕ) : Segments → Segments → Type 0 where
  here :
      (s s' : Segment) (rest : Segments)
      → Acquires s slot s'
      → Took a slot ((a, s) ∷ rest) ((a, s') ∷ rest)
  later :
      (segment : ℕ × Segment) (rest rest' : Segments)
      → Took a slot rest rest'
      → Took a slot (segment ∷ rest) (segment ∷ rest')

-- The two outcomes of the loop over the segments.
Searched : Segments → Option ((ℕ × ℕ) × Segments) → Type 0
Searched segments none = AllFull segments
Searched segments (some ((a, slot), segments')) =
    Took a slot segments segments' × AllValid segments'

try_segments-Searched :
    (segments : Segments) → AllValid segments → Searched segments (try_segments segments)
unfolding Searched try_segments first_slot AllValid AllFull
try_segments-Searched [] v = tt
try_segments-Searched ((a, s) ∷ rest) (valid, others) = elim (dec_lt s.used_count s.capacity) [
  | yes free ↦
      let (slot, s', e, taken) = (try_acquire_slot_lem s valid).1 free in
      rw e (here s s' rest taken, (taken.valid, others))
  | no full ↦
      let crowded : s.capacity ≤ s.used_count = omega arith in
      rw (((try_acquire_slot_lem s valid).0 crowded).0)
        (skip (try_segments rest) (try_segments-Searched rest others) crowded)
]
  where
    skip :
        (r : Option ((ℕ × ℕ) × Segments))
        → Searched rest r
        → s.capacity ≤ s.used_count
        → Searched ((a, s) ∷ rest) (first_slot none r a s rest)
    skip none all crowded = (crowded, all)
    skip (some ((b, slot), rest')) (took, v) crowded = (later (a, s) rest rest' took, (valid, v))

-- A new segment that has a slot gives one.
new_segment-slot :
    (slot_size slot_count : ℕ)
    → 0 < slot_count
    → (slot : ℕ) × (s : Segment) × (try_acquire_slot (new_segment slot_size slot_count)
        ≡ some (slot, s))
      × Acquires (new_segment slot_size slot_count) slot s
unfolding new_segment
new_segment-slot slot_size slot_count pos =
    (try_acquire_slot_lem (new_segment slot_size slot_count)
        ((new_segment_lem slot_size slot_count).0)).1
      pos

create_segment-slot :
    (config : Config) (block_size : ℕ)
    → (slot : ℕ) × (s : Segment) × (try_acquire_slot (create_segment config block_size)
        ≡ some (slot, s))
      × Acquires (create_segment config block_size) slot s
unfolding create_segment segment_layout
create_segment-slot config block_size =
    let layout = segment_layout config block_size in
    let some_slot : 0 < layout.slot_count = omega arith in
    new_segment-slot layout.slot_size layout.slot_count some_slot

-- What `allocate` does to a bucket: it takes a free slot of one segment, or, if all are full, a slot
-- of a new segment, which it puts in front and counts.
unfoldable pub Given : Config → ℕ → Bucket → (ℕ × ℕ) × Bucket → Type 0
Given config address b ((a, slot), b') =
    (Took a slot b.segments b'.segments × (b'.segment_count ≡ b.segment_count))
    ⊎ (AllFull b.segments
        × (a ≡ address)
        × ((s : Segment) × Acquires (create_segment config b.block_size) slot s
            × (b'.segments ≡ (address, s) ∷ b.segments))
        × (b'.segment_count ≡ b.segment_count + 1))

-- `allocate` on a bucket of valid segments always gets a slot, so it throws nothing but what `new` may throw: it takes the
-- lowest free slot of a segment, or a slot of a new segment if every segment is full. No other
-- segment changes, the segments are valid afterwards, and the block size is the same.
pub allocate_slot_lem :
    (config : Config) (address : ℕ) (b : Bucket)
    → AllValid b.segments
    → Returns
        (allocate_slot config address b)
        λ r. Given config address b r × AllValid r.1.segments × (r.1.block_size ≡ b.block_size)
unfolding allocate_slot slot_or_new Given Searched AllValid
allocate_slot_lem config address b valid =
    let (slot, s, e, fresh) = create_segment-slot config b.block_size in
    by_search (try_segments b.segments) refl (try_segments-Searched b.segments valid) slot s e fresh
  where
    by_search :
        (found : Option ((ℕ × ℕ) × Segments))
        → try_segments b.segments ≡ found
        → Searched b.segments found
        → (slot : ℕ) (s : Segment)
        → try_acquire_slot (create_segment config b.block_size) ≡ some (slot, s)
        → Acquires (create_segment config b.block_size) slot s
        → Returns
            (allocate_slot config address b)
            λ r. Given config address b r × AllValid r.1.segments × (r.1.block_size ≡ b.block_size)
    by_search none run full slot s e fresh = (
      (
        (address, slot),
        record b { segments = (address, s) ∷ b.segments; segment_count = b.segment_count + 1 },
      ),
      rw (run, e),
      (inr (full, refl, (s, fresh, refl), refl), (fresh.valid, valid), refl),
    )
    by_search (some ((a, at), segments)) run (took, after) slot s e fresh =
        (((a, at), record b { segments = segments }), rw run, (inl (took, refl), after, refl))
