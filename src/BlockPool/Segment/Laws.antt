-- ===== src/BlockPool/Segment/Laws.antt =====
-- A segment hands out each free slot once: `tryAcquireSlot` and `releaseSlot` keep the count of
-- used slots exact, and change one digit of the bitmap.
use native.Mathlib.Decide.{dec_lt, ℕ_discrete}
use mathlib.Core.Logic.{ite}
use mathlib.Core.Path.{subst₂}
use bhcpp_hptool_kit.Base.{
  ℕ, zero, suc, ◌+◌, ◌-◌, ◌*◌, ◌/◌, ◌%◌, ◌^◌, ◌≤◌, ◌<◌, ◌≡◌, refl, sym, ◌∙◌, arith, false, List,
  Option, none, some, leb, bit_and, get_or, set, replicate, length, length-set, length-replicate,
}
use bhcpp_hptool_kit.Base.Bits.{bit_zero, bit_and-le}
use bhcpp_hptool_kit.Base.Sums.{total, total-update, total_ones, total_zeros, full-total}
use bhcpp_hptool_kit.BlockPool.Segment.{
  Segment, new_segment, acquire_words, try_acquire_slot, release_slot,
}
use bhcpp_hptool_kit.BlockPool.Segment.Words.{
  slot_bit, slot_bit_le_one, AllWords, Taken, Outcome, acquire_words-Outcome, slot_bit-clear,
  AllWords-set, AllWords-get_or,
}

pub record IsValid (s : Segment) : Type 0 where
  pub words : AllWords s.bitmap
  pub width : s.capacity ≤ 64 * length s.bitmap
  pub counters : length s.ref_counts ≡ s.capacity
  pub counted : s.used_count ≡ total (slot_bit s.bitmap) s.capacity

abbrev pub is_used : Segment → ℕ → ℕ
is_used s = slot_bit s.bitmap

-- `s'` is `s` with slot `slot`, which was free, taken.
pub record Acquires (s : Segment) (slot : ℕ) (s' : Segment) : Type 0 where
  pub inside : slot < s.capacity
  pub free : is_used s slot ≡ 0
  pub lowest : (j : ℕ) → j < slot → is_used s j ≡ 1
  pub marks : (j : ℕ) → is_used s' j ≡ ite (ℕ_discrete slot j) 1 (is_used s j)
  pub counts : s'.used_count ≡ s.used_count + 1
  pub same : s'.capacity ≡ s.capacity
  pub valid : IsValid s'

-- A search that found a slot is an acquisition.
Taken-Acquires :
    (s : Segment) (slot : ℕ) (ws : List ℕ)
    → IsValid s
    → Taken s.capacity 0 s.bitmap slot slot ws
    → Acquires s slot (record s {
      bitmap = ws;
      ref_counts = set s.ref_counts slot 0;
      used_count = s.used_count + 1;
    })
Taken-Acquires s slot ws v t = record {
  inside = t.inside;
  free = t.free;
  lowest = t.lowest;
  marks = t.marked;
  counts = refl;
  same = refl;
  valid = record {
    words = t.words;
    width = omega (arith, v.width, t.same);
    counters = length-set s.ref_counts slot 0 ∙ v.counters;
    counted = omega (
      arith,
      v.counted,
      t.free,
      total-update (is_used s) (slot_bit ws) s.capacity slot 1 t.inside t.marked,
    );
  };
}

-- On a valid segment `tryAcquireSlot` fails exactly when every slot is in use; otherwise it takes
-- the lowest free slot, marks that slot alone, and keeps the segment valid.
pub try_acquire_slot_lem :
    (s : Segment)
    → IsValid s
    → (s.capacity ≤ s.used_count
        → (try_acquire_slot s ≡ none) × ((j : ℕ) → j < s.capacity → is_used s j ≡ 1))
      × (s.used_count < s.capacity
          → (slot : ℕ) × (s' : Segment) × (try_acquire_slot s ≡ some (slot, s'))
            × Acquires s slot s')
unfolding try_acquire_slot
try_acquire_slot_lem s v = (
  λ h. (
    ground arith,
    λ j p.
        full-total (is_used s) s.capacity j (slot_bit_le_one s.bitmap) (omega (arith, v.counted)) p,
  ),
  λ h.
      from (acquire_words s.capacity 0 s.bitmap) refl
        (acquire_words-Outcome s.capacity 0 s.bitmap v.words) h,
)
  where
    from :
        (r : Option (ℕ × List ℕ))
        → acquire_words s.capacity 0 s.bitmap ≡ r
        → Outcome s.capacity 0 s.bitmap r
        → s.used_count < s.capacity
        → (slot : ℕ) × (s' : Segment) × (try_acquire_slot s ≡ some (slot, s')) × Acquires s slot s'
    from none e all h = absurd (
        omega (
          arith,
          v.counted,
          total_ones (is_used s) s.capacity (λ j p. all j (omega (arith, v.width)) (omega arith)),
        ))
    from (some (slot, ws)) e (i, t) h =
        let here : i ≡ slot = omega (arith, t.place) in
        let room : leb s.capacity s.used_count ≡ false = ground arith in
        (slot, _, rw (room, e) refl, Taken-Acquires s slot ws v (rw here at t))

-- Releasing a slot in use frees that slot alone, and keeps the segment valid.
pub release_slot_lem :
    (s : Segment) (slot : ℕ)
    → IsValid s
    → slot < s.capacity
    → is_used s slot ≡ 1
    → IsValid (release_slot s slot)
      × ((release_slot s slot).used_count + 1 ≡ s.used_count)
      × ((j : ℕ) → is_used (release_slot s slot) j ≡ ite (ℕ_discrete slot j) 0 (is_used s j))
unfolding release_slot
release_slot_lem s slot v inside used = (
  record {
    words = AllWords-set s.bitmap (slot / 64) word v.words (
        omega (
          arith,
          AllWords-get_or s.bitmap (slot / 64) v.words,
          bit_and-le old old (2 ^ 64 - 1 - 2 ^ (slot % 64)) (omega arith),
        ));
    width = omega (arith, v.width, length-set s.bitmap (slot / 64) word);
    counters = length-set s.ref_counts slot 0 ∙ v.counters;
    counted = ground (arith, v.counted, sum);
  },
  ground (arith, v.counted, sum),
  clear,
)
  where
    old : ℕ
    old = get_or s.bitmap (slot / 64) 0

    word : ℕ
    word = bit_and old (2 ^ 64 - 1 - 2 ^ (slot % 64))

    clear :
        (j : ℕ)
        → slot_bit (set s.bitmap (slot / 64) word) j ≡ ite (ℕ_discrete slot j) 0 (is_used s j)
    clear j = slot_bit-clear s.bitmap slot j (omega (arith, v.width))

    sum :
        total (slot_bit (set s.bitmap (slot / 64) word)) s.capacity + 1
        ≡ total (is_used s) s.capacity
    sum = omega (
      arith,
      used,
      total-update (is_used s) (slot_bit (set s.bitmap (slot / 64) word)) s.capacity slot 0 inside
          clear,
    )

-- A new segment is valid, and none of its slots is in use.
pub new_segment_lem :
    (slot_size slot_count : ℕ)
    → IsValid (new_segment slot_size slot_count)
      × ((j : ℕ) → is_used (new_segment slot_size slot_count) j ≡ 0)
unfolding new_segment
new_segment_lem slot_size slot_count = (
  record {
    words = zero_words ((slot_count + 63) / 64);
    width = omega (arith, length-replicate {A = ℕ} ((slot_count + 63) / 64) 0);
    counters = length-replicate {A = ℕ} slot_count 0;
    counted = sym (
        total_zeros (slot_bit (replicate ((slot_count + 63) / 64) 0)) slot_count
          (λ j _. zero_bits j));
  },
  zero_bits,
)
  where
    zero_words : (n : ℕ) → AllWords (replicate n 0)
    zero_words zero = tt
    zero_words (suc n) = (omega arith, zero_words n)

    zero_get : (n i : ℕ) → get_or {A = ℕ} (replicate n 0) i 0 ≡ 0
    zero_get zero i = refl
    zero_get (suc n) zero = refl
    zero_get (suc n) (suc i) = zero_get n i

    zero_bits : (j : ℕ) → slot_bit (replicate ((slot_count + 63) / 64) 0) j ≡ 0
    zero_bits j =
        unfold slot_bit in rw (zero_get ((slot_count + 63) / 64) (j / 64)) (bit_zero (j % 64))

-- Taking a slot and releasing it gives back every digit and the count of used slots.
pub release-try_acquire :
    (s s' : Segment) (slot : ℕ)
    → IsValid s
    → try_acquire_slot s ≡ some (slot, s')
    → ((j : ℕ) → is_used (release_slot s' slot) j ≡ is_used s j)
      × ((release_slot s' slot).used_count ≡ s.used_count)
release-try_acquire s s' slot v e = elim (dec_lt s.used_count s.capacity) [
  | no full ↦
      let none-found = ((try_acquire_slot_lem s v).0 (omega arith)).0 in absurd (ground arith)
  | yes room ↦
      let (slot₀, t, run, a) = (try_acquire_slot_lem s v).1 room in
      let same : ◌≡◌ {A = Option (ℕ × Segment)} (some (slot₀, t)) (some (slot, s')) = sym run ∙ e in
      let slots : slot₀ ≡ slot = cc same in
      let states : t ≡ s' = cc same in
      let b = subst₂ (λ n u. Acquires s n u) slots states a in
      let (valid, counts, clear) =
        release_slot_lem s' slot b.valid (omega (arith, b.inside, b.same))
          (ground (arith, b.marks slot)) in
      (λ j. ground (arith, clear j, b.marks j, b.free), omega (arith, b.counts))
]
