-- ===== src/HashMap/Limits.antt =====
-- Empty and full tables of PooledHashMap.
use bhcpp_hptool_kit.Base.{
  ℕ, zero, suc, ◌+◌, ◌*◌, ◌^◌, ◌≤◌, ◌≡◌, inl, inr, refl, ap, arith, List, [], ◌∷◌, Option, some,
  none, Bool, false, max, length, length-replicate, ◌==◌,
}
use bhcpp_hptool_kit.Base.Run.{fault, undefined, Returns, Returns_mono}
use bhcpp_hptool_kit.HashMap.KeyOps.{Key}
use bhcpp_hptool_kit.HashMap.{
  Entry, empty, erased, occupied, HashMap, bucket_count, insert_value, insert_in_place,
  ensure_capacity_for_insert, clear, new, slot_entry, unallocated,
}
use bhcpp_hptool_kit.HashMap.Table.{At, Absent, Sound}
use bhcpp_hptool_kit.HashMap.Probe.{size_pos}
use bhcpp_hptool_kit.HashMap.Slot.{SlotFound, find_slot_for_insert_lem}
use bhcpp_hptool_kit.HashMap.Count.{Counted, live, weigh, weigh-live_le}
use bhcpp_hptool_kit.HashMap.Rehash.{rehash_lem, blank-none, blank-Counted}
use bhcpp_hptool_kit.HashMap.Refine.{Repr}
use bhcpp_hptool_kit.MathBits.{round_up_power_of_two}

module _ {ℓ} {K V : Type ℓ} ⦃key_ops : Key K⦄ where
  -- `clear` leaves a map without pairs, at the same bucket count.
  pub clear-Repr :
      (m : HashMap K V) (f : K → Option V)
      → Repr m f
      → Repr (clear m) (λ q. none) × (bucket_count (clear m) ≡ bucket_count m)
  unfolding clear
  clear-Repr m f repr =
      let valid = repr.counted.valid in
      (
        record {
          counted = blank-Counted (bucket_count m) valid.bits valid.sized valid.bounded;
          agrees = λ q w. (
            λ impossible. cc impossible,
            λ (i, h, a, at, same). absurd (blank-none (bucket_count m) i h a w at),
          );
        },
        length-replicate (bucket_count m) empty,
      )

  all_live :
      (entries : List (Entry K V)) (j : ℕ) (e : Entry K V)
      → length entries ≤ weigh live entries
      → At entries j e
      → live e ≡ 1
  all_live [] j e full at = cc at
  all_live (x ∷ entries) zero e full at =
      let same : live x ≡ live e = ap live (cc at) in
      omega (arith, weigh-live_le entries, weigh-live_le (x ∷ entries), live_le x)
    where
      live_le : (x : Entry K V) → live x ≤ 1
      live_le empty = omega arith
      live_le erased = omega arith
      live_le (occupied h k v) = omega arith
  all_live (empty ∷ entries) (suc j) e full at = absurd (omega (arith, weigh-live_le entries))
  all_live (erased ∷ entries) (suc j) e full at = absurd (omega (arith, weigh-live_le entries))
  all_live (occupied h k v ∷ entries) (suc j) e full at = all_live entries j e (omega arith) at

  full-slot :
      (m : HashMap K V) (k : K) (slot : Option ℕ)
      → Counted m
      → m.size ≡ bucket_count m
      → Absent m.entries k
      → SlotFound m.entries k slot
      → slot ≡ none
  full-slot m k none counted full absent found = refl
  full-slot m k (some j) counted full absent (inl match) = absurd (absent j match)
  full-slot m k (some j) counted full absent (inr (inl hole, _, _)) =
      absurd (omega (arith, all_live m.entries j empty (omega (arith, counted.sized)) hole))
  full-slot m k (some j) counted full absent (inr (inr mark, _, _)) =
      absurd (omega (arith, all_live m.entries j erased (omega (arith, counted.sized)) mark))

  -- `max_load_factor` takes every value above 0.1. At one that allows a full table to take another
  -- pair, inserting a new key into a full table reads `slot->state` through a null pointer.
  pub insert_value-full :
      (entry_size : ℕ) (overloaded : ℕ → ℕ → Bool) (m : HashMap K V) (f : K → Option V) (k : K)
      (v : V)
      → Repr m f
      → m.size ≡ bucket_count m
      → overloaded (m.size + m.erased_count + 1) (bucket_count m) ≡ false
      → Absent m.entries k
      → insert_value entry_size overloaded m k v ≡ fault undefined
  unfolding insert_value ensure_capacity_for_insert insert_in_place slot_entry
  insert_value-full entry_size overloaded m f k v repr full allowed absent =
      let pos = size_pos m.entries repr.counted.valid in
      let some_buckets : (bucket_count m == 0) ≡ false = ground arith in
      let (slot, run, found) = find_slot_for_insert_lem m.entries repr.counted.valid k in
      let null = full-slot m k slot repr.counted full absent found in
      rw (some_buckets, allowed, run, null)

  -- When its table stays within `2 ^ 63` bytes, a new map is made without pairs, and its bucket count
  -- is the greater of 8 and the count asked for, rounded up to a power of two.
  pub new-Repr :
      (entry_size : ℕ) (overloaded : ℕ → ℕ → Bool) (count : ℕ)
      → max count 8 ≤ 2 ^ 63
      → entry_size * round_up_power_of_two (max count 8) ≤ 2 ^ 63
      → Returns
          (new entry_size overloaded {K = K} {V = V} count)
          λ r. Repr r (λ q. none) × (bucket_count r ≡ round_up_power_of_two (max count 8))
  unfolding new unallocated
  new-Repr entry_size overloaded count small bytes =
      Returns_mono
        (rehash_lem entry_size overloaded (unallocated {K = K} {V = V}) count nothing small
          (omega arith) bytes)
        λ r done. (
          record {
            counted = done.counted;
            agrees = λ q w. (
              λ impossible. cc impossible,
              λ held. let (i, h, a, at, same) = (done.pairs q w).0 held in cc at,
            );
          },
          done.buckets,
        )
    where
      nothing : Sound {K = K} {V = V} []
      nothing = record {
        hashed = λ i h a v at. cc at;
        unique = λ i j h g a b v w at at' same. cc at;
      }
