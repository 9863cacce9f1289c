-- ===== src/HashMap.antt =====
-- HPContainer/PooledHashMap.hpp: a hash table with open addressing, linear probing and erased
-- marks. A method runs alone, on one thread; moving and copying a value are the same here. An
-- iterator is the index it holds, and `end()` is the bucket count.
pub mod KeyOps
pub mod Table
pub mod Probe
pub mod Slot
pub mod Count
pub mod Insert
pub mod Place
pub mod Rehash
pub mod Refine
pub mod Update
pub mod Put
pub mod Limits
pub mod Iterate
pub mod Replace
pub mod Configured
mod Examples
use bhcpp_hptool_kit.Base.{
  ℕ, zero, suc, ◌+◌, ◌-◌, ◌*◌, ◌^◌, ◌%◌, max, Bool, true, false, ◌&&◌, not, List, [], ◌∷◌, Option,
  none, some, if◌then◌else◌, ltb, leb, ◌==◌, get_elem?, set, replicate, length, bit_and, drop,
}
use bhcpp_hptool_kit.Base.Run.{Run, ok, fault, undefined, out_of_range, ◌>>=◌}
use bhcpp_hptool_kit.MathBits.{round_up_power_of_two}
use bhcpp_hptool_kit.BlockPool.Sizes.{byte_capacity}
use bhcpp_hptool_kit.HashMap.KeyOps.{Key}

-- `Entry` by its state: `Empty`, `Erased`, and `Occupied` with the hash and the pair.
pub data Entry {ℓ} (K V : Type ℓ) : Type ℓ where
  empty erased : Entry K V
  occupied : ℕ → K → V → Entry K V

-- `_bucketCount` is the length of `entries`. The other fields are in HashMap/Configured.
pub record HashMap {ℓ} (K V : Type ℓ) : Type ℓ where
  pub entries : List (Entry K V)
  pub size : ℕ
  pub erased_count : ℕ

module _ {ℓ} {K V : Type ℓ} where
  abbrev pub bucket_count : HashMap K V → ℕ
  bucket_count m = length m.entries

  -- `_entries[index]`
  unfoldable pub read_entry : List (Entry K V) → ℕ → Run (Entry K V)
  read_entry entries index = elim (get_elem? entries index) [
    | none ↦ fault undefined
    | some e ↦ ok e
  ]

  -- `& (_bucketCount - 1)`
  abbrev pub mask_index : List (Entry K V) → ℕ → ℕ
  mask_index entries i = bit_and i (length entries - 1)

  abbrev pub next_probe : List (Entry K V) → ℕ → ℕ
  next_probe entries index = mask_index entries ((index + 1) % 2 ^ 64)

  -- the constructor's `_storage` and `_entries`: none yet
  unfoldable pub unallocated : HashMap K V
  unallocated = record { entries = []; size = 0; erased_count = 0 }

  unfoldable pub is_empty : HashMap K V → Bool
  is_empty m = m.size == 0

module _ {ℓ} {K : Type ℓ} ⦃key_ops : Key K⦄ where
  -- the test of an occupied entry in both probe loops
  unfoldable pub matches : ℕ → K → ℕ → K → Bool
  matches hash k hash_value key = (hash == hash_value) && key_ops.equal k key

module _ {ℓ} {K V : Type ℓ} ⦃key_ops : Key K⦄ where
  -- the loop of `find_existing_index`, with `count` probes left
  unfoldable pub find_probe : ℕ → ℕ → List (Entry K V) → K → ℕ → Run ℕ
  find_probe zero index entries key hash_value = ok (length entries)
  find_probe (suc count) index entries key hash_value = do
    entry ← read_entry entries index
    let rest = find_probe count (next_probe entries index) entries key hash_value
    elim entry [
      | empty ↦ ok (length entries)
      | erased ↦ rest
      | occupied h k v ↦ if matches h k hash_value key then ok index else rest
    ]

  unfoldable pub find_existing_index : HashMap K V → K → Run ℕ
  find_existing_index m key =
      if bucket_count m == 0
      then ok 0
      else find_probe (bucket_count m) (mask_index m.entries (key_ops.hasher key)) m.entries key
          (key_ops.hasher key)

  unfoldable pub contains : HashMap K V → K → Run Bool
  contains m key = do index ← find_existing_index m key; ok (not (index == bucket_count m))

  unfoldable pub find : HashMap K V → K → Run ℕ
  find m key = if bucket_count m == 0 then ok (bucket_count m) else find_existing_index m key

  -- `it->second`
  unfoldable pub mapped_at : HashMap K V → ℕ → Run V
  mapped_at m index = do
    entry ← read_entry m.entries index
    elim entry [ occupied h k v ↦ ok v | _ ↦ fault undefined ]

  unfoldable pub at : HashMap K V → K → Run V
  at m key = do it ← find m key; if it == bucket_count m then fault out_of_range else mapped_at m it

  -- the loop of `find_slot_for_insert`; `none` is the null pointer
  unfoldable pub slot_probe : ℕ → ℕ → List (Entry K V) → K → ℕ → Option ℕ → Run (Option ℕ)
  slot_probe zero index entries key hash_value first_erased = ok first_erased
  slot_probe (suc count) index entries key hash_value first_erased = do
    entry ← read_entry entries index
    let next = next_probe entries index
    elim entry [
      | empty ↦ ok (some (elim first_erased [ none ↦ index | some i ↦ i ]))
      | erased ↦
          slot_probe count next entries key hash_value
            (elim first_erased [ none ↦ some index | some i ↦ some i ])
      | occupied h k v ↦
          let rest = slot_probe count next entries key hash_value first_erased in
          if matches h k hash_value key then ok (some index) else rest
    ]

  unfoldable pub find_slot_for_insert : List (Entry K V) → K → ℕ → Run (Option ℕ)
  find_slot_for_insert entries key hash_value =
      slot_probe (length entries) (mask_index entries hash_value) entries key hash_value none

  -- `_entries[index]` of the slot that was found: a null pointer faults.
  unfoldable pub slot_entry : List (Entry K V) → Option ℕ → Run (ℕ × Entry K V)
  slot_entry entries none = fault undefined
  slot_entry entries (some index) = do entry ← read_entry entries index; ok (index, entry)

  -- `construct_entry` after the loop, in `insert_rehashed_value`
  unfoldable pub insert_rehashed_value : HashMap K V → ℕ → K → V → Run (HashMap K V)
  insert_rehashed_value m hash_value k v = do
    slot ← find_slot_for_insert m.entries k hash_value
    (index, _) ← slot_entry m.entries slot
    ok (record m { entries = set m.entries index (occupied hash_value k v); size = m.size + 1 })

  -- the loop of `rehash` over the old entries
  unfoldable pub reinsert : List (Entry K V) → HashMap K V → Run (HashMap K V)
  reinsert [] m = ok m
  reinsert (empty ∷ old) m = reinsert old m
  reinsert (erased ∷ old) m = reinsert old m
  reinsert (occupied h k v ∷ old) m = do m' ← insert_rehashed_value m h k v; reinsert old m'

  -- The end of `insert_value` and of `try_emplace`: whether the pair was inserted, and its index.
  unfoldable pub place_value : HashMap K V → ℕ → Entry K V → K → V → (ℕ × Bool) × HashMap K V
  place_value m index (occupied h k' v') k v = ((index, false), m)
  place_value m index empty k v =
      let e = occupied (key_ops.hasher k) k v in
      ((index, true), record m { entries = set m.entries index e; size = m.size + 1 })
  place_value m index erased k v =
      let e = occupied (key_ops.hasher k) k v in
      (
        (index, true),
        record m {
          entries = set m.entries index e;
          size = m.size + 1;
          erased_count = if ltb 0 m.erased_count then m.erased_count - 1 else m.erased_count;
        },
      )

  -- `insert_value` after `ensure_capacity_for_insert`
  unfoldable pub insert_in_place : HashMap K V → K → V → Run ((ℕ × Bool) × HashMap K V)
  insert_in_place m k v = do
    slot ← find_slot_for_insert m.entries k (key_ops.hasher k)
    (index, entry) ← slot_entry m.entries slot
    ok (place_value m index entry k v)

module _ {ℓ} {K V : Type ℓ} where
  -- `memset` makes every entry empty.
  unfoldable pub clear : HashMap K V → HashMap K V
  clear m = record { entries = replicate (bucket_count m) empty; size = 0; erased_count = 0 }

-- `entry_size` is `sizeof(Entry)`; `overloaded used buckets` is the test in `float` that `used`
-- entries of `buckets` are more than `_maxLoadFactor` allows.
module _ {ℓ} (entry_size : ℕ) (overloaded : ℕ → ℕ → Bool) {K V : Type ℓ} ⦃key_ops : Key K⦄ where
  -- `allocate` and `memset`, which writes past a block that is too small.
  unfoldable pub new_entries : ℕ → Run (List (Entry K V))
  new_entries count =
      if leb (entry_size * count) (byte_capacity ((entry_size * count) % 2 ^ 64))
      then ok (replicate count empty)
      else fault undefined

  -- The old block is read after it is given back, which no other thread may have taken yet.
  unfoldable pub rehash : HashMap K V → ℕ → Run (HashMap K V)
  rehash m count = do
    entries ← new_entries (round_up_power_of_two (max count 8))
    reinsert m.entries (record { entries = entries; size = 0; erased_count = 0 })

  unfoldable pub ensure_capacity_for_insert : HashMap K V → Run (HashMap K V)
  ensure_capacity_for_insert m =
      if bucket_count m == 0
      then rehash m 8
      else if overloaded (m.size + m.erased_count + 1) (bucket_count m)
      then rehash m ((bucket_count m * 2) % 2 ^ 64)
      else ok m

  unfoldable pub insert_value : HashMap K V → K → V → Run ((ℕ × Bool) × HashMap K V)
  insert_value m k v = do grown ← ensure_capacity_for_insert m; insert_in_place grown k v

  -- `emplace` builds the pair first.
  unfoldable pub emplace : HashMap K V → K → V → Run ((ℕ × Bool) × HashMap K V)
  emplace m k v = insert_value m k v

  unfoldable pub insert : HashMap K V → K × V → Run ((ℕ × Bool) × HashMap K V)
  insert m (k, v) = emplace m k v

  -- `try_emplace` builds the value `v` only when it inserts.
  unfoldable pub try_emplace : HashMap K V → K → V → Run ((ℕ × Bool) × HashMap K V)
  try_emplace m k v = do grown ← ensure_capacity_for_insert m; insert_in_place grown k v

  -- `operator[]`: the index of the entry, and the map; `default_value` is `mapped_type()`.
  unfoldable pub index_or_insert : HashMap K V → K → V → Run (V × HashMap K V)
  index_or_insert m k default_value = do
    ((index, _), m') ← try_emplace m k default_value
    value ← mapped_at m' index
    ok (value, m')

  -- `required` is the result of the division in `float`, plus one.
  unfoldable pub reserve : (ℕ → ℕ) → HashMap K V → ℕ → Run (HashMap K V)
  reserve required m count =
      if ltb (bucket_count m) (required count) then rehash m (required count) else ok m

  -- the loop of the copy constructor, from `begin()` to `end()`
  unfoldable pub insert_entries : List (Entry K V) → HashMap K V → Run (HashMap K V)
  insert_entries [] m = ok m
  insert_entries (empty ∷ others) m = insert_entries others m
  insert_entries (erased ∷ others) m = insert_entries others m
  insert_entries (occupied h k v ∷ others) m = do
    (_, m') ← insert m (k, v)
    insert_entries others m'

  unfoldable pub new : ℕ → Run (HashMap K V)
  new count = rehash unallocated count

  -- the copy constructor; the loop asks no hash of the entries
  unfoldable pub copy : HashMap K V → Run (HashMap K V)
  copy other = do
    m ← rehash unallocated (if bucket_count other == 0 then 8 else bucket_count other)
    insert_entries other.entries m

  -- `operator=` from another map
  unfoldable pub assign : HashMap K V → HashMap K V → Run (HashMap K V)
  assign m other = do
    m' ← rehash (clear m) (if bucket_count other == 0 then 8 else bucket_count other)
    insert_entries other.entries m'

module _ {ℓ} {K V : Type ℓ} where
  -- the move constructor: the new map, and what is left of `other`
  unfoldable pub move : HashMap K V → HashMap K V × HashMap K V
  move other = (other, record { entries = []; size = 0; erased_count = 0 })

  -- the end of both `erase`, at an index in the table
  unfoldable pub erase_at : HashMap K V → ℕ → HashMap K V
  erase_at m index = record m {
    entries = set m.entries index erased;
    size = m.size - 1;
    erased_count = m.erased_count + 1;
  }

  unfoldable pub erase : ⦃key_ops : Key K⦄ → HashMap K V → K → Run (ℕ × HashMap K V)
  erase m key = do
    index ← find_existing_index m key
    if index == bucket_count m then ok (0, m) else ok (1, erase_at m index)

  -- `skip_to_occupied`, with the entries from the index on
  unfoldable pub skip_to_occupied : List (Entry K V) → ℕ → ℕ
  skip_to_occupied [] index = index
  skip_to_occupied (empty ∷ others) index = skip_to_occupied others (index + 1)
  skip_to_occupied (erased ∷ others) index = skip_to_occupied others (index + 1)
  skip_to_occupied (occupied h k v ∷ others) index = index

  unfoldable pub begin : HashMap K V → ℕ
  begin m = skip_to_occupied m.entries 0

  unfoldable pub advance : HashMap K V → ℕ → ℕ
  advance m index = skip_to_occupied (drop (index + 1) m.entries) (index + 1)

  -- `erase(iterator)`: the next position and the map
  unfoldable pub erase_position : HashMap K V → ℕ → ℕ × HashMap K V
  erase_position m pos =
      if pos == bucket_count m
      then (bucket_count m, m)
      else (advance (erase_at m pos) pos, erase_at m pos)
