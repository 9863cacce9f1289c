-- ===== src/HashMap/Place.antt =====
-- The insertion of PooledHashMap into a table with room, and the one that `rehash` does.
use bhcpp_hptool_kit.Base.{
  ℕ, ◌+◌, ◌-◌, ◌≤◌, ◌<◌, ◌≡◌, ◌⊎◌, inl, inr, refl, arith, some, Bool, true, false, length-set,
  get_elem?-set_self, ltb,
}
use bhcpp_hptool_kit.Base.Run.{◌>>=◌, ok, Returns, Returns-bind}
use bhcpp_hptool_kit.HashMap.KeyOps.{Key}
use bhcpp_hptool_kit.HashMap.{
  Entry, empty, erased, occupied, HashMap, bucket_count, place_value, insert_in_place, slot_entry,
  insert_rehashed_value,
}
use bhcpp_hptool_kit.HashMap.Table.{At, At-lt, Match, Absent, Reach}
use bhcpp_hptool_kit.HashMap.Probe.{read_entry-At}
use bhcpp_hptool_kit.HashMap.Slot.{Vacant, find_slot_for_insert_lem}
use bhcpp_hptool_kit.HashMap.Count.{Counted, live, gone, weigh-set}
use bhcpp_hptool_kit.HashMap.Insert.{Extends, Holds-set, room-slot, filled, filled-Counted}

module _ {ℓ} {K V : Type ℓ} ⦃key_ops : Key K⦄ where
  -- A map after the insertion of a key that it did not hold.
  pub record Inserted (m r : HashMap K V) (k : K) (v : V) : Type ℓ where
    pub counted : Counted r
    pub extends : Extends r.entries m.entries k v
    pub same_length : bucket_count r ≡ bucket_count m
    pub one_more : r.size ≡ m.size + 1
    pub no_new_erasure : r.erased_count ≤ m.erased_count

  erased_some : (m : HashMap K V) (j : ℕ) → Counted m → At m.entries j erased → 0 < m.erased_count
  erased_some m j counted at =
      omega (arith, counted.erasures, weigh-set gone m.entries j erased empty at)

  filled-Inserted :
      (m : HashMap K V) (j : ℕ) (k : K) (v : V) (x : Entry K V) (count : ℕ)
      → Counted m
      → At m.entries j x
      → live x ≡ 0
      → count + gone x ≡ m.erased_count
      → Vacant m.entries k j
      → Reach m.entries (key_ops.hasher k) j
      → Absent m.entries k
      → Inserted m (filled m j k v count) k v
  filled-Inserted m j k v x count counted at dead less vacant reach absent = record {
    counted = filled-Counted m j k v x count counted at dead less reach absent;
    extends = Holds-set m.entries j (key_ops.hasher k) k v (At-lt m.entries j at) vacant;
    same_length = length-set m.entries j (occupied (key_ops.hasher k) k v);
    one_more = refl;
    no_new_erasure = omega arith;
  }

  -- The result of `insert_value` in a table with room.
  abbrev pub Insertion : HashMap K V → K → V → (ℕ × Bool) × HashMap K V → Type ℓ
  Insertion m k v r =
      ((r.0.1 ≡ false) × (r.1 ≡ m) × Match m.entries k r.0.0)
      ⊎ ((r.0.1 ≡ true)
          × Absent m.entries k
          × Inserted m r.1 k v
          × At r.1.entries r.0.0 (occupied (key_ops.hasher k) k v))

  place_value_lem :
      (m : HashMap K V) (k : K) (v : V) (j : ℕ)
      → Counted m
      → Match m.entries k j
        ⊎ (Vacant m.entries k j × Reach m.entries (key_ops.hasher k) j × Absent m.entries k)
      → Returns
          (slot_entry m.entries (some j) >>= λ r. ok (place_value m r.0 r.1 k v))
          (Insertion m k v)
  unfolding slot_entry place_value
  place_value_lem m k v j counted (inl (h, a, w, at, same)) = (
    ((j, false), m),
    rw (read_entry-At m.entries j (occupied h a w) at),
    inl (refl, refl, (h, a, w, at, same)),
  )
  place_value_lem m k v j counted (inr (inl hole, reach, absent)) = (
    ((j, true), filled m j k v m.erased_count),
    rw (read_entry-At m.entries j empty hole),
    inr (
      refl,
      absent,
      filled-Inserted m j k v empty m.erased_count counted hole refl (omega arith) (inl hole) reach
          absent,
      get_elem?-set_self m.entries j _ (At-lt m.entries j hole),
    ),
  )
  place_value_lem m k v j counted (inr (inr mark, reach, absent)) =
      let some_erased = erased_some m j counted mark in
      let test : ltb 0 m.erased_count ≡ true = ground arith in
      (
        ((j, true), filled m j k v (m.erased_count - 1)),
        rw (read_entry-At m.entries j erased mark, test),
        inr (
          refl,
          absent,
          filled-Inserted m j k v erased (m.erased_count - 1) counted mark refl (omega arith)
              (inr mark) reach absent,
          get_elem?-set_self m.entries j _ (At-lt m.entries j mark),
        ),
      )

  pub insert_in_place_lem :
      (m : HashMap K V) (k : K) (v : V)
      → Counted m
      → m.size + m.erased_count < bucket_count m
      → Returns (insert_in_place m k v) (Insertion m k v)
  unfolding insert_in_place
  insert_in_place_lem m k v counted room =
      Returns-bind (find_slot_for_insert_lem m.entries counted.valid k) λ slot found.
        let (j, e, place) = room-slot m k slot counted room found in
        rw e (place_value_lem m k v j counted place)

  -- What `rehash` inserts: the hash is the stored one, and the table has no erased entry.
  pub insert_rehashed_value_lem :
      (m : HashMap K V) (h : ℕ) (k : K) (v : V)
      → Counted m
      → h ≡ key_ops.hasher k
      → m.erased_count ≡ 0
      → m.size < bucket_count m
      → Absent m.entries k
      → Returns (insert_rehashed_value m h k v) λ r. Inserted m r k v
  unfolding insert_rehashed_value slot_entry
  insert_rehashed_value_lem m h k v counted hashes clean room absent = rw hashes (
      Returns-bind (find_slot_for_insert_lem m.entries counted.valid k) λ slot found.
        let (j, e, place) = room-slot m k slot counted (omega arith) found in
        elim place [
          | inl match ↦ absurd (absent j match)
          | inr (inr mark, _, _) ↦ absurd (omega (arith, erased_some m j counted mark))
          | inr (inl hole, reach, _) ↦ (
            filled m j k v m.erased_count,
            rw (e, read_entry-At m.entries j empty hole),
            filled-Inserted m j k v empty m.erased_count counted hole refl (omega arith) (inl hole)
                reach absent,
          )
        ])
