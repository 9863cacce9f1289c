-- ===== src/LinkedHashList/Index.antt =====
-- PooledLinkedHashList.hpp: what `_index.find(key)` and `_index[key] = node` do to the finite map.
use bhcpp_hptool_kit.Base.{
  ℕ, ◌+◌, ◌≤◌, ◌≡◌, inl, inr, refl, ◌∙◌, ap, arith, Bool, true, false, ◌||◌, Option, some, none,
  ◌==◌, set,
}
use bhcpp_hptool_kit.Base.Run.{ok, fault, undefined, Returns}
use bhcpp_hptool_kit.HashMap.KeyOps.{Key}
use bhcpp_hptool_kit.HashMap.{
  HashMap, occupied, bucket_count, try_emplace, ensure_capacity_for_insert, find, insert_in_place,
}
use bhcpp_hptool_kit.HashMap.Table.{At}
use bhcpp_hptool_kit.HashMap.Probe.{read_entry-At, size_pos}
use bhcpp_hptool_kit.HashMap.Place.{insert_in_place_lem}
use bhcpp_hptool_kit.HashMap.Refine.{Repr, Absent-none, find_existing_index_lem}
use bhcpp_hptool_kit.HashMap.Replace.{put, replace_value_lem}
use bhcpp_hptool_kit.LinkedList.{Link}
use bhcpp_hptool_kit.LinkedHashList.{
  find_entry, read_found, rehash_due, write_mapped, index_node, reindex_node,
}

or_false : (a b : Bool) → (a || b) ≡ false → (a ≡ false) × (b ≡ false)
or_false false b e = (refl, e)
or_false true b e = cc e

module _ {K : Type 0} ⦃key_ops : Key K⦄ where
  -- `find` of a key that is there gives its node, and a key equal to it.
  pub find_entry_lem :
      (index : HashMap K Link) (f : K → Option Link) (key : K) (target : Link)
      → Repr index f
      → f key ≡ some target
      → Returns (find_entry index key) λ o.
        (k : K) × (it : ℕ) × (o ≡ some (record { it = it; key = k; node = target }))
        × (key_ops.equal k key ≡ true)
  unfolding find_entry read_found find
  find_entry_lem index f key target repr known =
      let (i, run, found) = find_existing_index_lem index f key repr in
      let pos = size_pos index.entries repr.counted.valid in
      let some_buckets : (bucket_count index == 0) ≡ false = ground arith in
      elim found [
        | inl (_, _, missing) ↦ cc (known, missing)
        | inr (below, (h, a, v, at, same, value)) ↦
            let test : (i == bucket_count index) ≡ false = ground arith in
            let eq : v ≡ target = cc (value, known) in
            (
              some (record { it = i; key = a; node = v }),
              rw (some_buckets, run, test, read_entry-At index.entries i (occupied h a v) at) refl,
              (a, i, rw eq refl, same),
            )
      ]

module _ (entry_size : ℕ) (overloaded : ℕ → ℕ → Bool) {K : Type 0} ⦃key_ops : Key K⦄ where
  reindex_run :
      (index : HashMap K Link) (k : K) (target : Link) (i : ℕ) (flag : Bool) (h : ℕ) (a : K)
      (v : Link)
      → rehash_due entry_size overloaded index ≡ false
      → insert_in_place index k none ≡ ok ((i, flag), index)
      → At index.entries i (occupied h a v)
      → reindex_node entry_size overloaded index k target
        ≡ ok (record index { entries = set index.entries i (occupied h a target) })
  unfolding reindex_node index_node try_emplace ensure_capacity_for_insert rehash_due write_mapped
  reindex_run index k target i flag h a v due run at =
      let n = bucket_count index in
      let used = index.size + index.erased_count + 1 in
      let (some_buckets, fine) = or_false (n == 0) (overloaded used n) due in
      rw (some_buckets, fine, run, read_entry-At index.entries i (occupied h a v) at) refl

  -- Without a rehash, `_index[k] = node` for a present key changes its node.
  pub reindex_node_lem :
      (index : HashMap K Link) (f : K → Option Link) (k key : K) (old target : Link)
      → ((used buckets : ℕ) → overloaded used buckets ≡ false → used ≤ buckets)
      → Repr index f
      → f key ≡ some old
      → key_ops.equal k key ≡ true
      → rehash_due entry_size overloaded index ≡ false
      → Returns (reindex_node entry_size overloaded index k target) λ r. Repr r (put f key target)
  unfolding rehash_due
  reindex_node_lem index f k key old target moderate repr known same due =
      let n = bucket_count index in
      let used = index.size + index.erased_count + 1 in
      let (some_buckets, fine) = or_false (n == 0) (overloaded used n) due in
      let room = moderate used n fine in
      let (r, run, outcome) = insert_in_place_lem index k none repr.counted (omega arith) in
      elim outcome [
        | inl (_, kept, (h, a, v, at, eq)) ↦ (
          record index { entries = set index.entries r.0.0 (occupied h a target) },
          reindex_run index k target r.0.0 r.0.1 h a v due (run ∙ ap (λ x. ok (r.0, x)) kept) at,
          replace_value_lem index f key r.0.0 h a target v repr at
              (key_ops.equal_join a k key eq same),
        )
        | inr (_, absent, _, _) ↦
            let there : f k ≡ some old =
              let (i, h, a, at, eq) = (repr.agrees key old).0 known in
              (repr.agrees k old).1
                (i, h, a, at, key_ops.equal_join a key k eq (key_ops.equal_turn k key same)) in
            let missing = Absent-none index f k repr absent in cc (there, missing)
      ]

  -- With a rehash the key is gone.
  pub reindex-due :
      (index : HashMap K Link) (k : K) (target : Link)
      → rehash_due entry_size overloaded index ≡ true
      → reindex_node entry_size overloaded index k target ≡ fault undefined
  unfolding reindex_node
  reindex-due index k target due = rw due refl
