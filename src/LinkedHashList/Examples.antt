-- ===== src/LinkedHashList/Examples.antt =====
-- PooledLinkedHashList.hpp on a list of two keys, 1 and 2, whose values are 50 and 60.
use bhcpp_hptool_kit.Base.{
  ℕ, zero, suc, ◌+◌, ◌*◌, ◌≤◌, ◌<◌, ◌≡◌, ◌⊎◌, inl, inr, refl, sym, ◌∙◌, ap, arith, Bool, true,
  false, [], ◌∷◌, Option, some, none, if◌then◌else◌, ltb, ◌==◌, Bool-cases,
}
use bhcpp_hptool_kit.Base.Distinct.{here, there}
use bhcpp_hptool_kit.Base.Run.{Run, ok, fault, undefined, ◌>>=◌}
use bhcpp_hptool_kit.MathBits.{is_power_of_two, round_up_power_of_two}
use bhcpp_hptool_kit.BlockPool.Sizes.{byte_capacity, choose_bucket_size, normalize_min_block_size}
use bhcpp_hptool_kit.HashMap.KeyOps.{Key}
use bhcpp_hptool_kit.HashMap.{
  Entry, HashMap, empty, occupied, unallocated, read_entry, matches, find_probe,
  find_existing_index, mapped_at, slot_probe, find_slot_for_insert, slot_entry, reinsert,
  place_value, insert_in_place, new_entries, rehash, ensure_capacity_for_insert, try_emplace, new,
}
use bhcpp_hptool_kit.HashMap
use bhcpp_hptool_kit.HashMap.Table.{At}
use bhcpp_hptool_kit.HashMap.Insert.{Holds}
use bhcpp_hptool_kit.HashMap.Refine
use bhcpp_hptool_kit.LinkedList.{
  Link, Node, Heap, Handle, read_node, write_node, push_back, push_front, node_at, erase_node,
  new_handle,
}
use bhcpp_hptool_kit.LinkedList
use bhcpp_hptool_kit.LinkedList.Chain.{Chain, Repr}
use bhcpp_hptool_kit.LinkedList.Erase.{erase_node_lem}
use bhcpp_hptool_kit.LinkedHashList.{
  LinkedHashList, rehash_due, relocate_node, insert_or_assign, at,
}
use bhcpp_hptool_kit.LinkedHashList
use bhcpp_hptool_kit.LinkedHashList.Relocate.{Touched, relocate_node-front}

instance number_keys : Key ℕ
number_keys = record {
  hasher = λ k. k;
  equal = λ a b. a == b;
  equal_self = λ k. ground arith;
  equal_turn = λ a b e. ground arith;
  equal_join = λ a b c e e'. ground arith;
  hasher_respects = λ a b e. ground arith;
}

-- more than three quarters used
abbrev three_quarters : ℕ → ℕ → Bool
three_quarters used buckets = ltb (3 * buckets) (4 * used)

moderate : (used buckets : ℕ) → three_quarters used buckets ≡ false → used ≤ buckets
moderate used buckets e = ground arith

abbrev two_nodes : Heap (ℕ × ℕ)
two_nodes = λ a.
    if a == 10
    then some (record { value = (1, 50); prev = none; next = some 11 })
    else if a == 11
    then some (record { value = (2, 60); prev = some 10; next = none })
    else none

abbrev two_keys : LinkedHashList ℕ
two_keys = record {
  index = record {
    entries =
        empty
        ∷ occupied 1 1 (some 10)
        ∷ occupied 2 2 (some 11)
        ∷ empty
        ∷ empty
        ∷ empty
        ∷ empty
        ∷ empty
        ∷ [];
    size = 2;
    erased_count = 0;
  };
  list = record { head = some 10; tail = some 11; size = 2 };
}

abbrev nodes_of_two : ℕ → Option Link
nodes_of_two k = if k == 1 then some (some 10) else if k == 2 then some (some 11) else none

-- What an index of the table holds.
Two : ℕ → ℕ → ℕ → Link → Type 0
Two i h k v =
    ((i ≡ 1) × (h ≡ 1) × (k ≡ 1) × (v ≡ some 10)) ⊎ ((i ≡ 2) × (h ≡ 2) × (k ≡ 2) × (v ≡ some 11))

Two-At : (i h k : ℕ) (v : Link) → At (two_keys.index.entries) i (occupied h k v) → Two i h k v
unfolding Two
Two-At zero h k v at = cc at
Two-At (suc zero) h k v at = inl (refl, cc at, cc at, cc at)
Two-At (suc (suc zero)) h k v at = inr (refl, cc at, cc at, cc at)
Two-At (suc (suc (suc zero))) h k v at = cc at
Two-At (suc (suc (suc (suc zero)))) h k v at = cc at
Two-At (suc (suc (suc (suc (suc zero))))) h k v at = cc at
Two-At (suc (suc (suc (suc (suc (suc zero)))))) h k v at = cc at
Two-At (suc (suc (suc (suc (suc (suc (suc zero))))))) h k v at = cc at
Two-At (suc (suc (suc (suc (suc (suc (suc (suc i)))))))) h k v at = cc at

Two-places : (i h k : ℕ) (v : Link) → Two i h k v → (h ≡ k) × (i ≡ k) × (i < 8)
unfolding Two
Two-places i h k v (inl (ei, eh, ek, _)) = (omega arith, omega arith, omega arith)
Two-places i h k v (inr (ei, eh, ek, _)) = (omega arith, omega arith, omega arith)

Two-value : (i h k : ℕ) (v : Link) → Two i h k v → nodes_of_two k ≡ some v
unfolding Two
Two-value i h k v (inl (_, _, e, e')) = rw (e, e') refl
Two-value i h k v (inr (_, _, e, e')) = rw (e, e') refl

two_index-Repr : Refine.Repr (two_keys.index) nodes_of_two
unfolding number_keys
two_index-Repr = record {
  counted = record {
    valid = record {
      sound = record {
        hashed = λ i h k v at. (Two-places i h k v (Two-At i h k v at)).0;
        unique = λ i j h g a b v w at at' same.
            let (_, left, _) = Two-places i h a v (Two-At i h a v at) in
            let (_, right, _) = Two-places j g b w (Two-At j g b w at') in ground arith;
      };
      bits = 3;
      sized = refl;
      bounded = omega arith;
      reached = λ i h k v at.
          let (hash, place, lt) = Two-places i h k v (Two-At i h k v at) in
          (0, omega arith, omega arith, λ d p. absurd (omega arith));
    };
    sized = refl;
    erasures = refl;
  };
  agrees = λ q w. (
    held q w,
    λ (i, h, a, at, same).
        let eq : a ≡ q = ground arith in
        ap nodes_of_two (sym eq) ∙ Two-value i h a w (Two-At i h a w at),
  );
}
  where
    held : (q : ℕ) (w : Link) → nodes_of_two q ≡ some w → Holds (two_keys.index.entries) q w
    held q w known = elim (Bool-cases (q == 1)) [
      | inl one ↦
          let value : some (some 10) ≡ some w = sym (rw one refl) ∙ known in
          (1, 1, 1, ap (λ v. some (occupied 1 1 v)) (cc value), ground arith)
      | inr other ↦ elim (Bool-cases (q == 2)) [
        | inl two ↦
            let value : some (some 11) ≡ some w = sym (rw (other, two) refl) ∙ known in
            (2, 2, 2, ap (λ v. some (occupied 2 2 v)) (cc value), ground arith)
        | inr none_of ↦
            let missing : nodes_of_two q ≡ none = rw (other, none_of) refl in cc (known, missing)
      ]
    ]

two_keys-Repr : Repr two_nodes (two_keys.list) ((10, (1, 50)) ∷ (11, (2, 60)) ∷ [])
unfolding Chain
two_keys-Repr = (
  refl,
  refl,
  refl,
  (λ i. elim i [ here e ↦ absurd (omega arith) | there j ↦ elim j [ ] ], (λ i. elim i [ ], tt)),
  (refl, (refl, tt)),
)

-- The pool gives the address of the old node to the new one.
freed :
    (r : Heap (ℕ × ℕ) × Handle)
    → erase_node two_nodes (two_keys.list) (some 11) ≡ ok r
    → r.0 11 ≡ none
freed r e =
    let (r', run, (_, gone)) =
      erase_node_lem two_nodes (two_keys.list) ((10, (1, 50)) ∷ []) (11, (2, 60)) []
        two_keys-Repr in
    let both : ok r ≡ ok r' = sym e ∙ run in let eq : r ≡ r' = cc both in ap (λ x. x.0 11) eq ∙ gone

relocate_node-front_example :
    Touched 24 three_quarters two_nodes two_keys nodes_of_two 11 2
      ((11, (2, 60)) ∷ (10, (1, 50)) ∷ [])
relocate_node-front_example =
    relocate_node-front 24 three_quarters two_nodes two_keys nodes_of_two 11 2 (10, (1, 50)) []
      (11, (2, 60)) [] moderate two_keys-Repr two_index-Repr refl freed

abbrev empty_list : Run (LinkedHashList ℕ)
empty_list = do
  index ← new 24 three_quarters {K = ℕ} {V = Link} 8
  ok (record { index = index; list = new_handle })

-- The keys `first` up to `first + count - 1`, each at the node with its own number.
filled : ℕ → ℕ → Run (Heap (ℕ × ℕ) × LinkedHashList ℕ)
filled first zero = do l ← empty_list; ok ((λ a. none), l)
filled first (suc count) = do
  (heap, l) ← filled first count
  (_, heap', l') ←
      insert_or_assign 24 three_quarters heap l (first + count) (first + count) 70 false
  ok (heap', l')

program : Unit {0}
unfolding is_power_of_two round_up_power_of_two byte_capacity choose_bucket_size
    normalize_min_block_size HashMap.unallocated HashMap.read_entry HashMap.matches
    HashMap.find_probe HashMap.find_existing_index HashMap.find HashMap.mapped_at HashMap.slot_probe
    HashMap.find_slot_for_insert HashMap.slot_entry HashMap.reinsert HashMap.place_value
    HashMap.insert_in_place HashMap.new_entries HashMap.rehash HashMap.ensure_capacity_for_insert
    HashMap.try_emplace HashMap.new LinkedHashList.same_link LinkedHashList.push_value
    LinkedHashList.read_found LinkedHashList.find_entry LinkedHashList.rehash_due
    LinkedHashList.write_mapped LinkedHashList.index_node LinkedHashList.reindex_node
    LinkedHashList.append_new_node LinkedHashList.relocate_value
    LinkedHashList.relocate_existing_node LinkedHashList.relocate_found LinkedHashList.relocate_node
    LinkedHashList.set_value LinkedHashList.insert_or_assign_found LinkedHashList.insert_or_assign
    LinkedHashList.value_of LinkedHashList.at filled LinkedList.read_node LinkedList.push_back
    LinkedList.push_front LinkedList.node_at LinkedList.erase_node LinkedList.append_node
    LinkedList.walk LinkedList.walk_prev LinkedList.create native.Mathlib.Decide.ℕ_discrete
    LinkedList.set_next LinkedList.set_prev LinkedList.walk_next LinkedList.link_next
    LinkedList.link_prev LinkedList.prepend_node LinkedList.unless_null LinkedList.recycle
program = tt

-- With five keys in eight buckets `touch` keeps the key; with six it rehashes.
five_touched :
    (do
      (heap, l) ← filled 1 5
      (_, heap', l') ← relocate_node 24 three_quarters heap l 9 3 true
      at heap' l' 3)
    ≡ ok 70
unfolding program number_keys
five_touched = refl

six_dangles :
    (do (heap, l) ← filled 1 6; relocate_node 24 three_quarters heap l 9 3 true) ≡ fault undefined
unfolding program number_keys
six_dangles = refl
