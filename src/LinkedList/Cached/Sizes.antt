-- ===== src/LinkedList/Cached/Sizes.antt =====
-- What `PooledHashList` does at the ends of the range of indices.
use bhcpp_hptool_kit.Base.{
  ℕ, ◌+◌, ◌^◌, ◌%◌, ◌≤◌, ◌<◌, ◌≡◌, arith, true, false, List, [], ◌∷◌, ◌++◌, none, some, ltb, leb,
  ◌==◌, length,
}
use bhcpp_hptool_kit.Base.Run.{fault, undefined, Returns}
use bhcpp_hptool_kit.LinkedList.{Heap, read_node}
use bhcpp_hptool_kit.LinkedList.Chain.{Chain, Repr}
use bhcpp_hptool_kit.LinkedList.Edit.{append_node_lem}
use bhcpp_hptool_kit.LinkedList.Cached.{
  HashList, push_back, insert_value, insert, count_up, cache_pushed, erase, erase_inside, node_at,
}

module _ {ℓ} {A : Type ℓ} where
  -- `insert` at the end of a list that is not empty adds one node, at an address that had none, and
  -- counts it twice.
  pub insert-counts_twice :
      (heap : Heap A) (l : HashList) (x : ℕ × A) (xs : List (ℕ × A)) (a : ℕ) (v : A)
      → Repr heap l.list (x ∷ xs)
      → heap a ≡ none
      → Returns (insert heap l (length (x ∷ xs)) a v) λ r.
        Chain r.0 none ((x ∷ xs) ++ (a, v) ∷ []) none
        × (r.1.list.size ≡ length ((x ∷ xs) ++ (a, v) ∷ []) + 1)
  unfolding insert insert_value push_back count_up
  insert-counts_twice heap l x xs a v rep unused =
      let (r, run, post) = append_node_lem heap l.list (x ∷ xs) a v rep unused in
      let within : ltb l.list.size (length (x ∷ xs)) ≡ false = ground (arith, rep.2) in
      let not_front : (length (x ∷ xs) == 0) ≡ false = ground arith in
      let at_end : (length (x ∷ xs) == l.list.size) ≡ true = ground (arith, rep.2) in
      (
        (
          r.0,
          record l {
            list = record (r.1) { size = r.1.size + 1 };
            index_cache = cache_pushed l.index_cache l.cache_max_size l.list.size (some a);
          },
        ),
        rw (within, not_front, at_end, run),
        (post.4, omega (arith, post.2)),
      )

  -- `erase` of an index at or behind the size, other than 0, reads through a null pointer.
  pub erase-past :
      (heap : Heap A) (l : HashList) (index : ℕ)
      → 0 < index
      → l.list.size ≤ index
      → index + 1 < 2 ^ 64
      → erase heap l index ≡ fault undefined
  unfolding erase erase_inside node_at read_node
  erase-past heap l index pos past small =
      let not_front : (index == 0) ≡ false = ground arith in
      let not_back : ((index + 1) % 2 ^ 64 == l.list.size) ≡ false = ground arith in
      let outside : leb l.list.size index ≡ true = ground arith in rw (not_front, not_back, outside)
