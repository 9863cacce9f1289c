-- ===== src/LinkedHashList/Relocate.antt =====
-- PooledLinkedHashList.hpp: `touch`, which is `move_to_front`, for a least recently used cache.
use bhcpp_hptool_kit.Base.{
  ℕ, ◌≤◌, ◌≡◌, ◌≢◌, ◌⊎◌, inl, inr, refl, arith, Bool, true, false, List, ◌∷◌, ◌++◌, Option, none,
  some, ◌==◌, Bool-cases,
}
use bhcpp_hptool_kit.Base.Distinct.{here}
use bhcpp_hptool_kit.Base.Run.{ok, fault, undefined, Returns}
use bhcpp_hptool_kit.LinkedList.{Link, Heap, Handle, erase_node}
use bhcpp_hptool_kit.LinkedList.Chain.{Repr}
use bhcpp_hptool_kit.LinkedList.Links.{append-Apart}
use bhcpp_hptool_kit.LinkedList.Walk.{node_at_lem}
use bhcpp_hptool_kit.LinkedList.Edit.{push_front_lem}
use bhcpp_hptool_kit.LinkedList.Insert.{node_between}
use bhcpp_hptool_kit.LinkedList.Erase.{erase_node_lem}
use bhcpp_hptool_kit.HashMap.KeyOps.{Key}
use bhcpp_hptool_kit.HashMap.Replace.{put}
use bhcpp_hptool_kit.HashMap.Refine
use bhcpp_hptool_kit.LinkedHashList.{
  LinkedHashList, same_link, push_value, rehash_due, reindex_node, relocate_value,
  relocate_existing_node, relocate_found, relocate_node,
}
use bhcpp_hptool_kit.LinkedHashList.Index.{find_entry_lem, reindex_node_lem, reindex-due}

module _ {κ} (entry_size : ℕ) (overloaded : ℕ → ℕ → Bool) {K : Type 0} ⦃key_ops : Key K⦄
    {T : Type κ} where
  -- What `touch` does to a key whose node is behind others.
  abbrev pub Touched :
      Heap (K × T) → LinkedHashList K → (K → Option Link) → ℕ → K → List (ℕ × (K × T)) → Type κ
  Touched heap l f a key nodes =
      let run = relocate_node entry_size overloaded heap l a key true in
      ((rehash_due entry_size overloaded l.index ≡ true) × (run ≡ fault undefined))
      ⊎ ((rehash_due entry_size overloaded l.index ≡ false)
          × Returns run λ r.
            (r.0 ≡ true) × Repr r.1 r.2.list nodes × Refine.Repr r.2.index (put f key (some a)))

  -- `touch` of a key that the index has and whose node is not in front, when the test of the load
  -- factor lets in no more entries than there are buckets, and the address of the new node is unused
  -- once the old one is erased. If the next insertion into the index rehashes it, the behaviour is
  -- undefined, because the key is passed as a reference into the index; otherwise `touch` returns
  -- true, the key and its value are in front, the others keep their order, and the index is that of
  -- before but for the key, which has the new node.
  pub relocate_node-front :
      (heap : Heap (K × T)) (l : LinkedHashList K) (f : K → Option Link) (a : ℕ) (key : K)
      (y : ℕ × (K × T)) (ys : List (ℕ × (K × T))) (z : ℕ × (K × T)) (zs : List (ℕ × (K × T)))
      → ((used buckets : ℕ) → overloaded used buckets ≡ false → used ≤ buckets)
      → Repr heap l.list ((y ∷ ys) ++ z ∷ zs)
      → Refine.Repr l.index f
      → f key ≡ some (some z.0)
      → ((r : Heap (K × T) × Handle) → erase_node heap l.list (some z.0) ≡ ok r → r.0 a ≡ none)
      → Touched heap l f a key ((a, z.1) ∷ (y ∷ ys) ++ zs)
  unfolding relocate_node relocate_found relocate_existing_node relocate_value push_value same_link
  relocate_node-front heap l f a key y ys z zs moderate rep index_rep known unused =
      let (_, _, apart) = append-Apart (y ∷ ys) (z ∷ zs) rep.3 in
      let differs : y.0 ≢ z.0 = λ e. apart y.0 (here refl) (here e) in
      let not_there : (z.0 == y.0) ≡ false = ground arith in
      let (_, read) = node_between heap l.list (y ∷ ys) z zs rep in
      let place = node_at_lem heap l.list ((y ∷ ys) ++ z ∷ zs) 0 rep in
      let (e, erased, (erep, _)) = erase_node_lem heap l.list (y ∷ ys) z zs rep in
      let (r, pushed, prep) =
        push_front_lem e.0 e.1 ((y ∷ ys) ++ zs) a z.1 erep (unused e erased) in
      let new_place = node_at_lem r.0 r.1 ((a, z.1) ∷ (y ∷ ys) ++ zs) 0 prep in
      let (_, found, (k, it, at, same)) = find_entry_lem l.index f key (some z.0) index_rep known in
      elim (Bool-cases (rehash_due entry_size overloaded l.index)) [
        | inl due ↦
            let dangling : reindex_node entry_size overloaded l.index k (some a) ≡ fault undefined =
              reindex-due entry_size overloaded l.index k (some a) due in
            inl (
              due,
              rw (found, at, place, not_there, read, erased, pushed, new_place, dangling) refl,
            )
        | inr calm ↦
            let (index, indexed, post) =
              reindex_node_lem entry_size overloaded l.index f k key (some z.0) (some a) moderate
                index_rep known same calm in
            inr (
              calm,
              (
                (true, r.0, record { index = index; list = r.1 }),
                rw (found, at, place, not_there, read, erased, pushed, new_place, indexed) refl,
                (refl, prep, post),
              ),
            )
      ]
