-- ===== src/LinkedList/Erase.antt =====
-- PooledList.hpp: `erase`, `pop_front`, `pop_back` and `clear`.
use mathlib.Core.List.{append-nil}
use bhcpp_hptool_kit.Base.{
  ℕ, zero, suc, ◌+◌, ◌-◌, ◌<◌, ◌≡◌, ◌≢◌, refl, sym, ◌∙◌, ap, arith, List, [], ◌∷◌, ◌++◌, none, some,
  length, length-append, inl, inr, false, ◌==◌,
}
use bhcpp_hptool_kit.Base.Distinct.{In, here, there, Distinct}
use bhcpp_hptool_kit.Base.Run.{Returns}
use bhcpp_hptool_kit.LinkedList.{
  unless_null, Link, Heap, Handle, write_node, recycle, recycle_all, new_handle, erase_node, erase,
  clear,
}
use bhcpp_hptool_kit.LinkedList.Chain.{
  addresses, first, last, Chain, Chain-frame, Chain-split, Repr,
}
use bhcpp_hptool_kit.LinkedList.Links.{
  write_node_self, write_node_ne, read_node-ok, Keeps, Apart, In-append, Apart-append, append-Apart,
  link_lem,
}
use bhcpp_hptool_kit.LinkedList.Edit.{last-append}
use bhcpp_hptool_kit.LinkedList.Insert.{node_between}

not_zero : (n : ℕ) → 0 < n → (n == 0) ≡ false
not_zero n h = ground arith

module _ {ℓ} {A : Type ℓ} where
  head_after :
      (ys zs : List (ℕ × A)) (z : ℕ × A)
      → unless_null (last none ys) (first zs none) (first (ys ++ z ∷ zs) none)
        ≡ first (ys ++ zs) none
  unfolding unless_null
  head_after [] zs z = refl
  head_after (y ∷ ys) zs z = some_last y.0 ys
    where
      some_last :
          (b : ℕ) (ys : List (ℕ × A))
          → unless_null (last (some b) ys) (first zs none) (some y.0) ≡ some y.0
      some_last b [] = refl
      some_last b (y' ∷ ys) = some_last y'.0 ys

  tail_after :
      (ys zs : List (ℕ × A)) (z : ℕ × A)
      → unless_null (first zs none) (last none ys) (last none (ys ++ z ∷ zs)) ≡ last none (ys ++ zs)
  unfolding unless_null
  tail_after ys [] z = ap (last none) (sym (append-nil ys))
  tail_after ys (x ∷ zs) z = last-append none ys (z ∷ x ∷ zs) ∙ sym (last-append none ys (x ∷ zs))

  -- `erase` of a node takes it out of the list, links its neighbours and gives it back to the pool,
  -- once.
  pub erase_node_lem :
      (heap : Heap A) (l : Handle) (ys : List (ℕ × A)) (z : ℕ × A) (zs : List (ℕ × A))
      → Repr heap l (ys ++ z ∷ zs)
      → Returns (erase_node heap l (some z.0)) λ r. Repr r.0 r.1 (ys ++ zs) × (r.0 z.0 ≡ none)
  unfolding erase_node recycle Chain
  erase_node_lem heap l ys z zs (head, tail, size, d, c) =
      let (cy, (n, cz)) = Chain-split heap none ys (z ∷ zs) none c in
      let (dy, (fresh, dz), apart) = append-Apart ys (z ∷ zs) d in
      let both : Apart ys zs = (dy, dz, λ a i j. apart a i (there j)) in
      let (h1, h2, run1, run2, chain, keeps) =
        link_lem heap ys zs (some z.0) (some z.0) both cy cz in
      let heap' = write_node h2 z.0 none in
      let out : ¬ In z.0 (addresses (ys ++ zs)) =
        λ i. elim (In-append z.0 ys zs i) [ inl j ↦ apart z.0 j (here refl) | inr j ↦ fresh j ] in
      let len = length-append ys (z ∷ zs) in
      let more : (l.size == 0) ≡ false = not_zero l.size (omega (arith, len)) in
      let l' : Handle = record {
        head = unless_null (last none ys) (first zs none) l.head;
        tail = unless_null (first zs none) (last none ys) l.tail;
        size = l.size - 1;
      } in
      (
        (heap', l'),
        rw (read_node-ok heap z.0 _ n, run1, run2, read_node-ok h2 z.0 _ (keeps z.0 out ∙ n), more),
        (
          (
            ap (unless_null (last none ys) (first zs none)) head ∙ head_after ys zs z,
            ap (unless_null (first zs none) (last none ys)) tail ∙ tail_after ys zs z,
            omega (arith, len, length-append ys zs),
            Apart-append ys zs both,
            Chain-frame h2 heap' none (ys ++ zs) none
                (λ a i. write_node_ne h2 z.0 none a (λ same. out (rw same i))) chain,
          ),
          write_node_self h2 z.0 none,
        ),
      )

  -- `erase` by an index below the size takes out the node with that index.
  pub erase-between :
      (heap : Heap A) (l : Handle) (ys : List (ℕ × A)) (z : ℕ × A) (zs : List (ℕ × A))
      → Repr heap l (ys ++ z ∷ zs)
      → Returns (erase heap l (length ys)) λ r. Repr r.0 r.1 (ys ++ zs) × (r.0 z.0 ≡ none)
  unfolding erase
  erase-between heap l ys z zs rep =
      let (r, run, p) = erase_node_lem heap l ys z zs rep in
      (r, rw ((node_between heap l ys z zs rep).0) run, p)

  recycle_all_lem :
      (fuel : ℕ) (heap : Heap A) (before : Link) (xs : List (ℕ × A))
      → Chain heap before xs none
      → Distinct (addresses xs)
      → length xs < fuel
      → Returns
          (recycle_all fuel heap (first xs none))
          λ heap'. ((a : ℕ) → In a (addresses xs) → heap' a ≡ none) × Keeps heap heap' xs
  unfolding recycle_all recycle Chain
  recycle_all_lem fuel heap before [] c d h = (heap, refl, (λ a i. elim i [ ], λ b out. refl))
  recycle_all_lem zero heap before (x ∷ xs) c d h = absurd (omega arith)
  recycle_all_lem (suc fuel) heap before (x ∷ xs) (n, c) (fresh, d) h =
      let less = write_node heap x.0 none in
      let others : (b : ℕ) → x.0 ≢ b → less b ≡ heap b = λ b p. write_node_ne heap x.0 none b p in
      let c' =
        Chain-frame heap less (some x.0) xs none (λ a i. others a (λ same. fresh (rw same i))) c in
      let (r, run, (gone, keeps)) = recycle_all_lem fuel less (some x.0) xs c' d (omega arith) in
      (
        r,
        rw (read_node-ok heap x.0 _ n) run,
        (
          λ a i. elim i [
            | here e ↦ rw e (keeps x.0 fresh ∙ write_node_self heap x.0 none)
            | there j ↦ gone a j
          ],
          λ b out. keeps b (λ i. out (there i)) ∙ others b (λ same. out (here (sym same))),
        ),
      )

  -- `clear` ends, gives every node of the list back to the pool and nothing else, and leaves an empty list.
  pub clear-recycles :
      (heap : Heap A) (l : Handle) (xs : List (ℕ × A))
      → Repr heap l xs
      → Returns (clear heap l) λ r.
        (r.1 ≡ new_handle) × ((a : ℕ) → In a (addresses xs) → r.0 a ≡ none) × Keeps heap r.0 xs
  unfolding clear
  clear-recycles heap l xs (head, tail, size, d, c) =
      let (h, run, p) = recycle_all_lem (l.size + 1) heap none xs c d (omega arith) in
      ((h, new_handle), rw (ap (recycle_all (l.size + 1) heap) head ∙ run), (refl, p.0, p.1))
