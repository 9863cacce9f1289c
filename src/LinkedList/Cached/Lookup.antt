-- ===== src/LinkedList/Cached/Lookup.antt =====
-- `nodeAt` of `PooledHashList`, with and without the cache.
use bhcpp_hptool_kit.Base.{
  ℕ, zero, suc, ◌+◌, ◌-◌, ◌/◌, ◌≤◌, ◌<◌, ◌≡◌, inl, inr, refl, sym, ◌∙◌, ap, arith, false, ◌&&◌,
  ◌||◌, List, [], ◌∷◌, none, some, ltb, leb, ◌==◌, length, take, drop, get_elem?_of_lt,
  take-append-drop, length-drop, Bool-cases, Option-cases,
}
use mathlib.Core.Path.{subst}
use bhcpp_hptool_kit.Base.Run.{ok, Returns}
use bhcpp_hptool_kit.LinkedList.{Link, Heap, Handle, walk}
use bhcpp_hptool_kit.LinkedList.Chain.{first, last, Chain, Chain-split, Repr}
use bhcpp_hptool_kit.LinkedList.Walk.{
  last-take, first-drop, take_whole, walk_next_lem, walk_prev_lem,
}
use bhcpp_hptool_kit.LinkedList.Cached.{
  Cache, cached, uncache, cache_node, HashList, index_distance, Start, nearest, end_start,
  choose_start, walk_and_cache, node_cached_at, node_at,
}

module _ {ℓ} {A : Type ℓ} where
  drop_of_nil : (n : ℕ) → drop {A = ℕ × A} n [] ≡ []
  drop_of_nil zero = refl
  drop_of_nil (suc n) = refl

  drop-drop : (k s : ℕ) (xs : List (ℕ × A)) → drop k (drop s xs) ≡ drop (s + k) xs
  drop-drop k zero xs = let e : zero + k ≡ k = omega arith in rw e
  drop-drop k (suc s) [] = drop_of_nil k ∙ sym (drop_of_nil (suc s + k))
  drop-drop k (suc s) (x ∷ xs) =
      let e : suc (s + k) ≡ suc s + k = omega arith in
      drop-drop k s xs ∙ ap (λ n. drop n (x ∷ xs)) e

  -- From any node of the list, the walk of `nodeAt` comes to the node asked for.
  walk_lem :
      (heap : Heap A) (xs : List (ℕ × A)) (s i : ℕ)
      → Chain heap none xs none
      → s < length xs
      → i < length xs
      → walk heap (first (drop s xs) none) s (index_distance s i) i ≡ ok (first (drop i xs) none)
  unfolding walk index_distance
  walk_lem heap xs s i c hs hi = elim (Bool-cases (ltb s i)) [
    | inl forward ↦
        let lt : s < i = ground arith in
        let parts = take-append-drop s xs in
        let (_, rest) =
          Chain-split heap none (take s xs) (drop s xs) none
            (subst (λ w. Chain heap none w none) (sym parts) c) in
        let len = length-drop s xs in
        let e : s + (i - s) ≡ i = omega arith in
        rw (
          forward,
          walk_next_lem (i - s) heap (last none (take s xs)) (drop s xs) none rest (omega arith),
          drop-drop (i - s) s xs,
          e,
        )
    | inr back ↦
        let le : i ≤ s = ground arith in
        let (x, at_s) = get_elem?_of_lt xs s hs in
        let (y, at_i) = get_elem?_of_lt xs i hi in
        let e : i + (s - i) ≡ s = omega arith in
        let from_s : first (drop s xs) none ≡ last none (take (suc (i + (s - i))) xs) =
          first-drop none xs s x at_s
          ∙ (sym (last-take none xs s x at_s) ∙ ap (λ n. last none (take (suc n) xs)) (sym e)) in
        rw (
          back,
          from_s,
          walk_prev_lem (s - i) i heap xs c (omega arith),
          last-take none xs i y at_i,
          first-drop none xs i y at_i,
        )
  ]

module _ {ℓ} {A : Type ℓ} (xs : List (ℕ × A)) where
  -- The cache has no index but those of the list, each with its node.
  unfoldable pub Accurate : Cache → Type 0
  Accurate [] = Unit
  Accurate (entry ∷ cache) =
      (entry.0 < length xs) × (entry.1 ≡ first (drop entry.0 xs) none) × Accurate cache

  cached_lem :
      (cache : Cache) (i : ℕ) (p : Link)
      → Accurate cache
      → cached cache i ≡ some p
      → p ≡ first (drop i xs) none
  unfolding Accurate cached
  cached_lem [] i p ok_cache e = cc e
  cached_lem (entry ∷ cache) i p (_, node, rest) e = elim (Bool-cases (entry.0 == i)) [
    | inl same ↦
        let index : entry.0 ≡ i = ground arith in
        let found : some entry.1 ≡ some p =
          let step : cached (entry ∷ cache) i ≡ some entry.1 = rw same in sym step ∙ e in
        cc (found, node, ap (λ n. first (drop n xs) none) index)
    | inr other ↦
        let step : cached (entry ∷ cache) i ≡ cached cache i = rw other in
        cached_lem cache i p rest (sym step ∙ e)
  ]

  uncache-Accurate : (cache : Cache) (i : ℕ) → Accurate cache → Accurate (uncache cache i)
  unfolding Accurate uncache
  uncache-Accurate [] i a = tt
  uncache-Accurate (entry ∷ cache) i (lt, node, rest) = elim (Bool-cases (entry.0 == i)) [
    | inl same ↦ rw same (uncache-Accurate cache i rest)
    | inr other ↦ rw other (lt, node, uncache-Accurate cache i rest)
  ]

  cache_node-Accurate :
      (cache : Cache) (i : ℕ)
      → i < length xs
      → Accurate cache
      → Accurate (cache_node cache i (first (drop i xs) none))
  unfolding Accurate cache_node
  cache_node-Accurate cache i lt a = (lt, refl, uncache-Accurate cache i a)

  Good : ℕ → Start → Type 0
  Good i s =
      (s.at_index < length xs)
      × (s.node ≡ first (drop s.at_index xs) none)
      × (s.distance ≡ index_distance s.at_index i)

  nearest-Good :
      (cache : Cache) (i : ℕ) (best : Start)
      → Accurate cache
      → Good i best
      → Good i (nearest cache i best)
  unfolding Accurate Good nearest
  nearest-Good [] i best a g = g
  nearest-Good (entry ∷ cache) i best (lt, node, rest) g =
      let d = index_distance entry.0 i in
      let here : Start = record { node = entry.1; at_index = entry.0; distance = d } in
      let here_good : Good i here = (lt, node, refl) in
      elim (Bool-cases (ltb d best.distance)) [
        | inr further ↦ rw further (nearest-Good cache i best rest g)
        | inl nearer ↦ elim (Bool-cases (ltb d 64)) [
          | inl near ↦ rw (nearer, near) here_good
          | inr far ↦ rw (nearer, far) (nearest-Good cache i here rest here_good)
        ]
      ]

  end_start-Good :
      (heap : Heap A) (l : Handle) (i : ℕ) → Repr heap l xs → i < length xs → Good i (end_start l i)
  unfolding Good end_start
  end_start-Good heap l i (head, tail, size, _, _) lt = elim (Bool-cases (ltb (l.size / 2) i)) [
    | inl back ↦
        let (x, at) = get_elem?_of_lt xs (l.size - 1) (omega arith) in
        let whole : suc (l.size - 1) ≡ length xs = omega arith in
        rw back (
          omega arith,
          tail
              ∙ (ap (last none) (sym (take_whole xs))
                  ∙ (ap (λ n. last none (take n xs)) (sym whole)
                      ∙ (last-take none xs (l.size - 1) x at
                          ∙ sym (first-drop none xs (l.size - 1) x at)))),
          refl,
        )
    | inr front ↦ rw front (omega arith, head, refl)
  ]

  choose_start-Good :
      (heap : Heap A) (l : HashList) (i : ℕ)
      → Repr heap l.list xs
      → Accurate l.index_cache
      → i < length xs
      → Good i (choose_start l i)
  unfolding choose_start
  choose_start-Good heap l i rep acc lt =
      let g = end_start-Good heap l.list i rep lt in
      elim (Bool-cases (ltb 0 (length l.index_cache) && ltb 64 ((end_start l.list i).distance))) [
        | inl search ↦ rw search (nearest-Good l.index_cache i (end_start l.list i) acc g)
        | inr near ↦ rw near g
      ]

  walk_and_cache_lem :
      (heap : Heap A) (l : HashList) (i : ℕ) (start : Start)
      → Repr heap l.list xs
      → Accurate l.index_cache
      → i < length xs
      → Good i start
      → Returns
          (walk_and_cache heap l i start)
          λ r. (r.0 ≡ first (drop i xs) none) × (r.1.list ≡ l.list) × Accurate r.1.index_cache
  unfolding walk_and_cache Good
  walk_and_cache_lem heap l i start rep acc lt (inside, node, far) =
      let found : walk heap start.node start.at_index start.distance i
          ≡ ok (first (drop i xs) none) =
        ap (λ p. walk heap p start.at_index start.distance i) node
        ∙ (ap (λ d. walk heap (first (drop start.at_index xs) none) start.at_index d i) far
            ∙ walk_lem heap xs start.at_index i rep.4 inside lt) in
      elim (Bool-cases (
        ltb (length l.index_cache) l.cache_max_size
        || ltb (length l.index_cache) (l.list.size / 128))) [
          | inl room ↦ (
            (
              first (drop i xs) none,
              record l { index_cache = cache_node l.index_cache i (first (drop i xs) none) },
            ),
            rw (found, room),
            (refl, refl, cache_node-Accurate l.index_cache i lt acc),
          )
          | inr crowded ↦ ((first (drop i xs) none, l), rw (found, crowded), (refl, refl, acc))
        ]

  -- `nodeAt` finds the node at every index below the size, whatever the cache holds, as long as its
  -- entries are right, and the entries are right afterwards.
  pub node_at-cached :
      (heap : Heap A) (l : HashList) (i : ℕ)
      → Repr heap l.list xs
      → Accurate l.index_cache
      → i < length xs
      → Returns
          (node_at heap l i)
          λ r. (r.0 ≡ first (drop i xs) none) × (r.1.list ≡ l.list) × Accurate r.1.index_cache
  unfolding node_at node_cached_at
  node_at-cached heap l i rep acc lt =
      let within : leb l.list.size i ≡ false = ground (arith, rep.2) in
      elim (Option-cases (cached l.index_cache i)) [
        | inr (p, e) ↦ ((p, l), rw (within, e), (cached_lem l.index_cache i p acc e, refl, acc))
        | inl e ↦
            let (r, run, post) =
              walk_and_cache_lem heap l i (choose_start l i) rep acc lt
                (choose_start-Good heap l i rep acc lt) in
            (r, rw (within, e) run, post)
      ]
