-- ===== src/LinkedList/Walk.antt =====
-- PooledList.hpp: `nodeAt` and the loops over the elements.

use bhcpp_hptool_kit.Base.{
  ℕ, zero, suc, ◌+◌, ◌-◌, ◌≤◌, ◌<◌, ◌≡◌, refl, sym, ◌∙◌, ap, arith, List, [], ◌∷◌, none, some, take,
  drop, length, get_elem?, get_elem?_of_lt, Bool-cases, ltb, leb, inl, inr, false, ◌&&◌, ◌/◌,
}
use bhcpp_hptool_kit.Base.Run.{ok}
use bhcpp_hptool_kit.LinkedList.{
  Link, Heap, Handle, walk_next, walk_prev, walk, node_at, visit_next, for_each,
}
use bhcpp_hptool_kit.LinkedList.Chain.{first, last, Chain, Chain-node, Repr}
use bhcpp_hptool_kit.LinkedList.Links.{read_node-ok}

module _ {ℓ} {A : Type ℓ} where
  pub last-take :
      (before : Link) (xs : List (ℕ × A)) (i : ℕ) (x : ℕ × A)
      → get_elem? xs i ≡ some x
      → last before (take (suc i) xs) ≡ some x.0
  last-take before [] i x e = cc e
  last-take before (y ∷ xs) zero x e = let same : y ≡ x = cc e in ap (λ z. some z.0) same
  last-take before (y ∷ xs) (suc i) x e = last-take (some y.0) xs i x e

  pub first-drop :
      (after : Link) (xs : List (ℕ × A)) (i : ℕ) (x : ℕ × A)
      → get_elem? xs i ≡ some x
      → first (drop i xs) after ≡ some x.0
  first-drop after [] i x e = cc e
  first-drop after (y ∷ xs) zero x e = let same : y ≡ x = cc e in ap (λ z. some z.0) same
  first-drop after (y ∷ xs) (suc i) x e = first-drop after xs i x e

  drop-past : (xs : List (ℕ × A)) (i : ℕ) → length xs ≤ i → drop i xs ≡ []
  drop-past [] zero h = refl
  drop-past [] (suc i) h = refl
  drop-past (x ∷ xs) zero h = absurd (omega arith)
  drop-past (x ∷ xs) (suc i) h = drop-past xs i (omega arith)

  pub take_whole : (xs : List (ℕ × A)) → take (length xs) xs ≡ xs
  take_whole [] = refl
  take_whole (x ∷ xs) = ap (◌∷◌ x) (take_whole xs)

  pub walk_next_lem :
      (k : ℕ) (heap : Heap A) (before : Link) (xs : List (ℕ × A)) (after : Link)
      → Chain heap before xs after
      → k ≤ length xs
      → walk_next k heap (first xs after) ≡ ok (first (drop k xs) after)
  unfolding walk_next Chain
  walk_next_lem zero heap before xs after c h = refl
  walk_next_lem (suc k) heap before [] after c h = absurd (omega arith)
  walk_next_lem (suc k) heap before (x ∷ xs) after (e, c) h =
      rw (read_node-ok heap x.0 _ e) (walk_next_lem k heap (some x.0) xs after c (omega arith))

  pub walk_prev_lem :
      (k i : ℕ) (heap : Heap A) (xs : List (ℕ × A))
      → Chain heap none xs none
      → i + k < length xs
      → walk_prev k heap (last none (take (suc (i + k)) xs)) ≡ ok (last none (take (suc i) xs))
  unfolding walk_prev
  walk_prev_lem zero i heap xs c h = let e : i + 0 ≡ i = omega arith in rw e
  walk_prev_lem (suc k) i heap xs c h =
      let (x, at) = get_elem?_of_lt xs (i + suc k) h in
      let e : i + suc k ≡ suc (i + k) = omega arith in
      let here = last-take none xs (i + suc k) x at in
      let there = read_node-ok heap x.0 _ (Chain-node heap none xs none (i + suc k) x c at) in
      rw (here, there, e) (walk_prev_lem k i heap xs c (omega arith))

  -- `nodeAt` finds the node at every index below the size, from either end, and the null pointer at any other index.
  pub node_at_lem :
      (heap : Heap A) (l : Handle) (xs : List (ℕ × A)) (i : ℕ)
      → Repr heap l xs
      → node_at heap l i ≡ ok (first (drop i xs) none)
  unfolding node_at walk walk_prev
  node_at_lem heap l xs i (head, tail, size, _, c) = elim (Bool-cases (leb l.size i)) [
    | inl past ↦ rw (past, drop-past xs i (ground arith))
    | inr within ↦
        let lt : i < length xs = ground arith in
        let (x, at) = get_elem?_of_lt xs i lt in
        elim (Bool-cases (ltb 16 l.size && ltb (l.size / 2) i)) [
          | inl back ↦
              let d = l.size - 1 - i in
              let not_forward : ltb (l.size - 1) i ≡ false = ground arith in
              let whole : suc (i + d) ≡ length xs = omega arith in
              let start : l.tail ≡ last none (take (suc (i + d)) xs) =
                tail
                ∙ ap (last none) (sym (take_whole xs))
                ∙ ap (λ n. last none (take n xs)) (sym whole) in
              rw (
                within,
                back,
                not_forward,
                start,
                walk_prev_lem d i heap xs c (omega arith),
                last-take none xs i x at,
                first-drop none xs i x at,
              )
          | inr forward ↦ elim (Bool-cases (ltb 0 i)) [
            | inl moves ↦
                rw (within, forward, moves, head, walk_next_lem i heap none xs none c (omega arith))
            | inr stays ↦ let e : i ≡ 0 = ground arith in rw (within, forward, stays, head, e)
          ]
        ]
  ]

  abbrev pub values : List (ℕ × A) → List A
  values [] = []
  values (x ∷ xs) = x.1 ∷ values xs

  visit_next_lem :
      (fuel : ℕ) (heap : Heap A) (before : Link) (xs : List (ℕ × A))
      → Chain heap before xs none
      → length xs < fuel
      → visit_next fuel heap (first xs none) ≡ ok (values xs)
  unfolding visit_next Chain
  visit_next_lem fuel heap before [] c h = refl
  visit_next_lem zero heap before (x ∷ xs) c h = absurd (omega arith)
  visit_next_lem (suc fuel) heap before (x ∷ xs) (e, c) h =
      rw (read_node-ok heap x.0 _ e, visit_next_lem fuel heap (some x.0) xs c (omega arith))

  -- `for_each` visits the values from the head to the tail, once each.
  pub for_each_lem :
      (heap : Heap A) (l : Handle) (xs : List (ℕ × A))
      → Repr heap l xs
      → for_each heap l ≡ ok (values xs)
  unfolding for_each
  for_each_lem heap l xs (head, tail, size, _, c) =
      rw head (visit_next_lem (l.size + 1) heap none xs c (omega arith))
