-- ===== src/LinkedList/Chain.antt =====
-- PooledList.hpp: which heaps hold a list. A list of nodes is the list of their addresses and values.
use mathlib.Core.Path.{subst}
use bhcpp_hptool_kit.Base.{
  ℕ, zero, suc, ◌≡◌, refl, ◌∙◌, List, [], ◌∷◌, ◌++◌, none, some, length, take, drop, get_elem?,
}
use bhcpp_hptool_kit.Base.Distinct.{In, here, there, Distinct}
use bhcpp_hptool_kit.LinkedList.{Link, Heap, Handle}

module _ {ℓ} {A : Type ℓ} where
  abbrev pub addresses : List (ℕ × A) → List ℕ
  addresses [] = []
  addresses (x ∷ xs) = x.0 ∷ addresses xs

  abbrev pub first : List (ℕ × A) → Link → Link
  first [] after = after
  first (x ∷ xs) after = some x.0

  abbrev pub last : Link → List (ℕ × A) → Link
  last before [] = before
  last before (x ∷ xs) = last (some x.0) xs

  -- The nodes of `xs` are linked both ways; the first one's `prev` is `before` and the last one's
  -- `next` is `after`.
  unfoldable pub Chain : Heap A → Link → List (ℕ × A) → Link → Type ℓ
  Chain heap before [] after = Unit
  Chain heap before (x ∷ xs) after =
      (heap x.0 ≡ some (record { value = x.1; prev = before; next = first xs after }))
      × Chain heap (some x.0) xs after

  abbrev pub Repr : Heap A → Handle → List (ℕ × A) → Type ℓ
  Repr heap l xs =
      (l.head ≡ first xs none)
      × (l.tail ≡ last none xs)
      × (l.size ≡ length xs)
      × Distinct (addresses xs)
      × Chain heap none xs none

  -- Another heap that has the same nodes.
  pub Chain-frame :
      (heap heap' : Heap A) (before : Link) (xs : List (ℕ × A)) (after : Link)
      → ((a : ℕ) → In a (addresses xs) → heap' a ≡ heap a)
      → Chain heap before xs after
      → Chain heap' before xs after
  unfolding Chain
  Chain-frame heap heap' before [] after same c = tt
  Chain-frame heap heap' before (x ∷ xs) after same (e, c) = (
    same x.0 (here refl) ∙ e,
    Chain-frame heap heap' (some x.0) xs after (λ a i. same a (there i)) c,
  )

  pub Chain-join :
      (heap : Heap A) (before : Link) (xs ys : List (ℕ × A)) (after : Link)
      → Chain heap before xs (first ys after)
      → Chain heap (last before xs) ys after
      → Chain heap before (xs ++ ys) after
  unfolding Chain
  Chain-join heap before [] ys after c d = d
  Chain-join heap before (x ∷ []) ys after (e, c) d =
      (e, Chain-join heap (some x.0) [] ys after c d)
  Chain-join heap before (x ∷ y ∷ xs) ys after (e, c) d =
      (e, Chain-join heap (some x.0) (y ∷ xs) ys after c d)

  pub Chain-split :
      (heap : Heap A) (before : Link) (xs ys : List (ℕ × A)) (after : Link)
      → Chain heap before (xs ++ ys) after
      → Chain heap before xs (first ys after) × Chain heap (last before xs) ys after
  unfolding Chain
  Chain-split heap before [] ys after c = (tt, c)
  Chain-split heap before (x ∷ []) ys after (e, c) = ((e, tt), c)
  Chain-split heap before (x ∷ y ∷ xs) ys after (e, c) =
      let (c1, c2) = Chain-split heap (some x.0) (y ∷ xs) ys after c in ((e, c1), c2)

  -- The node at a position, with its neighbours.
  pub Chain-node :
      (heap : Heap A) (before : Link) (xs : List (ℕ × A)) (after : Link) (i : ℕ) (x : ℕ × A)
      → Chain heap before xs after
      → get_elem? xs i ≡ some x
      → heap x.0
        ≡ some (record {
          value = x.1;
          prev = last before (take i xs);
          next = first (drop (suc i) xs) after;
        })
  unfolding Chain
  Chain-node heap before [] after i x c e = cc e
  Chain-node heap before (y ∷ xs) after zero x (n, c) e =
      let same : y ≡ x = cc e in
      subst (λ z. heap z.0 ≡ some (record { value = z.1; prev = before; next = first xs after }))
        same n
  Chain-node heap before (y ∷ xs) after (suc i) x (n, c) e =
      Chain-node heap (some y.0) xs after i x c e
