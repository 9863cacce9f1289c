-- ===== src/TreeMap/Clear.antt =====
-- PooledMap.hpp: `clear` recycles the nodes of the tree.
use native.Mathlib.Decide.{ℕ_discrete}
use mathlib.Core.Logic.{if_pos, if_neg}
use mathlib.Core.Path.{◌≡◌}
use bhcpp_hptool_kit.Base.{
  ◌⊎◌, ℕ, zero, suc, ◌≤◌, ◌<◌, ◌∙◌, ap, refl, sym, inl, inr, arith, none, some, length,
}
use bhcpp_hptool_kit.Base.Run.{ok, Returns}
use bhcpp_hptool_kit.TreeMap.{left, Heap, Link, Node, write_node, recycle}
use bhcpp_hptool_kit.TreeMap.Shape.{
  Item, Tree, leaf, node, inorder, link, here, here_self, here_zero, here_ne, Cell, Holds, occurs,
  none_below,
}
use bhcpp_hptool_kit.TreeMap.Writes.{Changed, Holds-frame, read_lem}
use bhcpp_hptool_kit.TreeMap.Traverse.{clear}
use bhcpp_hptool_kit.TreeMap.Descend.{length-inorder-node}

zero_or_one : (n : ℕ) → n ≤ 1 → (n ≡ 0) ⊎ (n ≡ 1)
zero_or_one zero h = inl refl
zero_or_one (suc n) h = inr (omega (arith, h))

module _ {ℓ κ} {K : Type ℓ} {V : Type κ} where
  pub recycle_run :
      (h : Heap K V) (a : ℕ) (n : Node K V) → h a ≡ some n → recycle h a ≡ ok (write_node h a none)
  unfolding recycle
  recycle_run h a n e = rw (read_lem h a n e) refl

  pub free_node_lem :
      (h : Heap K V) (a : ℕ)
      → (write_node h a none a ≡ none) × Changed h (write_node h a none) (here a)
  free_node_lem h a =
      (if_pos (ℕ_discrete a a) refl _ _, λ b z. if_neg (ℕ_discrete a b) (here_zero a b z) _ _)

  pub clear_run :
      (fuel : ℕ) (h h1 h2 : Heap K V) (i : Item K V) (c : _) (p q u : Link)
      → Cell h left c i p q u
      → clear fuel h q ≡ ok h1
      → Cell h1 left c i p q u
      → clear fuel h1 u ≡ ok h2
      → Cell h2 left c i p q u
      → clear (suc fuel) h (some i.address) ≡ ok (write_node h2 i.address none)
  unfolding clear
  clear_run fuel h h1 h2 i c p q u e run1 e1 run2 e2 =
      rw
        (
          read_lem h i.address _ e,
          run1,
          read_lem h1 i.address _ e1,
          run2,
          recycle_run h2 i.address _ e2,
        )
        refl

  -- On a heap that holds the tree, its nodes at different addresses, and with more steps than nodes,
  -- `clear` ends without a fault, so it recycles no node that is recycled already; afterwards every node of the tree is recycled, and all else is as before.
  pub clear-tree :
      (fuel : ℕ) (h : Heap K V) (p : Link) (t : Tree K V)
      → length (inorder t) < fuel
      → ((a : ℕ) → occurs a t ≤ 1)
      → Holds h p t
      → Returns
          (clear fuel h (link t))
          λ h'. ((a : ℕ) → occurs a t ≡ 1 → h' a ≡ none) × Changed h h' (λ a. occurs a t)
  unfolding Holds occurs clear
  clear-tree zero h p t few once holds = elim (none_below (length (inorder t)) few) [ ]
  clear-tree (suc fuel) h p leaf few once holds =
      (h, refl, (λ a z. absurd (omega (arith, z)), λ a z. refl))
  clear-tree (suc fuel) h p (node c i l r) few once (e, hl, hr) =
      let ia = i.address in
      let count = length-inorder-node c i l r in
      let (h1, run1, (gone1, ch1)) =
        clear-tree fuel h (some ia) l (omega (arith, few, count)) (λ a. omega (arith, once a)) hl in
      let hr1 =
        Holds-frame h h1 (λ a. occurs a l) (some ia) r ch1 (λ a. omega (arith, once a)) hr in
      let (h2, run2, (gone2, ch2)) =
        clear-tree fuel h1 (some ia) r (omega (arith, few, count)) (λ a. omega (arith, once a))
          hr1 in
      let e1 : Cell h1 left c i p (link l) (link r) =
        ch1 ia (omega (arith, once ia, here_self ia)) ∙ e in
      let e2 : Cell h2 left c i p (link l) (link r) =
        ch2 ia (omega (arith, once ia, here_self ia)) ∙ e1 in
      let (gone, ch) = free_node_lem h2 ia in
      (
        write_node h2 ia none,
        clear_run fuel h h1 h2 i c p (link l) (link r) e run1 e1 run2 e2,
        (
          λ a z. elim (ℕ_discrete ia a) [
            | yes same ↦ ap (λ b. write_node h2 ia none b) (sym same) ∙ gone
            | no other ↦
                let apart = here_ne ia a other in
                elim (zero_or_one (occurs a r) (omega (arith, once a))) [
                  | inl none_right ↦
                      ch a apart ∙ ch2 a none_right ∙ gone1 a (omega (arith, z, apart, none_right))
                  | inr one_right ↦ ch a apart ∙ gone2 a one_right
                ]
          ],
          λ a z. ch a (omega (arith, z)) ∙ ch2 a (omega (arith, z)) ∙ ch1 a (omega (arith, z)),
        ),
      )
