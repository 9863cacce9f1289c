-- ===== src/TreeMap/Gap.antt =====
-- PooledMap.hpp: the end of `erase`, when the node is out of the tree.
use mathlib.Core.Path.{◌≡◌, subst}
use mathlib.Core.List.{append_assoc, append-nil}
use bhcpp_hptool_kit.Base.{
  ℕ, suc, ◌+◌, ◌≤◌, ◌<◌, ◌∙◌, ap, refl, sym, arith, List, [], ◌∷◌, ◌++◌, some, none, length,
  if◌then◌else◌,
}
use bhcpp_hptool_kit.Base.Run.{ok, Returns}
use bhcpp_hptool_kit.TreeMap.{
  Link, Color, red, black, Side, left, right, Heap, is_black, Node, write_node,
}
use bhcpp_hptool_kit.TreeMap.Shape.{
  Item, Tree, Frame, here, join, link, up, top, plug, inorder, occurs, occurs_around,
}
use bhcpp_hptool_kit.TreeMap.Focus.{Focus, Focus-top, link-plug}
use bhcpp_hptool_kit.TreeMap.Rebalance.{color_of, Rooted}
use bhcpp_hptool_kit.TreeMap.RedBlack.{
  raise, Height, NoRedPair, PathHeight, PathNoRedPair, Below, NoRedPair-plug, Height-plug,
}
use bhcpp_hptool_kit.TreeMap.Erase.{Unlinked, fix_erase}
use bhcpp_hptool_kit.TreeMap.Stages.{Outcome}
use bhcpp_hptool_kit.TreeMap.FixErase.{fix_erase-RedBlack}
use bhcpp_hptool_kit.TreeMap.Clear.{free_node_lem}
use bhcpp_hptool_kit.TreeMap.Unlink.{Focus-frame}

module _ {ℓ κ} {K : Type ℓ} {V : Type κ} where
  -- The order of a tree around one of its subtrees.
  pub inorder_around :
      (path : List (Frame K V))
      → (before : List (Item K V)) × (after : List (Item K V)) × ((t : Tree K V)
          → inorder (plug path t) ≡ before ++ (inorder t ++ after))
  inorder_around [] = ([], [], λ t. sym (append-nil (inorder t)))
  inorder_around (f ∷ path) =
      let (b, a, e) = inorder_around path in step f.side f.color f.item f.sibling b a e
    where
      step :
          (s : Side) (c : Color) (i : Item K V) (u : Tree K V) (b a : List (Item K V))
          → ((t : Tree K V) → inorder (plug path t) ≡ b ++ (inorder t ++ a))
          → (before : List (Item K V)) × (after : List (Item K V)) × ((t : Tree K V)
              → inorder (plug path (join s c i t u)) ≡ before ++ (inorder t ++ after))
      step left c i u b a e = (
        b,
        i ∷ inorder u ++ a,
        λ t. e (join left c i t u) ∙ ap (λ x. b ++ x) (append_assoc (inorder t) (i ∷ inorder u) a),
      )
      step right c i u b a e = (
        b ++ (inorder u ++ i ∷ []),
        a,
        λ t.
            e (join right c i t u)
            ∙ ap (λ x. b ++ x)
                (ap (λ x. x ++ a) (sym (append_assoc (inorder u) (i ∷ []) (inorder t)))
                  ∙ append_assoc (inorder u ++ i ∷ []) (inorder t) a)
            ∙ sym (append_assoc b (inorder u ++ i ∷ []) (inorder t ++ a)),
      )

  -- The node at `z` is out of the tree, in which `v` is the place that lacks a black node if `lost` is black.
  abbrev pub Gap : ℕ → Unlinked K V → List (Frame K V) → Tree K V → Type (ℓ ⊔ κ)
  Gap z d path v =
      Focus d.heap path v
      × ((a : ℕ) → here z a + occurs a v + occurs_around a path ≤ 1)
      × ((d.root ≡ top (link v) path) × (d.x ≡ link v) × (d.x_parent ≡ up path))
      × ((k : ℕ) × Height k v × PathHeight (raise d.lost k) path)
      × (NoRedPair v × PathNoRedPair path × Rooted path)
      × ((d.lost ≡ red) → (color_of v ≡ black) × (color_of (plug path v) ≡ black))
      × ((n : Node K V) × (d.heap z ≡ some n))

  -- `if (y_original_color == BLACK) fix_erase(x, x_parent);`
  pub close-Gap :
      (fuel z : ℕ) (heap : Heap K V) (root x xp : Link) (lost : Color) (path : List (Frame K V))
      (v : Tree K V)
      → suc (length path) < fuel
      → Gap z (record { heap = heap; root = root; lost = lost; x = x; x_parent = xp }) path v
      → Returns
          (if is_black lost
            then fix_erase fuel (write_node heap z none) root x xp
            else ok (write_node heap z none, root))
          (Outcome path v)
  unfolding is_black
  close-Gap fuel z heap root x xp black path v few
        (focus, apart, (at_root, at_x, at_xp), (k, hv, ph), (nv, pn, rooted), dark, alive) =
      let focus' =
        Focus-frame heap (write_node heap z none) (here z) path v (free_node_lem heap z).1
          (λ a. omega (arith, apart a)) focus in
      let (r, run, out) =
        fix_erase-RedBlack fuel k (write_node heap z none) path v few focus' hv nv ph pn rooted in
      (
        r,
        ap (λ q. fix_erase fuel (write_node heap z none) q x xp) at_root
            ∙ ap (λ q. fix_erase fuel (write_node heap z none) (top (link v) path) q xp) at_x
            ∙ ap (λ q. fix_erase fuel (write_node heap z none) (top (link v) path) (link v) q) at_xp
            ∙ run,
        out,
      )
  close-Gap fuel z heap root x xp red path v few
        (focus, apart, (at_root, at_x, at_xp), (k, hv, ph), (nv, pn, rooted), dark, alive) =
      let focus' =
        Focus-frame heap (write_node heap z none) (here z) path v (free_node_lem heap z).1
          (λ a. omega (arith, apart a)) focus in
      let (dark_v, dark_root) = dark refl in
      (
        (write_node heap z none, root),
        refl,
        (
          plug path v,
          (Focus-top (write_node heap z none) path v focus', at_root ∙ sym (link-plug path v)),
          refl,
          (
            dark_root,
            NoRedPair-plug path v nv (subst (λ c. Below {K = K} {V = V} c path) (sym dark_v) tt) pn,
            Height-plug path v k hv ph,
          ),
        ),
      )
