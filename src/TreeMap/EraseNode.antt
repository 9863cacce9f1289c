-- ===== src/TreeMap/EraseNode.antt =====
-- PooledMap.hpp: the three branches of `erase` take a node out of a red-black tree.
use mathlib.Core.Path.{◌≡◌, subst}
use bhcpp_hptool_kit.Base.{ℕ, zero, suc, ◌∙◌, ap, refl, sym, List, [], ◌∷◌, ◌++◌, some}
use bhcpp_hptool_kit.Base.Run.{Returns}
use bhcpp_hptool_kit.TreeMap.{Link, Color, red, black, Side, Heap, Node}
use bhcpp_hptool_kit.TreeMap.Shape.{
  Item, Tree, leaf, node, Frame, join, link, up, top, plug, inorder,
}
use bhcpp_hptool_kit.TreeMap.Focus.{Focus}
use bhcpp_hptool_kit.TreeMap.Rebalance.{frame, color_of, Rooted}
use bhcpp_hptool_kit.TreeMap.RedBlack.{raise, Height, NoRedPair, PathHeight, PathNoRedPair, Under}
use bhcpp_hptool_kit.TreeMap.Descend.{plug-Rooted}
use bhcpp_hptool_kit.TreeMap.EraseRound.{Rooted-plug}
use bhcpp_hptool_kit.TreeMap.Insert.{Fits}
use bhcpp_hptool_kit.TreeMap.Erase.{Unlinked, unlink_outer}
use bhcpp_hptool_kit.TreeMap.Unlink.{transplant-Focus}
use bhcpp_hptool_kit.TreeMap.Gap.{inorder_around, Gap}

module _ {ℓ κ} {K : Type ℓ} {V : Type κ} where
  -- What the children of a node and the frames above it are in a red-black tree.
  abbrev pub ChildrenFit : Color → Tree K V → Tree K V → List (Frame K V) → Type 0
  ChildrenFit c l r path =
      ((k : ℕ) × Height k l × Height k r × PathHeight (raise c k) path)
      × (NoRedPair l × NoRedPair r × PathNoRedPair path)
      × ((c ≡ red) → (color_of l ≡ black) × (color_of r ≡ black))

  pub Fits-children :
      (n : ℕ) (path : List (Frame K V)) (c : Color) (i : Item K V) (l r : Tree K V)
      → Fits n path (node c i l r)
      → ChildrenFit c l r path
  Fits-children n path red i l r ((hl, hr), ph, (cl, cr, nl, nr), below, pn) =
      ((n, hl, hr, ph), (nl, nr, pn), λ e. (cl, cr))
  Fits-children zero path black i l r (h, ph, (nl, nr), below, pn) = elim h [ ]
  Fits-children (suc k) path black i l r ((hl, hr), ph, (nl, nr), below, pn) =
      ((k, hl, hr, ph), (nl, nr, pn), λ e. cc (e))

  -- The colour of the root does not hang on a tree below.
  pub root_color :
      (path : List (Frame K V)) (t t' : Tree K V)
      → color_of t ≡ color_of t'
      → color_of (plug path t) ≡ black
      → color_of (plug path t') ≡ black
  root_color [] t t' e dark = sym e ∙ dark
  root_color (f ∷ path) t t' e dark = Rooted-plug f path t' (plug-Rooted (f ∷ path) t dark)

  pub root_color_red :
      (path : List (Frame K V)) (c : Color) (i : Item K V) (l r t' : Tree K V)
      → color_of (plug path (node c i l r)) ≡ black
      → c ≡ red
      → color_of (plug path t') ≡ black
  root_color_red [] c i l r t' dark e = cc (dark, e)
  root_color_red (f ∷ path) c i l r t' dark e =
      Rooted-plug f path t' (plug-Rooted (f ∷ path) (node c i l r) dark)

  -- The item of a frame does not matter for the colours.
  pub PathHeight-item :
      (n : ℕ) (xs : List (Frame K V)) (s : Side) (c : Color) (i j : Item K V) (u : Tree K V)
      (ys : List (Frame K V))
      → PathHeight n (xs ++ frame s c i u ∷ ys)
      → PathHeight n (xs ++ frame s c j u ∷ ys)
  PathHeight-item n [] s c i j u ys p = p
  PathHeight-item n (f ∷ xs) s c i j u ys (a, p) =
      (a, PathHeight-item (raise f.color n) xs s c i j u ys p)

  pub PathNoRedPair-item :
      (xs : List (Frame K V)) (s : Side) (c : Color) (i j : Item K V) (u : Tree K V)
      (ys : List (Frame K V))
      → PathNoRedPair (xs ++ frame s c i u ∷ ys)
      → PathNoRedPair (xs ++ frame s c j u ∷ ys)
  PathNoRedPair-item [] s c i j u ys p = p
  PathNoRedPair-item (f ∷ []) s c i j u ys (a, b, p) = (a, below f.color f.sibling b, p)
    where
      below :
          (d : Color) (w : Tree K V)
          → Under d w (frame s c i u ∷ ys)
          → Under d w (frame s c j u ∷ ys)
      below red w b = b
      below black w b = b
  PathNoRedPair-item (f ∷ g ∷ xs) s c i j u ys (a, b, p) =
      (a, below f.color f.sibling b, PathNoRedPair-item (g ∷ xs) s c i j u ys p)
    where
      below :
          (d : Color) (w : Tree K V)
          → Under d w (g ∷ (xs ++ frame s c i u ∷ ys))
          → Under d w (g ∷ (xs ++ frame s c j u ∷ ys))
      below red w b = b
      below black w b = b

  -- The node is out of the tree, and the others are in their order.
  abbrev pub Removed : ℕ → List (Frame K V) → Tree K V → Tree K V → Unlinked K V → Type (ℓ ⊔ κ)
  Removed z path l r d =
      (path' : List (Frame K V)) × (v : Tree K V) × Gap z d path' v
      × (inorder (plug path' v)
          ≡ (inorder_around path).0 ++ ((inorder l ++ inorder r) ++ (inorder_around path).1))

  pub unlink_outer_lem :
      (h : Heap K V) (path : List (Frame K V)) (s : Side) (c : Color) (z : Item K V)
      (v l r : Tree K V) (root : Link) (n : Node K V)
      → root ≡ top (some z.address) path
      → Focus h path (join s c z v leaf)
      → n.color ≡ c
      → n.parent ≡ up path
      → ((k : ℕ) × Height k v × PathHeight (raise c k) path)
      → NoRedPair v
      → PathNoRedPair path
      → Rooted path
      → ((c ≡ red) → (color_of v ≡ black) × (color_of (plug path v) ≡ black))
      → inorder v ≡ inorder l ++ inorder r
      → Returns (unlink_outer h root (some z.address) n (link v)) (Removed z.address path l r)
  unfolding unlink_outer
  unlink_outer_lem h path s c z v l r root n at_root focus nc np (k, hv, ph) nv pn rooted dark
        order =
      let (b, run, (focus', at_root', e, count, ch)) =
        transplant-Focus h s c z v path root at_root focus in
      (
        record { heap = b.0; root = b.1; lost = n.color; x = link v; x_parent = n.parent },
        rw run refl,
        (
          path,
          v,
          (
            focus',
            count,
            (at_root', refl, np),
            (k, hv, subst (λ d. PathHeight (raise d k) path) (sym nc) ph),
            (nv, pn, rooted),
            λ e. dark (sym nc ∙ e),
            (_, e),
          ),
          (inorder_around path).2 v
              ∙ ap (λ x. (inorder_around path).0 ++ (x ++ (inorder_around path).1)) order,
        ),
      )
