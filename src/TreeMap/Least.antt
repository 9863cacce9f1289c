-- ===== src/TreeMap/Least.antt =====
-- PooledMap.hpp: `minimum`, the way down to the least node of a tree.
use mathlib.Core.Path.{◌≡◌, subst}
use mathlib.Core.List.{append_assoc}
use bhcpp_hptool_kit.Base.{
  ℕ, zero, suc, ◌<◌, ◌∙◌, ap, refl, sym, arith, List, [], ◌∷◌, ◌++◌, some, length,
}
use bhcpp_hptool_kit.Base.Run.{ok}
use bhcpp_hptool_kit.TreeMap.{Color, left, Heap}
use bhcpp_hptool_kit.TreeMap.Shape.{Item, Tree, leaf, node, Frame, join, plug, inorder, none_below}
use bhcpp_hptool_kit.TreeMap.Writes.{read_lem}
use bhcpp_hptool_kit.TreeMap.Focus.{Focus, Focus-down, Focus_cell}
use bhcpp_hptool_kit.TreeMap.Rebalance.{frame}
use bhcpp_hptool_kit.TreeMap.Descend.{length-inorder-node}
use bhcpp_hptool_kit.TreeMap.Insert.{Fits, Fits-down}
use bhcpp_hptool_kit.TreeMap.Erase.{minimum}

module _ {ℓ κ} {K : Type ℓ} {V : Type κ} where
  pub plug-append :
      (xs ys : List (Frame K V)) (t : Tree K V) → plug (xs ++ ys) t ≡ plug ys (plug xs t)
  plug-append [] ys t = refl
  plug-append (f ∷ xs) ys t = plug-append xs ys (join f.side f.color f.item t f.sibling)

  -- The frames down to the least node, the node, and its right child.
  abbrev pub Least : Heap K V → ℕ → List (Frame K V) → Tree K V → ℕ → Type (ℓ ⊔ κ)
  Least h fuel path t root =
      (spine : List (Frame K V)) × (c : Color) × (y : Item K V) × (r : Tree K V) × (minimum fuel h
          (some root)
        ≡ ok (some y.address))
      × (plug spine (node c y leaf r) ≡ t)
      × (inorder t ≡ y ∷ inorder (plug spine r))
      × ((m : ℕ) × Fits m (spine ++ path) (node c y leaf r))

  pub minimum_lem :
      (fuel n : ℕ) (h : Heap K V) (path : List (Frame K V)) (c : Color) (i : Item K V)
      (l r : Tree K V)
      → length (inorder (node c i l r)) < fuel
      → Focus h path (node c i l r)
      → Fits n path (node c i l r)
      → Least h fuel path (node c i l r) i.address
  unfolding minimum
  minimum_lem zero n h path c i l r few focus fits =
      elim (none_below (length (inorder (node c i l r))) few) [ ]
  minimum_lem (suc fuel) n h path c i leaf r few focus fits =
      let e = Focus_cell h path left c i leaf r focus in
      ([], c, i, r, rw (read_lem h i.address _ e) refl, refl, refl, (n, fits))
  minimum_lem (suc fuel) n h path c i (node c' j a b) r few focus fits =
      let l = node c' j a b in
      let f = frame left c i r in
      let e = Focus_cell h path left c i l r focus in
      let (m, fl, fr) = Fits-down n path c i l r fits in
      let (spine, cy, y, yr, run, whole, order, (k, fits')) =
        minimum_lem fuel m h (f ∷ path) c' j a b (omega (arith, few, length-inorder-node c i l r))
          (Focus-down h f path l focus) fl in
      (
        spine ++ f ∷ [],
        cy,
        y,
        yr,
        rw (read_lem h i.address _ e) run,
        plug-append spine (f ∷ []) (node cy y leaf yr) ∙ ap (λ x. node c i x r) whole,
        ap (λ x. x ++ i ∷ inorder r) order
            ∙ ap (λ x. y ∷ inorder x) (sym (plug-append spine (f ∷ []) yr)),
        (
          k,
          subst (λ p. Fits k p (node cy y leaf yr)) (sym (append_assoc spine (f ∷ []) path)) fits',
        ),
      )
