-- ===== src/TreeMap/EraseInner.antt =====
-- PooledMap.hpp: `erase` of a node with two children.
use mathlib.Core.Path.{◌≡◌, subst}
use mathlib.Core.List.{append-nil}
use bhcpp_hptool_kit.Base.{
  ℕ, ◌+◌, ◌≤◌, ◌<◌, ◌∙◌, ap, refl, sym, arith, List, [], ◌∷◌, ◌++◌, some, none, length,
}
use bhcpp_hptool_kit.Base.Run.{ok, Returns}
use bhcpp_hptool_kit.TreeMap.{Link, Color, black, left, right, Heap}
use bhcpp_hptool_kit.TreeMap.Shape.{
  Item, Tree, leaf, node, Frame, here, link, cell, Cell, up, top, plug, inorder, occurs,
  occurs_around,
}
use bhcpp_hptool_kit.TreeMap.Writes.{read_lem}
use bhcpp_hptool_kit.TreeMap.Focus.{Focus, Focus-up, Focus-down, Focus_cell}
use bhcpp_hptool_kit.TreeMap.Rebalance.{frame, color_of}
use bhcpp_hptool_kit.TreeMap.RedBlack.{raise}
use bhcpp_hptool_kit.TreeMap.Descend.{plug-Rooted}
use bhcpp_hptool_kit.TreeMap.Insert.{Fits, Fits-down}
use bhcpp_hptool_kit.TreeMap.Erase.{minimum, lift, take_place, unlink_inner, unlink}
use bhcpp_hptool_kit.TreeMap.Unlink.{take_place_lem, Focus-append}
use bhcpp_hptool_kit.TreeMap.Gap.{inorder_around}
use bhcpp_hptool_kit.TreeMap.Least.{plug-append, minimum_lem}
use bhcpp_hptool_kit.TreeMap.Lift.{
  occurs-plug, occurs_around-append, top-append, Lifted, lift-child, lift-deep,
}
use bhcpp_hptool_kit.TreeMap.EraseNode.{
  Fits-children, root_color, root_color_red, PathHeight-item, PathNoRedPair-item, Removed,
  unlink_outer_lem,
}

module _ {ℓ κ} {K : Type ℓ} {V : Type κ} where
  pub lift_lem :
      (h : Heap K V) (c cy : Color) (z y : Item K V) (l v : Tree K V)
      (spine path : List (Frame K V)) (root : Link)
      → root ≡ top (some z.address) path
      → Focus h (spine ++ frame right c z l ∷ path) (node cy y leaf v)
      → Returns
          (lift h root
            (some z.address)
            (some y.address)
            (up (spine ++ frame right c z l ∷ path))
            (link v))
          (Lifted c cy z y l (plug spine v) path (up (spine ++ frame right c y l ∷ path)))
  lift_lem h c cy z y l v [] path root at_root focus =
      lift-child h c cy z y l v path root at_root
        (Focus-up h (frame right c z l) path (node cy y leaf v) focus)
  lift_lem h c cy z y l v (f ∷ spine) path root at_root focus =
      lift-deep h c cy z y l v f spine path root at_root focus

  pub inner_run :
      (fuel : ℕ) (h : Heap K V) (root q : Link) (u : Heap K V × Link × Link) (r : Heap K V × Link)
      (cy : Color) (z y : Item K V) (p x : Link)
      → minimum fuel h q ≡ ok (some y.address)
      → Cell h left cy y p none x
      → lift h root (some z.address) (some y.address) p x ≡ ok u
      → take_place u.0 u.1 (some z.address) (some y.address) ≡ ok r
      → unlink_inner fuel h root (some z.address) q
        ≡ ok (record { heap = r.0; root = r.1; lost = cy; x = x; x_parent = u.2 })
  unfolding unlink_inner
  inner_run fuel h root q u r cy z y p x run0 ey run1 run2 =
      rw (run0, read_lem h y.address _ ey, run1, run2) refl

  pub unlink_inner_lem :
      (fuel n : ℕ) (h : Heap K V) (path : List (Frame K V)) (c cr : Color) (z j : Item K V)
      (l a b : Tree K V) (root : Link) (x : ℕ)
      → root ≡ top (some z.address) path
      → link l ≡ some x
      → Focus h path (node c z l (node cr j a b))
      → Fits n path (node c z l (node cr j a b))
      → color_of (plug path (node c z l (node cr j a b))) ≡ black
      → length (inorder (node cr j a b)) < fuel
      → Returns
          (unlink_inner fuel h root (some z.address) (some j.address))
          (Removed z.address path l (node cr j a b))
  unfolding occurs occurs_around
  unlink_inner_lem fuel n h path c cr z j l a b root x at_root lx focus fits dark few =
      let r = node cr j a b in
      let g = frame right c z l in
      let below = Focus-down h g path r focus in
      let (m, fl, fr) = Fits-down n path c z l r fits in
      let (spine, cy, y, yr, run0, whole, order, (k, fits')) =
        minimum_lem fuel m h (g ∷ path) cr j a b few below fr in
      let v = plug spine yr in
      let at_y =
        Focus-append h spine (g ∷ path) (node cy y leaf yr)
          (subst (λ t. Focus h (g ∷ path) t) (sym whole) below) in
      let ey = Focus_cell h (spine ++ g ∷ path) left cy y leaf yr at_y in
      let (u, run1, ((w, ez), hl, (p, hy), hp, at_root1, at_xp)) =
        lift_lem h c cy z y l yr spine path root at_root at_y in
      let count : (a : ℕ)
          → here z.address a + here y.address a + occurs a l + occurs a v + occurs_around a path
            ≤ 1 =
        λ a. omega (
          arith,
          focus.2 a,
          ap (λ t. occurs a t) whole,
          occurs-plug a spine (node cy y leaf yr),
          occurs-plug a spine yr,
        ) in
      let (s, run2, (focus2, at_root2, ez2)) =
        take_place_lem u.0 c cy z y p w l v path u.1 x at_root1 count lx ez hl hy hp in
      let f = frame right c y l in
      let path' = spine ++ f ∷ path in
      let focus' = Focus-append s.0 spine (f ∷ path) yr (Focus-down s.0 f path v focus2) in
      let ((k', hx, hyr, ph), (nx, nyr, pn), reds) =
        Fits-children k (spine ++ g ∷ path) cy y leaf yr fits' in
      let shape : plug path' yr ≡ plug path (node c y l v) = plug-append spine (f ∷ path) yr in
      let dark' : color_of (plug path' yr) ≡ black =
        ap (λ t. color_of t) shape ∙ root_color path (node c z l r) (node c y l v) refl dark in
      (
        record { heap = s.0; root = s.1; lost = cy; x = link yr; x_parent = u.2 },
        inner_run fuel h root (some j.address) u s cy z y (up (spine ++ g ∷ path)) (link yr) run0 ey
            run1 run2,
        (
          path',
          yr,
          (
            focus',
            λ a.
                omega
                  (arith, count a, occurs_around-append a spine (f ∷ path), occurs-plug a spine yr),
            (at_root2 ∙ sym (top-append (link yr) spine f path), refl, at_xp),
            (k', hyr, PathHeight-item (raise cy k') spine right c z y l path ph),
            (nyr, PathNoRedPair-item spine right c z y l path pn, plug-Rooted path' yr dark'),
            λ e. ((reds e).1, dark'),
            (_, ez2),
          ),
          ap (λ t. inorder t) shape
              ∙ (inorder_around path).2 (node c y l v)
              ∙ ap (λ o. (inorder_around path).0 ++ ((inorder l ++ o) ++ (inorder_around path).1))
                  (sym order),
        ),
      )

  -- The three branches.
  pub unlink_lem :
      (fuel n : ℕ) (h : Heap K V) (path : List (Frame K V)) (c : Color) (z : Item K V)
      (l r : Tree K V) (root : Link)
      → root ≡ top (some z.address) path
      → Focus h path (node c z l r)
      → Fits n path (node c z l r)
      → color_of (plug path (node c z l r)) ≡ black
      → length (inorder r) < fuel
      → Returns
          (unlink fuel h root
            (some z.address)
            (cell left c z (up path) (link l) (link r))
            (link l)
            (link r))
          (Removed z.address path l r)
  unfolding unlink
  unlink_lem fuel n h path c z leaf r root at_root focus fits dark few =
      let ((k, hl, hr, ph), (nl, nr, pn), reds) = Fits-children n path c z leaf r fits in
      unlink_outer_lem h path right c z r leaf r root (cell left c z (up path) none (link r))
        at_root focus refl refl (k, hr, ph) nr pn (plug-Rooted path (node c z leaf r) dark)
        (λ e. ((reds e).1, root_color_red path c z leaf r r dark e)) refl
  unlink_lem fuel n h path c z (node d i a b) leaf root at_root focus fits dark few =
      let l = node d i a b in
      let ((k, hl, hr, ph), (nl, nr, pn), reds) = Fits-children n path c z l leaf fits in
      unlink_outer_lem h path left c z l l leaf root (cell left c z (up path) (link l) none) at_root
        focus refl refl (k, hl, ph) nl pn (plug-Rooted path (node c z l leaf) dark)
        (λ e. ((reds e).0, root_color_red path c z l leaf l dark e)) (sym (append-nil (inorder l)))
  unlink_lem fuel n h path c z (node d i a b) (node e j p q) root at_root focus fits dark few =
      unlink_inner_lem fuel n h path c e z j (node d i a b) p q root i.address at_root refl focus
        fits dark few
