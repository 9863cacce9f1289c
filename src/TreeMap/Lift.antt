-- ===== src/TreeMap/Lift.antt =====
-- PooledMap.hpp: `erase` of a node with two children takes the successor out of its place.
use mathlib.Core.Path.{◌≡◌, subst}
use bhcpp_hptool_kit.Base.{
  ℕ, ◌+◌, ◌≤◌, ◌∙◌, refl, sym, arith, List, [], ◌∷◌, ◌++◌, some, none, false,
}
use bhcpp_hptool_kit.Base.Run.{ok, Returns}
use bhcpp_hptool_kit.TreeMap.{
  Link, Color, left, right, Heap, same_link, with_child, with_parent, update, link_parent,
}
use bhcpp_hptool_kit.TreeMap.Shape.{
  Item, Tree, leaf, node, Frame, here, here_self, join, link, cell, Cell, Holds, up, HoldsPath, top,
  plug, occurs, occurs_around, occurs-join,
}
use bhcpp_hptool_kit.TreeMap.Writes.{
  Changed-trans, Holds-frame, HoldsPath-frame, read_lem, update_lem, link_parent-Holds,
  same_link_self,
}
use bhcpp_hptool_kit.TreeMap.Focus.{Focus, Focus-up, link-plug}
use bhcpp_hptool_kit.TreeMap.Rebalance.{frame}
use bhcpp_hptool_kit.TreeMap.Rounds.{top-some}
use bhcpp_hptool_kit.TreeMap.Erase.{transplant, lift}
use bhcpp_hptool_kit.TreeMap.Unlink.{transplant-Focus, append-Focus}

pub same_link-other : (x y : ℕ) → here x y ≡ 0 → same_link (some x) (some y) ≡ false
unfolding same_link here
same_link-other x y e = ground arith

module _ {ℓ κ} {K : Type ℓ} {V : Type κ} where
  pub occurs-plug :
      (a : ℕ) (path : List (Frame K V)) (t : Tree K V)
      → occurs a (plug path t) ≡ occurs a t + occurs_around a path
  unfolding occurs_around
  occurs-plug a [] t = omega arith
  occurs-plug a (f ∷ path) t = omega (
    arith,
    occurs-plug a path (join f.side f.color f.item t f.sibling),
    occurs-join a f.side f.color f.item t f.sibling,
  )

  pub occurs_around-append :
      (a : ℕ) (xs ys : List (Frame K V))
      → occurs_around a (xs ++ ys) ≡ occurs_around a xs + occurs_around a ys
  unfolding occurs_around
  occurs_around-append a [] ys = omega arith
  occurs_around-append a (f ∷ xs) ys = omega (arith, occurs_around-append a xs ys)

  pub top-append :
      (q : Link) (xs : List (Frame K V)) (f : Frame K V) (ys : List (Frame K V))
      → top q (xs ++ f ∷ ys) ≡ top (some f.item.address) ys
  top-append q [] f ys = refl
  top-append q (g ∷ xs) f ys = top-append (some g.item.address) xs f ys

  pub link_parent-update :
      (h h' : Heap K V) (p : Link) (x : ℕ) (q : Link)
      → p ≡ some x
      → link_parent h p q ≡ ok h'
      → update (with_parent q) h (some x) ≡ ok h'
  unfolding link_parent
  link_parent-update h h' p x q e run = subst (λ p. link_parent h p q ≡ ok h') e run

  -- What `take_place` needs: `z` and its left tree, and `y` apart, with the tree `v` on its right.
  abbrev pub Lifted :
      Color
      → Color
      → (z y : Item K V) → (l v : Tree K V) → List (Frame K V)
      → Link
      → Heap K V × Link × Link
      → Type (ℓ ⊔ κ)
  Lifted c cy z y l v path xp r =
      ((u : Link) × Cell r.0 left c z (up path) (link l) u)
      × Holds r.0 (some z.address) l
      × ((p : Link) × Holds r.0 p (node cy y leaf v))
      × HoldsPath r.0 (some z.address) path
      × (r.1 ≡ top (some z.address) path)
      × (r.2 ≡ xp)

  -- The successor is the right child.
  pub lift-child :
      (h : Heap K V) (c cy : Color) (z y : Item K V) (l v : Tree K V) (path : List (Frame K V))
      (root : Link)
      → root ≡ top (some z.address) path
      → Focus h path (node c z l (node cy y leaf v))
      → Returns
          (lift h root (some z.address) (some y.address) (some z.address) (link v))
          (Lifted c cy z y l v path (some y.address))
  unfolding lift Holds occurs
  lift-child h c cy z y l v path root at_root ((ez, hl, (ey, hx, hv)), hp, once) =
      let za = z.address in
      let ya = y.address in
      let (h', run, (hv', ch)) =
        link_parent-Holds h (some ya) (some ya) v (λ a. omega (arith, once a)) hv in
      (
        (h', root, some ya),
        rw (same_link_self za, run) refl,
        (
          (some ya, ch za (omega (arith, once za, here_self za)) ∙ ez),
          Holds-frame h h' (λ a. occurs a v) (some za) l ch (λ a. omega (arith, once a)) hl,
          (some za, (ch ya (omega (arith, once ya, here_self ya)) ∙ ey, tt, hv')),
          HoldsPath-frame h h' (λ a. occurs a v) (some za) path ch (λ a. omega (arith, once a)) hp,
          at_root,
          refl,
        ),
      )

  pub lift_run :
      (h h1 h2 : Heap K V) (r : Heap K V × Link) (root : Link) (c cy : Color) (z y : Item K V)
      (f x : ℕ) (p q q' l x_link : Link)
      → same_link (some f) (some z.address) ≡ false
      → transplant h root (some y.address) x_link ≡ ok r
      → Cell r.0 left c z p l (some x)
      → update (with_child right (some x)) r.0 (some y.address) ≡ ok h1
      → Cell h1 left cy y q q' (some x)
      → update (with_parent (some y.address)) h1 (some x) ≡ ok h2
      → Cell h2 left cy y q q' (some x)
      → lift h root (some z.address) (some y.address) (some f) x_link ≡ ok (h2, r.1, q)
  unfolding lift
  lift_run h h1 h2 r root c cy z y f x p q q' l x_link other run1 ez run2 ey run3 ey2 =
      rw
        (
          other,
          run1,
          read_lem r.0 z.address _ ez,
          run2,
          read_lem h1 y.address _ ey,
          run3,
          read_lem h2 y.address _ ey2,
        )
        refl

  -- The successor is further down: the tree without it moves to its right.
  pub lift-deep :
      (h : Heap K V) (c cy : Color) (z y : Item K V) (l v : Tree K V) (f : Frame K V)
      (spine path : List (Frame K V)) (root : Link)
      → root ≡ top (some z.address) path
      → Focus h ((f ∷ spine) ++ frame right c z l ∷ path) (node cy y leaf v)
      → Returns
          (lift h root (some z.address) (some y.address) (some f.item.address) (link v))
          (Lifted c cy z y l (plug (f ∷ spine) v) path (some f.item.address))
  unfolding Holds occurs occurs_around
  lift-deep h c cy z y l v f spine path root at_root focus =
      let za = z.address in
      let ya = y.address in
      let g = frame right c z l in
      let rest = (f ∷ spine) ++ g ∷ path in
      let r'' = plug (f ∷ spine) v in
      let (r, run1, (focus1, at_root1, ey, count, ch)) =
        transplant-Focus h right cy y v rest root
          (at_root ∙ sym (top-append (some ya) (f ∷ spine) g path)) focus in
      let whole = append-Focus r.0 (f ∷ spine) (g ∷ path) v focus1 in
      let ((ez, hl, hr), hp, once) = Focus-up r.0 g path r'' whole in
      let (x, at_x) = top-some f.item.address spine in
      let lx : link r'' ≡ some x = link-plug (f ∷ spine) v ∙ at_x in
      let all : (a : ℕ)
          → here ya a + here za a + occurs a l + occurs a r'' + occurs_around a path ≤ 1 =
        λ a. omega (
          arith,
          count a,
          occurs_around-append a (f ∷ spine) (g ∷ path),
          occurs-plug a (f ∷ spine) v,
        ) in
      let other : here f.item.address za ≡ 0 =
        omega (arith, count za, occurs_around-append za (f ∷ spine) (g ∷ path), here_self za) in
      let (h1, run2, (e1, ch1)) =
        update_lem r.0 ya (cell left cy y (some f.item.address) none (link v))
          (with_child right (some x)) ey in
      let hr1 = Holds-frame r.0 h1 (here ya) (some za) r'' ch1 (λ a. omega (arith, all a)) hr in
      let (h2, run3, (hr2, ch2)) =
        link_parent-Holds h1 (some za) (some ya) r'' (λ a. omega (arith, all a)) hr1 in
      let e2 : Cell h2 left cy y (some f.item.address) none (some x) =
        ch2 ya (omega (arith, all ya, here_self ya)) ∙ e1 in
      let ch12 = Changed-trans r.0 h1 h2 (here ya) (λ a. occurs a r'') ch1 ch2 in
      (
        (h2, r.1, some f.item.address),
        lift_run h h1 h2 r root c cy z y f.item.address x (up path) (some f.item.address) none
            (link l) (link v) (same_link-other f.item.address za other) run1
            (subst (λ q. Cell r.0 left c z (up path) (link l) q) lx ez) run2 e1
            (link_parent-update h1 h2 (link r'') x (some ya) lx run3) e2,
        (
          (link r'', ch12 za (omega (arith, all za, here_self za)) ∙ ez),
          Holds-frame r.0 h2 (λ a. here ya a + occurs a r'') (some za) l ch12
              (λ a. omega (arith, all a)) hl,
          (
            some f.item.address,
            (subst (λ q. Cell h2 left cy y (some f.item.address) none q) (sym lx) e2, tt, hr2),
          ),
          HoldsPath-frame r.0 h2 (λ a. here ya a + occurs a r'') (some za) path ch12
              (λ a. omega (arith, all a)) hp,
          at_root1 ∙ top-append (link v) (f ∷ spine) g path,
          refl,
        ),
      )
