-- ===== src/TreeMap/Unlink.antt =====
-- PooledMap.hpp: `erase` takes a node out of the tree.
use mathlib.Core.Path.{◌≡◌, subst}
use bhcpp_hptool_kit.Base.{ℕ, ◌+◌, ◌≤◌, ◌∙◌, refl, arith, List, [], ◌∷◌, ◌++◌, some, none}
use bhcpp_hptool_kit.Base.Run.{ok, Returns}
use bhcpp_hptool_kit.TreeMap.{
  Link, Color, Side, left, Heap, with_child, with_parent, with_color, update, link_parent,
}
use bhcpp_hptool_kit.TreeMap.Shape.{
  Item, Tree, leaf, node, Frame, here, here_self, join, link, cell, Cell, Holds, up, HoldsPath, top,
  plug, occurs, occurs_around, join-Holds, occurs-join, link-join,
}
use bhcpp_hptool_kit.TreeMap.Writes.{
  parent-cell, Changed, Changed-trans, Holds-frame, HoldsPath-frame, read_lem, update_lem,
  link_parent-Holds, replace_child-HoldsPath,
}
use bhcpp_hptool_kit.TreeMap.Focus.{Focus, Focus-up, Focus-down}
use bhcpp_hptool_kit.TreeMap.Erase.{take_place, transplant}

module _ {ℓ κ} {K : Type ℓ} {V : Type κ} where
  pub Focus-frame :
      (h h' : Heap K V) (n : ℕ → ℕ) (path : List (Frame K V)) (t : Tree K V)
      → Changed h h' n
      → ((a : ℕ) → occurs a t + occurs_around a path + n a ≤ 1)
      → Focus h path t
      → Focus h' path t
  Focus-frame h h' n path t same apart (holds, around, once) = (
    Holds-frame h h' n (up path) t same (λ a. omega (arith, apart a)) holds,
    HoldsPath-frame h h' n (link t) path same (λ a. omega (arith, apart a)) around,
    once,
  )

  -- The tree below `v` takes the place of the node `i`, whose record stays as it was.
  pub transplant_parts :
      (h : Heap K V) (s : Side) (c : Color) (i : Item K V) (p q u : Link) (v : Tree K V)
      (path : List (Frame K V)) (root : Link)
      → root ≡ top (some i.address) path
      → ((a : ℕ) → here i.address a + occurs a v + occurs_around a path ≤ 1)
      → Cell h s c i (up path) q u
      → Holds h p v
      → HoldsPath h (some i.address) path
      → Returns (transplant h root (some i.address) (link v)) λ r.
        Focus r.0 path v
        × (r.1 ≡ top (link v) path)
        × Changed h r.0 (λ a. occurs a v + occurs_around a path)
  unfolding transplant
  transplant_parts h s c i p q u v path root at_root count e hv hp =
      let (r, run1, (hp', at_root', ch1)) =
        replace_child-HoldsPath left h i.address (link v) path (λ a. omega (arith, count a)) hp in
      let hv1 =
        Holds-frame h r.0 (λ a. occurs_around a path) p v ch1 (λ a. omega (arith, count a)) hv in
      let e1 : Cell r.0 s c i (up path) q u =
        ch1 i.address (omega (arith, count i.address, here_self i.address)) ∙ e in
      let (h2, run2, (hv2, ch2)) =
        link_parent-Holds r.0 p (up path) v (λ a. omega (arith, count a)) hv1 in
      (
        (h2, r.1),
        rw
            (
              read_lem h i.address _ e,
              parent-cell s c i (up path) q u,
              at_root,
              run1,
              read_lem r.0 i.address _ e1,
              parent-cell s c i (up path) q u,
              run2,
            )
            refl,
        (
          (
            hv2,
            HoldsPath-frame r.0 h2 (λ a. occurs a v) (link v) path ch2 (λ a. omega (arith, count a))
                hp',
            λ a. omega (arith, count a),
          ),
          at_root',
          λ a z. ch2 a (omega (arith, z)) ∙ ch1 a (omega (arith, z)),
        ),
      )

  -- A node without a child on one side.
  pub transplant-Focus :
      (h : Heap K V) (s : Side) (c : Color) (i : Item K V) (v : Tree K V) (path : List (Frame K V))
      (root : Link)
      → root ≡ top (some i.address) path
      → Focus h path (join s c i v leaf)
      → Returns (transplant h root (some i.address) (link v)) λ r.
        Focus r.0 path v
        × (r.1 ≡ top (link v) path)
        × Cell r.0 s c i (up path) (link v) none
        × ((a : ℕ) → here i.address a + occurs a v + occurs_around a path ≤ 1)
        × Changed h r.0 (λ a. occurs a v + occurs_around a path)
  unfolding occurs
  transplant-Focus h s c i v path root at_root (holds, around, once) =
      let (e, hv, hl) = join-Holds h (up path) s c i v leaf holds in
      let count : (a : ℕ) → here i.address a + occurs a v + occurs_around a path ≤ 1 =
        λ a. omega (arith, once a, occurs-join a s c i v leaf) in
      let (r, run, (focus, at_root', ch)) =
        transplant_parts h s c i (some i.address) (link v) none v path root at_root count e hv
          (subst (λ q. HoldsPath h q path) (link-join s c i v leaf) around) in
      (
        r,
        run,
        (
          focus,
          at_root',
          ch i.address (omega (arith, count i.address, here_self i.address)) ∙ e,
          count,
          ch,
        ),
      )

  pub take_place_run :
      (h h2 h3 h4 : Heap K V) (r : Heap K V × Link) (root : Link) (c cy : Color) (z y : Item K V)
      (p q u v : Link) (x : ℕ)
      → transplant h root (some z.address) (some y.address) ≡ ok r
      → Cell r.0 left c z p (some x) u
      → update (with_child left (some x)) r.0 (some y.address) ≡ ok h2
      → Cell h2 left cy y q (some x) v
      → update (with_parent (some y.address)) h2 (some x) ≡ ok h3
      → Cell h3 left c z p (some x) u
      → update (with_color c) h3 (some y.address) ≡ ok h4
      → take_place h root (some z.address) (some y.address) ≡ ok (h4, r.1)
  unfolding take_place
  take_place_run h h2 h3 h4 r root c cy z y p q u v x run1 ez run2 ey run3 ez' run4 =
      rw
        (
          run1,
          read_lem r.0 z.address _ ez,
          run2,
          read_lem h2 y.address _ ey,
          run3,
          read_lem h3 z.address _ ez',
          run4,
        )
        refl

  -- The last writes for a node `z` with two children: `y` takes its place, above the trees `l` and `v`.
  pub take_place_lem :
      (h : Heap K V) (c cy : Color) (z y : Item K V) (p u : Link) (l v : Tree K V)
      (path : List (Frame K V)) (root : Link) (x : ℕ)
      → root ≡ top (some z.address) path
      → ((a : ℕ)
          → here z.address a + here y.address a + occurs a l + occurs a v + occurs_around a path
            ≤ 1)
      → link l ≡ some x
      → Cell h left c z (up path) (link l) u
      → Holds h (some z.address) l
      → Holds h p (node cy y leaf v)
      → HoldsPath h (some z.address) path
      → Returns (take_place h root (some z.address) (some y.address)) λ r.
        Focus r.0 path (node c y l v)
        × (r.1 ≡ top (some y.address) path)
        × Cell r.0 left c z (up path) (link l) u
  unfolding Holds occurs link_parent
  take_place_lem h c cy z y p u l v path root x at_root count lx ez hl hy hp =
      let za = z.address in
      let ya = y.address in
      let (r, run1, ((hy1, hp1, once1), at_root1, ch1)) =
        transplant_parts h left c z p (link l) u (node cy y leaf v) path root at_root
          (λ a. omega (arith, count a)) ez hy hp in
      let ez1 : Cell r.0 left c z (up path) (link l) u =
        ch1 za (omega (arith, count za, here_self za)) ∙ ez in
      let hl1 =
        Holds-frame h r.0 (λ a. here ya a + occurs a v + occurs_around a path) (some za) l
          (λ a e. ch1 a (omega (arith, e))) (λ a. omega (arith, count a)) hl in
      let (h2, run2, (ey2, ch2)) =
        update_lem r.0 ya (cell left cy y (up path) none (link v)) (with_child left (link l))
          hy1.0 in
      let hl2 = Holds-frame r.0 h2 (here ya) (some za) l ch2 (λ a. omega (arith, count a)) hl1 in
      let (h3, run3, (hl3, ch3)) =
        link_parent-Holds h2 (some za) (some ya) l (λ a. omega (arith, count a)) hl2 in
      let ey3 : Cell h3 left cy y (up path) (link l) (link v) =
        ch3 ya (omega (arith, count ya, here_self ya)) ∙ ey2 in
      let ch13 = Changed-trans r.0 h2 h3 (here ya) (λ a. occurs a l) ch2 ch3 in
      let ez3 : Cell h3 left c z (up path) (link l) u =
        ch13 za (omega (arith, count za, here_self za)) ∙ ez1 in
      let (h4, run4, (ey4, ch4)) =
        update_lem h3 ya (cell left cy y (up path) (link l) (link v)) (with_color c) ey3 in
      let ch24 : Changed r.0 h4 (λ a. here ya a + occurs a l) =
        λ a e. ch4 a (omega (arith, e)) ∙ ch13 a (omega (arith, e)) in
      (
        (h4, r.1),
        take_place_run h h2 h3 h4 r root c cy z y (up path) (up path) u (link v) x run1
            (subst (λ q. Cell r.0 left c z (up path) q u) lx ez1)
            (subst (λ q. update (with_child left q) r.0 (some ya) ≡ ok h2) lx run2)
            (subst (λ q. Cell h2 left cy y (up path) q (link v)) lx ey2)
            (subst (λ q. link_parent h2 q (some ya) ≡ ok h3) lx run3)
            (subst (λ q. Cell h3 left c z (up path) q u) lx ez3) run4,
        (
          (
            (
              ey4,
              Holds-frame h3 h4 (here ya) (some ya) l ch4 (λ a. omega (arith, count a)) hl3,
              Holds-frame r.0 h4 (λ a. here ya a + occurs a l) (some ya) v ch24
                  (λ a. omega (arith, count a)) hy1.2,
            ),
            HoldsPath-frame r.0 h4 (λ a. here ya a + occurs a l) (some ya) path ch24
                (λ a. omega (arith, count a)) hp1,
            λ a. omega (arith, count a),
          ),
          at_root1,
          ch4 za (omega (arith, count za, here_self za)) ∙ ez3,
        ),
      )

  pub append-Focus :
      (h : Heap K V) (spine path : List (Frame K V)) (t : Tree K V)
      → Focus h (spine ++ path) t
      → Focus h path (plug spine t)
  append-Focus h [] path t focus = focus
  append-Focus h (f ∷ spine) path t focus =
      append-Focus h spine path (join f.side f.color f.item t f.sibling)
        (Focus-up h f (spine ++ path) t focus)

  pub Focus-append :
      (h : Heap K V) (spine path : List (Frame K V)) (t : Tree K V)
      → Focus h path (plug spine t)
      → Focus h (spine ++ path) t
  Focus-append h [] path t focus = focus
  Focus-append h (f ∷ spine) path t focus =
      Focus-down h f (spine ++ path) t
        (Focus-append h spine path (join f.side f.color f.item t f.sibling) focus)
