-- ===== src/TreeMap/Rotate.antt =====
-- PooledMap.hpp: `rotate_left` and `rotate_right` turn the tree that the heap holds.
use mathlib.Core.Path.{◌≡◌, subst}
use bhcpp_hptool_kit.Base.{ℕ, ◌+◌, ◌≤◌, refl, sym, ◌∙◌, ap, arith, List, some}
use bhcpp_hptool_kit.Base.Run.{ok, Returns}
use bhcpp_hptool_kit.TreeMap.{
  Link, Color, Side, opposite, Node, Heap, update, with_child, with_parent, replace_child, rotate,
  link_parent,
}
use bhcpp_hptool_kit.TreeMap.Shape.{
  Item, Tree, Frame, here, here_self, join, link, cell, Cell, Holds, up, HoldsPath, top, occurs,
  occurs_around, Holds-join, join-Holds, occurs-join, link-join,
}
use bhcpp_hptool_kit.TreeMap.Focus.{Focus}
use bhcpp_hptool_kit.TreeMap.Writes.{
  child-cell, child-opposite-cell, with_child-cell, with_child-opposite-cell, with_parent-cell,
  parent-cell, Changed, Changed-trans, Holds-frame, HoldsPath-frame, read_lem, update_lem,
  link_parent-Holds, replace_child-HoldsPath,
}

module _ {ℓ κ} {K : Type ℓ} {V : Type κ} where
  -- A write to a node.
  pub cell_step :
      (h : Heap K V) (s : Side) (c : Color) (i : Item K V) (p q u p' q' u' : Link)
      (change : Node K V → Node K V)
      → Cell h s c i p q u
      → change (cell s c i p q u) ≡ cell s c i p' q' u'
      → Returns
          (update change h (some i.address))
          λ h'. Cell h' s c i p' q' u' × Changed h h' (here i.address)
  cell_step h s c i p q u p' q' u' change e f =
      let (h', run, (e', same)) = update_lem h i.address (cell s c i p q u) change e in
      (h', run, (e' ∙ ap some f, same))

  -- Two nodes, the three trees below them and the nodes around, one by one.
  abbrev pub Apart : (x y : Item K V) (t u v : Tree K V) (path : List (Frame K V)) → Type 0
  Apart x y t u v path =
      (a : ℕ)
      → here x.address a
          + occurs a t
          + (here y.address a + occurs a u + occurs a v)
          + occurs_around a path
        ≤ 1

  -- A rotation runs as its writes do.
  pub rotate_run :
      (s : Side) (h h1 h2 h3 h5 h6 : Heap K V) (r : Heap K V × Link) (root : Link) (cx cy : Color)
      (x y : Item K V) (p q b c : Link)
      → Cell h s cx x p q (some y.address)
      → Cell h s cy y (some x.address) b c
      → update (with_child (opposite s) b) h (some x.address) ≡ ok h1
      → link_parent h1 b (some x.address) ≡ ok h2
      → Cell h2 s cx x p q b
      → update (with_parent p) h2 (some y.address) ≡ ok h3
      → replace_child s h3 root p (some x.address) (some y.address) ≡ ok r
      → update (with_child s (some x.address)) r.0 (some y.address) ≡ ok h5
      → update (with_parent (some y.address)) h5 (some x.address) ≡ ok h6
      → rotate s h root (some x.address) ≡ ok (h6, r.1)
  unfolding rotate
  rotate_run s h h1 h2 h3 h5 h6 r root cx cy x y p q b c ex ey run1 run2 ex2 run3 run4 run5 run6 =
      rw
        (
          read_lem h x.address _ ex,
          child-opposite-cell s cx x p q (some y.address),
          read_lem h y.address _ ey,
          child-cell s cy y (some x.address) b c,
          run1,
          run2,
          read_lem h2 x.address _ ex2,
          parent-cell s cx x p q b,
          run3,
          run4,
          run5,
          run6,
        )
        refl

  -- The six writes of a rotation, and what they make of each part.
  pub rotate_parts :
      (s : Side) (h : Heap K V) (path : List (Frame K V)) (cx cy : Color) (x y : Item K V)
      (t u v : Tree K V)
      → Apart x y t u v path
      → Cell h s cx x (up path) (link t) (some y.address)
      → Holds h (some x.address) t
      → Cell h s cy y (some x.address) (link u) (link v)
      → Holds h (some y.address) u
      → Holds h (some y.address) v
      → HoldsPath h (some x.address) path
      → Returns (rotate s h (top (some x.address) path) (some x.address)) λ r.
        Cell r.0 s cy y (up path) (some x.address) (link v)
        × Cell r.0 s cx x (some y.address) (link t) (link u)
        × Holds r.0 (some x.address) t
        × Holds r.0 (some x.address) u
        × Holds r.0 (some y.address) v
        × HoldsPath r.0 (some y.address) path
        × (r.1 ≡ top (some y.address) path)
        × Changed h r.0
            (λ a. here x.address a + occurs a u + here y.address a + occurs_around a path)
  rotate_parts s h path cx cy x y t u v count ex ht ey hu hv hp =
      let xa = x.address in
      let ya = y.address in
      let (h1, run1, (ex1, c1)) =
        cell_step h s cx x (up path) (link t) (some ya) (up path) (link t) (link u)
          (with_child (opposite s) (link u)) ex
          (with_child-opposite-cell s cx x (up path) (link t) (some ya) (link u)) in
      let hu1 = Holds-frame h h1 (here xa) (some ya) u c1 (λ a. omega (arith, count a)) hu in
      let (h2, run2, (hu2, c2)) =
        link_parent-Holds h1 (some ya) (some xa) u (λ a. omega (arith, count a)) hu1 in
      let ex2 = c2 xa (omega (arith, count xa, here_self xa)) ∙ ex1 in
      let c12 = Changed-trans h h1 h2 (here xa) (λ a. occurs a u) c1 c2 in
      let ey2 = c12 ya (omega (arith, count ya, here_self ya)) ∙ ey in
      let (h3, run3, (ey3, c3)) =
        cell_step h2 s cy y (some xa) (link u) (link v) (up path) (link u) (link v)
          (with_parent (up path)) ey2
          (with_parent-cell s cy y (some xa) (up path) (link u) (link v)) in
      let c13 = Changed-trans h h2 h3 (λ a. here xa a + occurs a u) (here ya) c12 c3 in
      let hp3 =
        HoldsPath-frame h h3 (λ a. here xa a + occurs a u + here ya a) (some xa) path c13
          (λ a. omega (arith, count a)) hp in
      let (r, run4, (hp4, top4, c4)) =
        replace_child-HoldsPath s h3 xa (some ya) path (λ a. omega (arith, count a)) hp3 in
      let ey4 = c4 ya (omega (arith, count ya, here_self ya)) ∙ ey3 in
      let (h5, run5, (ey5, c5)) =
        cell_step r.0 s cy y (up path) (link u) (link v) (up path) (some xa) (link v)
          (with_child s (some xa)) ey4
          (with_child-cell s cy y (up path) (link u) (some xa) (link v)) in
      let c35 = Changed-trans h3 r.0 h5 (λ a. occurs_around a path) (here ya) c4 c5 in
      let c25 = Changed-trans h2 h3 h5 (here ya) (λ a. occurs_around a path + here ya a) c3 c35 in
      let ex5 = c25 xa (omega (arith, count xa, here_self xa)) ∙ ex2 in
      let (h6, run6, (ex6, c6)) =
        cell_step h5 s cx x (up path) (link t) (link u) (some ya) (link t) (link u)
          (with_parent (some ya)) ex5
          (with_parent-cell s cx x (up path) (some ya) (link t) (link u)) in
      let c26 =
        Changed-trans h2 h5 h6 (λ a. here ya a + (occurs_around a path + here ya a)) (here xa) c25
          c6 in
      let c46 = Changed-trans r.0 h5 h6 (here ya) (here xa) c5 c6 in
      let all : Changed h h6 (λ a. here xa a + occurs a u + here ya a + occurs_around a path) =
        λ a z. c26 a (omega arith) ∙ c12 a (omega arith) in
      let later : ℕ → ℕ = λ a. here ya a + occurs_around a path + here xa a in
      let kept : ℕ → ℕ = λ a. here xa a + occurs a u + here ya a + occurs_around a path in
      (
        (h6, r.1),
        rotate_run s h h1 h2 h3 h5 h6 r (top (some xa) path) cx cy x y (up path) (link t) (link u)
            (link v) ex ey run1 run2 ex2 run3 run4 run5 run6,
        (
          c6 ya (omega (arith, count ya, here_self ya)) ∙ ey5,
          ex6,
          Holds-frame h h6 kept (some xa) t all (λ a. omega (arith, count a)) ht,
          Holds-frame h2 h6 later (some xa) u (λ a z. c26 a (omega arith))
              (λ a. omega (arith, count a)) hu2,
          Holds-frame h h6 kept (some ya) v all (λ a. omega (arith, count a)) hv,
          HoldsPath-frame r.0 h6 (λ a. here ya a + here xa a) (some ya) path c46
              (λ a. omega (arith, count a)) hp4,
          top4,
          all,
        ),
      )

  -- `rotate_left` and `rotate_right` at a node `x` with a child `y` on the side that comes up: `y` takes the
  -- place of `x`, the colours stay with the nodes, and the heap holds the nodes around as before.
  pub rotate_lem :
      (s : Side) (h : Heap K V) (path : List (Frame K V)) (cx cy : Color) (x y : Item K V)
      (t u v : Tree K V)
      → Focus h path (join s cx x t (join s cy y u v))
      → Returns
          (rotate s h (top (some x.address) path) (some x.address))
          λ r. Focus r.0 path (join s cy y (join s cx x t u) v) × (r.1 ≡ top (some y.address) path)
  rotate_lem s h path cx cy x y t u v (holds, around, once) =
      let (ex, ht, hy) = join-Holds h (up path) s cx x t (join s cy y u v) holds in
      let (ey, hu, hv) = join-Holds h (some x.address) s cy y u v hy in
      let count : Apart x y t u v path = λ a.
        omega (arith, once a, occurs-join a s cx x t (join s cy y u v), occurs-join a s cy y u v) in
      let (r, run, (ey', ex', ht', hu', hv', hp', top', same)) =
        rotate_parts s h path cx cy x y t u v count
          (subst (λ q. Cell h s cx x (up path) (link t) q) (link-join s cy y u v) ex) ht ey hu hv
          (subst (λ q. HoldsPath h q path) (link-join s cx x t (join s cy y u v)) around) in
      (
        r,
        run,
        (
          (
            Holds-join r.0 (up path) s cy y (join s cx x t u) v
                (subst (λ q. Cell r.0 s cy y (up path) q (link v)) (sym (link-join s cx x t u)) ey')
                (Holds-join r.0 (some y.address) s cx x t u ex' ht' hu') hv',
            subst (λ q. HoldsPath r.0 q path) (sym (link-join s cy y (join s cx x t u) v)) hp',
            λ a. omega (
              arith,
              count a,
              occurs-join a s cy y (join s cx x t u) v,
              occurs-join a s cx x t u,
            ),
          ),
          top',
        ),
      )
