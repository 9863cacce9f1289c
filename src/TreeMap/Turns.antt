-- ===== src/TreeMap/Turns.antt =====
-- PooledMap.hpp: the rotations of `fix_insert`.
use mathlib.Core.Path.{◌≡◌, subst}
use bhcpp_hptool_kit.Base.{refl, sym, ◌∙◌, ap, arith, List, ◌∷◌, some}
use bhcpp_hptool_kit.Base.Run.{ok, Returns}
use bhcpp_hptool_kit.TreeMap.{Link, Color, red, black, Side, opposite, Heap, turn_inner, turn_outer}
use bhcpp_hptool_kit.TreeMap.Shape.{
  Item, Tree, node, Frame, here_self, join, link, up, top, occurs, occurs_around, join-opposite,
}
use bhcpp_hptool_kit.TreeMap.Writes.{
  child-cell, child-opposite-cell, parent-cell, read_lem, same_link_self, same_link-link,
}
use bhcpp_hptool_kit.TreeMap.Focus.{
  Focus, Focus-up, Focus-down, Focus_cell, Focus_above, recolor_above,
}
use bhcpp_hptool_kit.TreeMap.Rotate.{rotate_lem}
use bhcpp_hptool_kit.TreeMap.Rebalance.{frame, pick, straight}
use bhcpp_hptool_kit.TreeMap.Rounds.{join-pick}

module _ {ℓ κ} {K : Type ℓ} {V : Type κ} where
  -- The second rotation: `q` comes up over `g`.
  pub turn_outer_lem :
      (s : Side) (h : Heap K V) (path : List (Frame K V)) (gc : Color) (q g z : Item K V)
      (qu gu zl zr : Tree K V) (zs : Side) (zc : Color) (root : Link)
      → root ≡ top (some g.address) path
      → Focus h (frame s red q qu ∷ frame s gc g gu ∷ path) (join zs zc z zl zr)
      → Returns (turn_outer s h root (some z.address)) λ r.
        Focus r.0 path (straight s q g (join zs zc z zl zr) qu gu)
        × (r.1 ≡ top (some q.address) path)
  unfolding turn_outer
  turn_outer_lem s h path gc q g z qu gu zl zr zs zc root at_root focus =
      let t = join zs zc z zl zr in
      let ez = Focus_cell h (frame s red q qu ∷ frame s gc g gu ∷ path) zs zc z zl zr focus in
      let (h1, run1, focus1) = recolor_above h s red black q qu (frame s gc g gu ∷ path) t focus in
      let eq = Focus_above h1 (frame s black q qu) (frame s gc g gu ∷ path) t focus1 in
      let (h2, run2, focus2) =
        recolor_above h1 s gc red g gu path (join s black q t qu)
          (Focus-up h1 (frame s black q qu) (frame s gc g gu ∷ path) t focus1) in
      let tree = Focus-up h2 (frame s red g gu) path (join s black q t qu) focus2 in
      let there =
        sym (join-opposite s red g gu (join s black q t qu))
        ∙ ap (λ x. join (opposite s) red g gu x) (sym (join-opposite s black q qu t)) in
      let (r, run3, (focus3, at_root3)) =
        rotate_lem (opposite s) h2 path red black g q gu qu t
          (subst (λ x. Focus h2 path x) there tree) in
      let back =
        join-opposite s black q (join (opposite s) red g gu qu) t
        ∙ ap (λ x. join s black q t x) (join-opposite s red g gu qu) in
      (
        r,
        rw
            (
              read_lem h z.address _ ez,
              parent-cell zs zc z (some q.address) (link zl) (link zr),
              run1,
              read_lem h1 q.address _ eq,
              parent-cell s black q (some g.address) (link t) (link qu),
              run2,
              at_root,
              run3,
            )
            refl,
        (subst (λ x. Focus r.0 path x) back focus3, at_root3),
      )

  -- The first rotation is skipped for a grandchild on the outer side.
  pub turn_inner-outer :
      (s : Side) (h : Heap K V) (path : List (Frame K V)) (f i : Item K V) (l r fu : Tree K V)
      (root : Link)
      → Focus h (frame s red f fu ∷ path) (node red i l r)
      → turn_inner s h root (some f.address) (some i.address) ≡ ok (h, root, some i.address)
  unfolding turn_inner occurs occurs_around
  turn_inner-outer s h path f i l r fu root focus =
      let ef = Focus_above h (frame s red f fu) path (node red i l r) focus in
      let apart : occurs i.address fu ≡ 0 = omega (arith, focus.2 i.address, here_self i.address) in
      rw
        (
          read_lem h f.address _ ef,
          child-opposite-cell s red f (up path) (some i.address) (link fu),
          same_link-link i.address fu apart,
        )
        refl

  -- The first rotation for a grandchild on the inner side.
  pub turn_inner-inner :
      (s : Side) (h : Heap K V) (path : List (Frame K V)) (f i : Item K V) (l r fu : Tree K V)
      (root : Link)
      → root ≡ top (some f.address) path
      → Focus h (frame (opposite s) red f fu ∷ path) (node red i l r)
      → Returns (turn_inner s h root (some f.address) (some i.address)) λ a.
        Focus a.0 (frame s red i (pick (opposite s) l r) ∷ path) (join s red f fu (pick s l r))
        × (a.1 ≡ top (some i.address) path)
        × (a.2 ≡ some f.address)
  unfolding turn_inner
  turn_inner-inner s h path f i l r fu root at_root focus =
      let ef = Focus_above h (frame (opposite s) red f fu) path (node red i l r) focus in
      let there =
        join-opposite s red f (node red i l r) fu
        ∙ ap (λ x. join s red f fu x) (sym (join-pick s red i l r)) in
      let tree = Focus-up h (frame (opposite s) red f fu) path (node red i l r) focus in
      let (a, run, (focus', at_root')) =
        rotate_lem s h path red red f i fu (pick s l r) (pick (opposite s) l r)
          (subst (λ x. Focus h path x) there tree) in
      (
        (a.0, a.1, some f.address),
        rw
            (
              read_lem h f.address _ ef,
              child-cell (opposite s) red f (up path) (some i.address) (link fu),
              same_link_self i.address,
              at_root,
              run,
            )
            refl,
        (
          Focus-down a.0 (frame s red i (pick (opposite s) l r)) path (join s red f fu (pick s l r))
              focus',
          at_root',
          refl,
        ),
      )
