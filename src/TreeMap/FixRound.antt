-- ===== src/TreeMap/FixRound.antt =====
-- PooledMap.hpp: a round of the loop of `fix_insert`.
use mathlib.Core.Path.{◌≡◌, subst}
use bhcpp_hptool_kit.Base.{refl, ◌∙◌, ap, arith, List, ◌∷◌, some, true, false, if◌then◌else◌}
use bhcpp_hptool_kit.Base.Run.{ok, Returns}
use bhcpp_hptool_kit.TreeMap.{
  Link, Color, red, black, Side, left, opposite, Heap, is_black, is_red, turn_inner, turn_outer,
  fix_round,
}
use bhcpp_hptool_kit.TreeMap.Shape.{
  Item, Tree, node, Frame, here_self, join, link, Cell, up, top, occurs, occurs_around, link-join,
}
use bhcpp_hptool_kit.TreeMap.Writes.{child-opposite-cell, read_lem, replaced_side}
use bhcpp_hptool_kit.TreeMap.Focus.{Focus, Focus-up, Focus_above, recolor, recolor_above}
use bhcpp_hptool_kit.TreeMap.Rebalance.{frame, color_of, pick, straight, bent}
use bhcpp_hptool_kit.TreeMap.Rounds.{Focus-sibling, sibling-Focus, is_red-link}
use bhcpp_hptool_kit.TreeMap.Turns.{turn_outer_lem, turn_inner-outer, turn_inner-inner}

module _ {ℓ κ} {K : Type ℓ} {V : Type κ} where
  -- What a round reads of the grandparent: the side of the parent, and the uncle.
  pub uncle_apart :
      (h : Heap K V) (fs gs : Side) (fc gc : Color) (f g : Item K V) (t fu gu : Tree K V)
      (path : List (Frame K V))
      → Focus h (frame fs fc f fu ∷ frame gs gc g gu ∷ path) t
      → occurs f.address gu ≡ 0
  unfolding occurs_around
  uncle_apart h fs gs fc gc f g t fu gu path focus =
      omega (arith, focus.2 f.address, here_self f.address)

  pub grand_cell :
      (h : Heap K V) (fs gs : Side) (fc gc : Color) (f g : Item K V) (t fu gu : Tree K V)
      (path : List (Frame K V))
      → Focus h (frame fs fc f fu ∷ frame gs gc g gu ∷ path) t
      → Cell h gs gc g (up path) (some f.address) (link gu)
  grand_cell h fs gs fc gc f g t fu gu path focus =
      subst (λ q. Cell h gs gc g (up path) q (link gu)) (link-join fs fc f t fu)
        (Focus_above h (frame gs gc g gu) path (join fs fc f t fu)
          (Focus-up h (frame fs fc f fu) (frame gs gc g gu ∷ path) t focus))

  -- The colour that the round reads of the uncle.
  pub uncle_color :
      (h : Heap K V) (fs gs : Side) (fc gc : Color) (f g : Item K V) (t fu gu : Tree K V)
      (path : List (Frame K V))
      → Focus h (frame fs fc f fu ∷ frame gs gc g gu ∷ path) t
      → is_red h (link gu) ≡ ok (if is_black (color_of gu) then false else true)
  uncle_color h fs gs fc gc f g t fu gu path focus =
      is_red-link h (some g.address) gu
        (Focus-sibling h gs gc g gu path (join fs fc f t fu)
          (Focus-up h (frame fs fc f fu) (frame gs gc g gu ∷ path) t focus)).0

  -- A red uncle: the colours change, and the loop goes on with the grandparent.
  pub fix_round_climb :
      (h : Heap K V) (root : Link) (fs gs : Side) (gc : Color) (f g i u : Item K V)
      (l r fu ul ur : Tree K V) (path : List (Frame K V))
      → Focus h (frame fs red f fu ∷ frame gs gc g (node red u ul ur) ∷ path) (node red i l r)
      → Returns (fix_round h root (some g.address) (some f.address) (some i.address)) λ a.
        Focus a.0 path (join gs red g (join fs black f (node red i l r) fu) (node black u ul ur))
        × (a.1 ≡ root)
        × (a.2 ≡ some g.address)
  unfolding fix_round is_black
  fix_round_climb h root fs gs gc f g i u l r fu ul ur path focus =
      let z = node red i l r in
      let gu = node red u ul ur in
      let apart = uncle_apart h fs gs red gc f g z fu gu path focus in
      let at_f = Focus-up h (frame fs red f fu) (frame gs gc g gu ∷ path) z focus in
      let (h1, run1, focus1) = recolor h (frame gs gc g gu ∷ path) fs red black f z fu at_f in
      let p = join fs black f z fu in
      let (h2, run2, focus2) =
        recolor h1 (frame (opposite gs) gc g p ∷ path) left red black u ul ur
          (Focus-sibling h1 gs gc g gu path p focus1) in
      let (h3, run3, focus3) =
        recolor_above h2 gs gc red g (node black u ul ur) path p
          (sibling-Focus h2 gs gc g (node black u ul ur) path p focus2) in
      (
        (h3, root, some g.address),
        rw
            (
              read_lem h g.address _ (grand_cell h fs gs red gc f g z fu gu path focus),
              replaced_side left gs gc g (up path) f.address gu apart,
              child-opposite-cell gs gc g (up path) (some f.address) (some u.address),
              uncle_color h fs gs red gc f g z fu gu path focus,
              run1,
              run2,
              run3,
            )
            refl,
        (Focus-up h3 (frame gs red g (node black u ul ur)) path p focus3, refl, refl),
      )

  -- The course of a round that rotates.
  pub turn_run :
      (h h1 : Heap K V) (root root1 : Link) (gs : Side) (gc : Color) (f g : Item K V)
      (p z z1 : Link) (gu : Tree K V) (a : Heap K V × Link)
      → Cell h gs gc g p (some f.address) (link gu)
      → occurs f.address gu ≡ 0
      → is_red h (link gu) ≡ ok false
      → turn_inner gs h root (some f.address) z ≡ ok (h1, root1, z1)
      → turn_outer gs h1 root1 z1 ≡ ok a
      → fix_round h root (some g.address) (some f.address) z ≡ ok (a.0, a.1, z1)
  unfolding fix_round
  turn_run h h1 root root1 gs gc f g p z z1 gu a e apart uncle run1 run2 =
      rw
        (
          read_lem h g.address _ e,
          replaced_side left gs gc g p f.address gu apart,
          child-opposite-cell gs gc g p (some f.address) (link gu),
          uncle,
          run1,
          run2,
        )
        refl

  -- A round that rotates once.
  pub fix_round-straight :
      (s : Side) (h : Heap K V) (root : Link) (gc : Color) (f g i : Item K V) (l r fu gu : Tree K V)
      (path : List (Frame K V))
      → color_of gu ≡ black
      → root ≡ top (some g.address) path
      → Focus h (frame s red f fu ∷ frame s gc g gu ∷ path) (node red i l r)
      → Returns (fix_round h root (some g.address) (some f.address) (some i.address)) λ a.
        Focus a.0 path (straight s f g (node red i l r) fu gu)
        × (a.1 ≡ top (some f.address) path)
        × (a.2 ≡ some i.address)
  unfolding is_black
  fix_round-straight s h root gc f g i l r fu gu path dark at_root focus =
      let z = node red i l r in
      let (a, run, (focus', at_root')) =
        turn_outer_lem s h path gc f g i fu gu l r left red root at_root focus in
      (
        (a.0, a.1, some i.address),
        turn_run h h root root s gc f g (up path) (some i.address) (some i.address) gu a
            (grand_cell h s s red gc f g z fu gu path focus)
            (uncle_apart h s s red gc f g z fu gu path focus)
            (uncle_color h s s red gc f g z fu gu path focus
              ∙ ap (λ c. ok (if is_black c then false else true)) dark)
            (turn_inner-outer s h (frame s gc g gu ∷ path) f i l r fu root focus) run,
        (focus', at_root', refl),
      )

  -- A round that rotates twice.
  pub fix_round-bent :
      (s : Side) (h : Heap K V) (root : Link) (gc : Color) (f g i : Item K V) (l r fu gu : Tree K V)
      (path : List (Frame K V))
      → color_of gu ≡ black
      → root ≡ top (some g.address) path
      → Focus h (frame (opposite s) red f fu ∷ frame s gc g gu ∷ path) (node red i l r)
      → Returns (fix_round h root (some g.address) (some f.address) (some i.address)) λ a.
        Focus a.0 path (bent s f g i l r fu gu)
        × (a.1 ≡ top (some i.address) path)
        × (a.2 ≡ some f.address)
  unfolding is_black
  fix_round-bent s h root gc f g i l r fu gu path dark at_root focus =
      let z = node red i l r in
      let os = opposite s in
      let (b, run1, (focus1, at_root1, at_f)) =
        turn_inner-inner s h (frame s gc g gu ∷ path) f i l r fu root at_root focus in
      let (a, run2, (focus2, at_root2)) =
        turn_outer_lem s b.0 path gc i g f (pick os l r) gu fu (pick s l r) s red b.1 at_root1
          focus1 in
      (
        (a.0, a.1, some f.address),
        turn_run h b.0 root b.1 s gc f g (up path) (some i.address) (some f.address) gu a
            (grand_cell h os s red gc f g z fu gu path focus)
            (uncle_apart h os s red gc f g z fu gu path focus)
            (uncle_color h os s red gc f g z fu gu path focus
              ∙ ap (λ c. ok (if is_black c then false else true)) dark)
            (run1 ∙ ap (λ p. ok (b.0, b.1, p)) at_f) run2,
        (focus2, at_root2, refl),
      )
