-- ===== src/TreeMap/Repair.antt =====
-- PooledMap.hpp: a round of `fix_erase` below a black sibling, and the end of its loop.
use mathlib.Core.Path.{◌≡◌}
use bhcpp_hptool_kit.Base.{
  ℕ, suc, ◌∙◌, ap, refl, sym, Bool, ◌||◌, List, [], ◌∷◌, some, none, true, false, if◌then◌else◌,
}
use bhcpp_hptool_kit.Base.Run.{ok, Returns}
use bhcpp_hptool_kit.TreeMap.{
  Link, Color, red, black, Side, left, opposite, Heap, is_black, same_link, is_red,
}
use bhcpp_hptool_kit.TreeMap.Shape.{
  Item, Tree, leaf, node, Frame, join, link, up, top, plug, join-opposite, link-join,
}
use bhcpp_hptool_kit.TreeMap.Writes.{
  child-cell, child-opposite-cell, parent-cell, read_lem, same_link_self,
}
use bhcpp_hptool_kit.TreeMap.Focus.{
  Focus, Focus-up, Focus-down, Focus-top, Focus_above, Focus_cell, recolor, link-plug,
}
use bhcpp_hptool_kit.TreeMap.Rebalance.{frame, color_of, blacken, pick}
use bhcpp_hptool_kit.TreeMap.Rounds.{Focus-sibling, is_red-link, is_red-cell, join-pick}
use bhcpp_hptool_kit.TreeMap.FixInsert.{Result}
use bhcpp_hptool_kit.TreeMap.Erase.{blacken_link, turn_far, repair_black, fix_erase}
use bhcpp_hptool_kit.TreeMap.Siblings.{
  sibling_cell, recolor_sibling, with_sibling, turn_far-false, turn_last_lem,
}

or_true : (b : Bool) → (b || true) ≡ true
or_true true = refl
or_true false = refl

module _ {ℓ κ} {K : Type ℓ} {V : Type κ} where
  -- The colours that the round reads of the children of the sibling.
  pub near_color :
      (h : Heap K V) (s s' : Side) (c wc : Color) (i w : Item K V) (a b t : Tree K V)
      (path : List (Frame K V))
      → Focus h (frame s c i (join s' wc w a b) ∷ path) t
      → is_red h (link a) ≡ ok (if is_black (color_of a) then false else true)
  near_color h s s' c wc i w a b t path focus =
      is_red-link h (some w.address) a
        (Focus-down h (frame s' wc w b) (frame (opposite s) c i t ∷ path) a
          (Focus-sibling h s c i (join s' wc w a b) path t focus)).0

  pub far_color :
      (h : Heap K V) (s s' : Side) (c wc : Color) (i w : Item K V) (a b t : Tree K V)
      (path : List (Frame K V))
      → Focus h (frame s c i (join s' wc w a b) ∷ path) t
      → is_red h (link b) ≡ ok (if is_black (color_of b) then false else true)
  far_color h s s' c wc i w a b t path focus = near_color h s (opposite s') c wc i w b a t path (
      with_sibling h s c i (join s' wc w a b) (join (opposite s') wc w b a) t path
        (sym (join-opposite s' wc w b a)) focus)

  -- Two black children: the sibling turns red, and the loop goes on with the parent.
  pub repair_black-recolor :
      (h : Heap K V) (s : Side) (fc : Color) (f w : Item K V) (c d t : Tree K V)
      (path : List (Frame K V)) (root : Link)
      → color_of c ≡ black
      → color_of d ≡ black
      → Focus h (frame s fc f (join s black w c d) ∷ path) t
      → Returns (repair_black s h root (some f.address) (some w.address)) λ r.
        Focus r.0 path (join s fc f t (join s red w c d))
        × (r.1 ≡ root)
        × (r.2 ≡ some f.address)
        × (r.3 ≡ up path)
  unfolding repair_black is_black
  repair_black-recolor h s fc f w c d t path root dark_c dark_d focus =
      let ew = sibling_cell h s s fc black f w c d t path focus in
      let near =
        near_color h s s fc black f w c d t path focus
        ∙ ap (λ x. ok (if is_black x then false else true)) dark_c in
      let far =
        far_color h s s fc black f w c d t path focus
        ∙ ap (λ x. ok (if is_black x then false else true)) dark_d in
      let (h1, run1, focus1) = recolor_sibling h s s fc black red f w c d t path focus in
      let ef = Focus_above h1 (frame s fc f (join s red w c d)) path t focus1 in
      (
        (h1, root, some f.address, up path),
        rw
            (
              read_lem h w.address _ ew,
              child-cell s black w (some f.address) (link c) (link d),
              near,
              child-opposite-cell s black w (some f.address) (link c) (link d),
              far,
              run1,
              read_lem h1 f.address _ ef,
              parent-cell s fc f (up path) (link t) (link (join s red w c d)),
            )
            refl,
        (Focus-up h1 (frame s fc f (join s red w c d)) path t focus1, refl, refl, refl),
      )

  -- The round has rotated the sibling, and the loop goes on with the root.
  abbrev pub Turned : List (Frame K V) → Tree K V → Heap K V × Link × Link × Link → Type (ℓ ⊔ κ)
  Turned path t r = Focus r.0 path t × (r.1 ≡ top (link t) path) × (r.2 ≡ r.1)

  pub repair_black-far :
      (h : Heap K V) (s : Side) (fc : Color) (f w n : Item K V) (c p q t : Tree K V)
      (path : List (Frame K V)) (root : Link)
      → root ≡ top (some f.address) path
      → Focus h (frame s fc f (join s black w c (node red n p q)) ∷ path) t
      → Returns
          (repair_black s h root (some f.address) (some w.address))
          (Turned path (join s fc w (join s black f t c) (node black n p q)))
  unfolding repair_black turn_far is_black
  repair_black-far h s fc f w n c p q t path root at_root focus =
      let d = node red n p q in
      let ew = sibling_cell h s s fc black f w c d t path focus in
      let near = near_color h s s fc black f w c d t path focus in
      let far = far_color h s s fc black f w c d t path focus in
      let (v, run, (focus', at_root')) =
        turn_last_lem h s left fc black red f w n c p q t path root at_root focus in
      (
        (v.0, v.1, v.1, some f.address),
        rw
            (
              read_lem h w.address _ ew,
              child-cell s black w (some f.address) (link c) (link d),
              near,
              child-opposite-cell s black w (some f.address) (link c) (link d),
              far,
              or_true (if is_black (color_of c) then false else true),
              run,
            )
            refl,
        (
          focus',
          at_root'
              ∙ ap (λ x. top x path)
                  (sym (link-join s fc w (join s black f t c) (node black n p q))),
          refl,
        ),
      )

  pub repair_black-near :
      (h : Heap K V) (s : Side) (fc : Color) (f w n : Item K V) (a b d t : Tree K V)
      (path : List (Frame K V)) (root : Link)
      → color_of d ≡ black
      → root ≡ top (some f.address) path
      → Focus h (frame s fc f (join s black w (node red n a b) d) ∷ path) t
      → Returns (repair_black s h root (some f.address) (some w.address)) (
          Turned path (
            join s fc n (join s black f t (pick s a b)) (join s black w (pick (opposite s) a b) d)))
  unfolding repair_black is_black
  repair_black-near h s fc f w n a b d t path root dark at_root focus =
      let c = node red n a b in
      let a' = pick s a b in
      let b' = pick (opposite s) a b in
      let ew = sibling_cell h s s fc black f w c d t path focus in
      let near = near_color h s s fc black f w c d t path focus in
      let far =
        far_color h s s fc black f w c d t path focus
        ∙ ap (λ x. ok (if is_black x then false else true)) dark in
      let (u, run1, (focus1, at_root1, at_n)) =
        turn_far-false h s fc black red f w n a' b' d t path root at_root (
          with_sibling h s fc f (join s black w c d) (join s black w (join s red n a' b') d) t path
            (ap (λ x. join s black w x d) (sym (join-pick s red n a b))) focus) in
      let (v, run2, (focus2, at_root2)) =
        turn_last_lem u.0 s s fc black red f n w a' b' d t path u.1 at_root1 focus1 in
      (
        (v.0, v.1, v.1, some f.address),
        rw
            (
              read_lem h w.address _ ew,
              child-cell s black w (some f.address) (some n.address) (link d),
              near,
              child-opposite-cell s black w (some f.address) (some n.address) (link d),
              far,
              run1,
              at_n,
              run2,
            )
            refl,
        (
          focus2,
          at_root2
              ∙ ap (λ x. top x path)
                  (sym (link-join s fc n (join s black f t a') (join s black w b' d))),
          refl,
        ),
      )

  -- The loop ends at the root.
  pub erase_end-root :
      (fuel : ℕ) (h : Heap K V) (t : Tree K V) (xp : Link)
      → Focus h [] t
      → Returns (fix_erase (suc fuel) h (link t) (link t) xp) λ r. Result r (blacken t)
  unfolding fix_erase blacken_link same_link is_red
  erase_end-root fuel h leaf xp focus = ((h, none), refl, (focus, refl))
  erase_end-root fuel h (node c i l r) xp focus =
      let (h', run, focus') = recolor h [] left c black i l r focus in
      (
        (h', some i.address),
        rw (is_red-link h none (node c i l r) focus.0, same_link_self i.address, run) refl,
        (focus', refl),
      )

  -- The loop ends at a red node.
  pub erase_end-red :
      (fuel : ℕ) (h : Heap K V) (path : List (Frame K V)) (s : Side) (i : Item K V) (l r : Tree K V)
      (root xp : Link)
      → root ≡ top (some i.address) path
      → Focus h path (join s red i l r)
      → Returns
          (fix_erase (suc fuel) h root (some i.address) xp)
          λ b. Result b (plug path (join s black i l r))
  unfolding fix_erase blacken_link is_black
  erase_end-red fuel h path s i l r root xp at_root focus =
      let (h', run, focus') = recolor h path s red black i l r focus in
      let e =
        is_red-cell h s red i (up path) (link l) (link r) (Focus_cell h path s red i l r focus) in
      (
        (h', root),
        rw (e, or_true (same_link (some i.address) root), run) refl,
        (
          Focus-top h' path (join s black i l r) focus',
          at_root
              ∙ ap (λ x. top x path) (sym (link-join s black i l r))
              ∙ sym (link-plug path (join s black i l r)),
        ),
      )
