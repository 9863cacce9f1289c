-- ===== src/TreeMap/Siblings.antt =====
-- PooledMap.hpp: the rotations of `fix_erase` around the sibling of `x`.
use mathlib.Core.Path.{◌≡◌, subst}
use bhcpp_hptool_kit.Base.{◌∙◌, ap, refl, sym, List, ◌∷◌, some, false}
use bhcpp_hptool_kit.Base.Run.{ok, Returns}
use bhcpp_hptool_kit.TreeMap.{
  Link, Color, red, black, Side, opposite, Heap, is_black, with_color, update,
}
use bhcpp_hptool_kit.TreeMap.Shape.{
  Item, Tree, Frame, join, link, Cell, up, top, join-opposite, link-join,
}
use bhcpp_hptool_kit.TreeMap.Writes.{child-opposite-cell, color-cell, read_lem}
use bhcpp_hptool_kit.TreeMap.Focus.{
  Focus, Focus-up, Focus-down, Focus_cell, Focus_above, recolor, recolor_above,
}
use bhcpp_hptool_kit.TreeMap.Rotate.{rotate_lem}
use bhcpp_hptool_kit.TreeMap.Rebalance.{frame}
use bhcpp_hptool_kit.TreeMap.Rounds.{Focus-sibling, sibling-Focus, is_red-cell}
use bhcpp_hptool_kit.TreeMap.Erase.{blacken_link, turn_sibling, turn_far, turn_last}

module _ {ℓ κ} {K : Type ℓ} {V : Type κ} where
  -- The record of the sibling, and writes to the colours of the sibling and of its children.
  pub sibling_cell :
      (h : Heap K V) (s s' : Side) (c wc : Color) (i w : Item K V) (a b t : Tree K V)
      (path : List (Frame K V))
      → Focus h (frame s c i (join s' wc w a b) ∷ path) t
      → Cell h s' wc w (some i.address) (link a) (link b)
  sibling_cell h s s' c wc i w a b t path focus =
      Focus_cell h (frame (opposite s) c i t ∷ path) s' wc w a b
        (Focus-sibling h s c i (join s' wc w a b) path t focus)

  pub recolor_sibling :
      (h : Heap K V) (s s' : Side) (c wc wc' : Color) (i w : Item K V) (a b t : Tree K V)
      (path : List (Frame K V))
      → Focus h (frame s c i (join s' wc w a b) ∷ path) t
      → Returns
          (update (with_color wc') h (some w.address))
          λ h'. Focus h' (frame s c i (join s' wc' w a b) ∷ path) t
  recolor_sibling h s s' c wc wc' i w a b t path focus =
      let (h', run, focus') =
        recolor h (frame (opposite s) c i t ∷ path) s' wc wc' w a b
          (Focus-sibling h s c i (join s' wc w a b) path t focus) in
      (h', run, sibling-Focus h' s c i (join s' wc' w a b) path t focus')

  pub recolor_nephew :
      (h : Heap K V) (s s1 s2 : Side) (c wc nc nc' : Color) (i w n : Item K V) (a b u t : Tree K V)
      (path : List (Frame K V))
      → Focus h (frame s c i (join s1 wc w (join s2 nc n a b) u) ∷ path) t
      → Returns
          (update (with_color nc') h (some n.address))
          λ h'. Focus h' (frame s c i (join s1 wc w (join s2 nc' n a b) u) ∷ path) t
  recolor_nephew h s s1 s2 c wc nc nc' i w n a b u t path focus =
      let above = frame (opposite s) c i t ∷ path in
      let at_w = Focus-sibling h s c i (join s1 wc w (join s2 nc n a b) u) path t focus in
      let (h', run, focus') =
        recolor h (frame s1 wc w u ∷ above) s2 nc nc' n a b
          (Focus-down h (frame s1 wc w u) above (join s2 nc n a b) at_w) in
      (
        h',
        run,
        sibling-Focus h' s c i (join s1 wc w (join s2 nc' n a b) u) path t
            (Focus-up h' (frame s1 wc w u) above (join s2 nc' n a b) focus'),
      )

  -- Another way to write the sibling.
  pub with_sibling :
      (h : Heap K V) (s : Side) (c : Color) (i : Item K V) (u u' t : Tree K V)
      (path : List (Frame K V))
      → u ≡ u'
      → Focus h (frame s c i u ∷ path) t
      → Focus h (frame s c i u' ∷ path) t
  with_sibling h s c i u u' t path e focus = subst (λ x. Focus h (frame s c i x ∷ path) t) e focus

  -- A red sibling comes up, and its near child is the sibling then.
  pub turn_sibling-red :
      (h : Heap K V) (s : Side) (fc : Color) (f w : Item K V) (c d t : Tree K V)
      (path : List (Frame K V)) (root : Link)
      → root ≡ top (some f.address) path
      → Focus h (frame s fc f (join s red w c d) ∷ path) t
      → Returns (turn_sibling s h root (some f.address) (some w.address)) λ r.
        Focus r.0 (frame s red f c ∷ frame s black w d ∷ path) t
        × (r.1 ≡ top (some w.address) path)
        × (r.2 ≡ link c)
  unfolding turn_sibling is_black
  turn_sibling-red h s fc f w c d t path root at_root focus =
      let dark =
        is_red-cell h s red w (some f.address) (link c) (link d)
          (sibling_cell h s s fc red f w c d t path focus) in
      let (h1, run1, focus1) = recolor_sibling h s s fc red black f w c d t path focus in
      let (h2, run2, focus2) = recolor_above h1 s fc red f (join s black w c d) path t focus1 in
      let (r, run3, (focus3, at_root3)) =
        rotate_lem s h2 path red black f w t c d
          (Focus-up h2 (frame s red f (join s black w c d)) path t focus2) in
      let below =
        Focus-down r.0 (frame s red f c) (frame s black w d ∷ path) t
          (Focus-down r.0 (frame s black w d) path (join s red f t c) focus3) in
      let ef = Focus_above r.0 (frame s red f c) (frame s black w d ∷ path) t below in
      (
        (r.0, r.1, link c),
        rw
            (
              dark,
              run1,
              run2,
              at_root,
              run3,
              read_lem r.0 f.address _ ef,
              child-opposite-cell s red f (some w.address) (link t) (link c),
            )
            refl,
        (below, at_root3, refl),
      )

  pub turn_sibling-black :
      (h : Heap K V) (s : Side) (fc : Color) (f w : Item K V) (c d t : Tree K V)
      (path : List (Frame K V)) (root : Link)
      → Focus h (frame s fc f (join s black w c d) ∷ path) t
      → turn_sibling s h root (some f.address) (some w.address) ≡ ok (h, root, some w.address)
  unfolding turn_sibling is_black
  turn_sibling-black h s fc f w c d t path root focus =
      rw
        (is_red-cell h s black w (some f.address) (link c) (link d)
          (sibling_cell h s s fc black f w c d t path focus))
        refl

  -- The near child of the sibling comes up over it.
  pub turn_far-false :
      (h : Heap K V) (s : Side) (fc wc nc : Color) (f w n : Item K V) (a b d t : Tree K V)
      (path : List (Frame K V)) (root : Link)
      → root ≡ top (some f.address) path
      → Focus h (frame s fc f (join s wc w (join s nc n a b) d) ∷ path) t
      → Returns (turn_far s h root (some f.address) (some w.address) (some n.address) false) λ r.
        Focus r.0 (frame s fc f (join s black n a (join s red w b d)) ∷ path) t
        × (r.1 ≡ top (some f.address) path)
        × (r.2 ≡ some n.address)
  unfolding turn_far blacken_link
  turn_far-false h s fc wc nc f w n a b d t path root at_root focus =
      let o = opposite s in
      let (h1, run1, focus1) = recolor_nephew h s s s fc wc nc black f w n a b d t path focus in
      let (h2, run2, focus2) =
        recolor_sibling h1 s s fc wc red f w (join s black n a b) d t path focus1 in
      let there =
        sym (join-opposite s red w d (join s black n a b))
        ∙ ap (λ x. join o red w d x) (sym (join-opposite s black n b a)) in
      let (r, run3, (focus3, at_root3)) =
        rotate_lem o h2 (frame o fc f t ∷ path) red black w n d b a (
          subst (λ x. Focus h2 (frame o fc f t ∷ path) x) there
            (Focus-sibling h2 s fc f (join s red w (join s black n a b) d) path t focus2)) in
      let back =
        join-opposite s black n (join o red w d b) a
        ∙ ap (λ x. join s black n a x) (join-opposite s red w d b) in
      let after =
        sibling-Focus r.0 s fc f (join s black n a (join s red w b d)) path t
          (subst (λ x. Focus r.0 (frame o fc f t ∷ path) x) back focus3) in
      let ef = Focus_above r.0 (frame s fc f (join s black n a (join s red w b d))) path t after in
      let up_link = link-join s black n a (join s red w b d) in
      (
        (r.0, r.1, some n.address),
        rw
            (
              run1,
              run2,
              at_root,
              run3,
              read_lem r.0 f.address _ ef,
              child-opposite-cell s fc f (up path) (link t)
                  (link (join s black n a (join s red w b d))),
              up_link,
            )
            refl,
        (after, at_root3, refl),
      )

  -- The sibling comes up over the parent, in the parent's colour.
  pub turn_last_lem :
      (h : Heap K V) (s s' : Side) (fc wc dc : Color) (f w n : Item K V) (c a b t : Tree K V)
      (path : List (Frame K V)) (root : Link)
      → root ≡ top (some f.address) path
      → Focus h (frame s fc f (join s wc w c (join s' dc n a b)) ∷ path) t
      → Returns (turn_last s h root (some f.address) (some w.address)) λ r.
        Focus r.0 path (join s fc w (join s black f t c) (join s' black n a b))
        × (r.1 ≡ top (some w.address) path)
  unfolding turn_last blacken_link
  turn_last_lem h s s' fc wc dc f w n c a b t path root at_root focus =
      let far = join s' dc n a b in
      let o = opposite s in
      let ef = Focus_above h (frame s fc f (join s wc w c far)) path t focus in
      let (h1, run1, focus1) = recolor_sibling h s s fc wc fc f w c far t path focus in
      let (h2, run2, focus2) = recolor_above h1 s fc black f (join s fc w c far) path t focus1 in
      let ew = sibling_cell h2 s s black fc f w c far t path focus2 in
      let (h3, run3, focus3) = recolor_nephew h2 s o s' black fc dc black f w n a b c t path (
        with_sibling h2 s black f (join s fc w c far) (join o fc w far c) t path
          (sym (join-opposite s fc w far c)) focus2) in
      let tree = Focus-up h3 (frame s black f (join s fc w c (join s' black n a b))) path t (
        with_sibling h3 s black f (join o fc w (join s' black n a b) c)
          (join s fc w c (join s' black n a b)) t path
          (join-opposite s fc w (join s' black n a b) c) focus3) in
      let (r, run4, (focus4, at_root4)) =
        rotate_lem s h3 path black fc f w t c (join s' black n a b) tree in
      (
        r,
        rw
            (
              read_lem h f.address _ ef,
              color-cell s fc f (up path) (link t) (link (join s wc w c far)),
              run1,
              run2,
              read_lem h2 w.address _ ew,
              child-opposite-cell s fc w (some f.address) (link c) (link far),
              link-join s' dc n a b,
              run3,
              at_root,
              run4,
            )
            refl,
        (focus4, at_root4),
      )
