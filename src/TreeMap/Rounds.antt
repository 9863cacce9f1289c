-- ===== src/TreeMap/Rounds.antt =====
-- PooledMap.hpp: the rounds of the loop of `fix_insert`.
use mathlib.Core.Path.{◌≡◌, subst}
use bhcpp_hptool_kit.Base.{
  ℕ, suc, refl, sym, ◌∙◌, ap, List, [], ◌∷◌, some, true, false, if◌then◌else◌,
}
use bhcpp_hptool_kit.Base.Run.{ok, Returns}
use bhcpp_hptool_kit.TreeMap.{
  Link, Color, black, Side, left, right, opposite, Heap, is_black, is_red, fix_round, blacken_root,
  fix_insert,
}
use bhcpp_hptool_kit.TreeMap.Shape.{
  Item, Tree, leaf, node, Frame, join, link, Cell, Holds, top, plug, join-opposite,
}
use bhcpp_hptool_kit.TreeMap.Writes.{parent-cell, color-cell, read_lem}
use bhcpp_hptool_kit.TreeMap.Focus.{Focus, Focus-up, Focus-down, Focus-top, recolor, link-plug}
use bhcpp_hptool_kit.TreeMap.Rebalance.{frame, color_of, blacken, pick}

module _ {ℓ κ} {K : Type ℓ} {V : Type κ} where
  pub join-pick :
      (s : Side) (c : Color) (i : Item K V) (l r : Tree K V)
      → join s c i (pick s l r) (pick (opposite s) l r) ≡ node c i l r
  join-pick left c i l r = refl
  join-pick right c i l r = refl

  pub pick-join :
      (s : Side) (c : Color) (i : Item K V) (t u : Tree K V)
      → node c i (pick s t u) (pick (opposite s) t u) ≡ join s c i t u
  pick-join left c i t u = refl
  pick-join right c i t u = refl

  -- To the other child of the node above, and back.
  pub Focus-sibling :
      (h : Heap K V) (s : Side) (c : Color) (i : Item K V) (u : Tree K V) (path : List (Frame K V))
      (t : Tree K V)
      → Focus h (frame s c i u ∷ path) t
      → Focus h (frame (opposite s) c i t ∷ path) u
  Focus-sibling h s c i u path t focus = Focus-down h (frame (opposite s) c i t) path u (
      subst (λ x. Focus h path x) (sym (join-opposite s c i u t))
        (Focus-up h (frame s c i u) path t focus))

  pub sibling-Focus :
      (h : Heap K V) (s : Side) (c : Color) (i : Item K V) (u : Tree K V) (path : List (Frame K V))
      (t : Tree K V)
      → Focus h (frame (opposite s) c i t ∷ path) u
      → Focus h (frame s c i u ∷ path) t
  sibling-Focus h s c i u path t focus = Focus-down h (frame s c i u) path t (
      subst (λ x. Focus h path x) (join-opposite s c i u t)
        (Focus-up h (frame (opposite s) c i t) path u focus))

  -- The colour that a link shows.
  pub is_red-link :
      (h : Heap K V) (p : Link) (t : Tree K V)
      → Holds h p t
      → is_red h (link t) ≡ ok (if is_black (color_of t) then false else true)
  unfolding Holds is_red is_black
  is_red-link h p leaf holds = refl
  is_red-link h p (node c i l r) (e, hl, hr) = rw (read_lem h i.address _ e) refl

  pub is_red-cell :
      (h : Heap K V) (s : Side) (c : Color) (i : Item K V) (p q u : Link)
      → Cell h s c i p q u
      → is_red h (some i.address) ≡ ok (if is_black c then false else true)
  unfolding is_red
  is_red-cell h s c i p q u e = rw (read_lem h i.address _ e, color-cell s c i p q u) refl

  -- The loop ends below a parent that is not red.
  pub stop_run :
      (fuel : ℕ) (h : Heap K V) (root : Link) (s : Side) (c : Color) (i : Item K V) (p q u : Link)
      → Cell h s c i p q u
      → is_red h p ≡ ok false
      → fix_insert (suc fuel) h root (some i.address) ≡ blacken_root h root
  unfolding fix_insert
  stop_run fuel h root s c i p q u e black_above =
      rw (read_lem h i.address _ e, parent-cell s c i p q u, black_above) refl

  pub round_run :
      (fuel : ℕ) (h : Heap K V) (root : Link) (s fs : Side) (c fc : Color) (i f : Item K V)
      (q u g v w : Link) (r : _)
      → Cell h s c i (some f.address) q u
      → Cell h fs fc f g v w
      → is_red h (some f.address) ≡ ok true
      → fix_round h root g (some f.address) (some i.address) ≡ ok r
      → fix_insert (suc fuel) h root (some i.address) ≡ fix_insert fuel r.0 r.1 r.2
  unfolding fix_insert
  round_run fuel h root s fs c fc i f q u g v w r e ef red_above run =
      rw
        (
          read_lem h i.address _ e,
          parent-cell s c i (some f.address) q u,
          red_above,
          read_lem h f.address _ ef,
          parent-cell fs fc f g v w,
          run,
        )
        refl

  pub top-some : (x : ℕ) (path : List (Frame K V)) → (y : ℕ) × (top (some x) path ≡ some y)
  top-some x [] = (x, refl)
  top-some x (f ∷ path) = top-some f.item.address path

  pub blacken_tree :
      (h : Heap K V) (t : Tree K V) (x : ℕ)
      → link t ≡ some x
      → Focus h [] t
      → Returns (blacken_root h (link t)) λ r. Focus r.0 [] (blacken t) × (r.1 ≡ link (blacken t))
  unfolding blacken_root
  blacken_tree h leaf x e focus = cc (e)
  blacken_tree h (node c i l r) x e focus =
      let (h', run, focus') = recolor h [] left c black i l r focus in
      ((h', some i.address), rw run refl, (focus', refl))

  -- The last write of `fix_insert`.
  pub finish :
      (h : Heap K V) (path : List (Frame K V)) (t : Tree K V) (x : ℕ)
      → link t ≡ some x
      → Focus h path t
      → Returns
          (blacken_root h (top (link t) path))
          λ r. Focus r.0 [] (blacken (plug path t)) × (r.1 ≡ link (blacken (plug path t)))
  finish h path t x e focus =
      let (y, ey) = top-some x path in
      subst
        (λ q.
          Returns (blacken_root h q)
            λ r. Focus r.0 [] (blacken (plug path t)) × (r.1 ≡ link (blacken (plug path t))))
        (link-plug path t)
        (blacken_tree h (plug path t) y (link-plug path t ∙ ap (λ q. top q path) e ∙ ey)
          (Focus-top h path t focus))
