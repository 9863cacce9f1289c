-- ===== src/TreeMap/EraseRound.antt =====
-- PooledMap.hpp: a round of `fix_erase`.
use mathlib.Core.Path.{◌≡◌, subst}
use bhcpp_hptool_kit.Base.{
  ℕ, suc, ◌+◌, ◌≤◌, ◌∙◌, ap, refl, sym, inl, inr, ◌⊎◌, arith, List, [], ◌∷◌, some, false,
  if◌then◌else◌,
}
use bhcpp_hptool_kit.Base.Run.{ok, Returns, ◌>>=◌}
use bhcpp_hptool_kit.TreeMap.{
  Link, Color, red, black, Side, left, right, opposite, Heap, child, same_link,
}
use bhcpp_hptool_kit.TreeMap.Shape.{
  Item, Tree, leaf, node, Frame, here, here_self, inorder, join, link, cell, up, top, plug, occurs,
  occurs_around, inorder-rotate, link-join,
}
use bhcpp_hptool_kit.TreeMap.Writes.{child-opposite-cell, read_lem, same_link_self, same_link-link}
use bhcpp_hptool_kit.TreeMap.Focus.{Focus, Focus_above}
use bhcpp_hptool_kit.TreeMap.Rebalance.{frame, color_of, pick, Rooted, Rooted-up}
use bhcpp_hptool_kit.TreeMap.Rounds.{join-pick, top-some}
use bhcpp_hptool_kit.TreeMap.Inorder.{inorder-plug, inorder-join_ap}
use bhcpp_hptool_kit.TreeMap.RedBlack.{
  raise, Height, NoRedPair, PathHeight, Under, PathNoRedPair, Below, color_of-join,
}
use bhcpp_hptool_kit.TreeMap.Balance.{pick-Children}
use bhcpp_hptool_kit.TreeMap.Erase.{turn_sibling, repair_black, erase_round, fix_erase}
use bhcpp_hptool_kit.TreeMap.Siblings.{with_sibling, turn_sibling-red, turn_sibling-black}
use bhcpp_hptool_kit.TreeMap.Stages.{Outcome, inorder-join_ap_far}
use bhcpp_hptool_kit.TreeMap.StageCases.{Continues, stage}

differ : red ≡ black → ⊥
differ e = cc (e)

module _ {ℓ κ} {K : Type ℓ} {V : Type κ} where
  pub Rooted-plug :
      (f : Frame K V) (path : List (Frame K V)) (t : Tree K V)
      → Rooted (f ∷ path)
      → color_of (plug (f ∷ path) t) ≡ black
  Rooted-plug f [] t rooted = color_of-join f.side f.color f.item t f.sibling ∙ rooted
  Rooted-plug f (g ∷ path) t rooted =
      Rooted-plug g path (join f.side f.color f.item t f.sibling) rooted

  pub dark_above :
      (s : Side) (c : Color) (i : Item K V) (u t : Tree K V) (path : List (Frame K V))
      → Rooted (frame s c i u ∷ path)
      → (color_of (plug path t) ≡ black) ⊎ (c ≡ black)
  dark_above s c i u t [] rooted = inr rooted
  dark_above s c i u t (g ∷ path) rooted = inl (Rooted-plug g path t rooted)

  pub Under-Below :
      (c : Color) (u : Tree K V) (path : List (Frame K V)) → Under c u path → Below c path
  Under-Below red u path under = under.1
  Under-Below black u path under = tt

  -- `x` is not the root below another node.
  pub top-occurs :
      (x a : ℕ) (path : List (Frame K V))
      → top (some x) path ≡ some a
      → 1 ≤ here x a + occurs_around a path
  unfolding occurs_around
  top-occurs x a [] e =
      let same : x ≡ a = cc (e) in omega (arith, here_self x, ap (λ y. here x y) same)
  top-occurs x a (f ∷ path) e = omega (arith, top-occurs f.item.address a path e)

  pub not_root :
      (h : Heap K V) (f : Frame K V) (path : List (Frame K V)) (t : Tree K V)
      → Focus h (f ∷ path) t
      → same_link (link t) (top (some f.item.address) path) ≡ false
  unfolding same_link occurs occurs_around here
  not_root h f path leaf focus = let (y, e) = top-some f.item.address path in rw e refl
  not_root h f path (node c i l r) focus =
      let (y, e) = top-some f.item.address path in
      let once = focus.2 y in
      let inside = top-occurs f.item.address y path e in
      let apart : here i.address y ≡ 0 = omega (arith, once, inside) in rw e (ground arith)

  -- The side of `x` is found, also when `x` is null.
  pub erase_side :
      (s : Side) (fc : Color) (f : Item K V) (p : Link) (t u : Tree K V) (y : ℕ)
      → ((a : ℕ) → occurs a t + occurs a u ≤ 1)
      → link u ≡ some y
      → (if same_link (link t) (child left (cell s fc f p (link t) (link u))) then left else right)
        ≡ s
  unfolding same_link occurs
  erase_side left fc f p leaf u y once e = refl
  erase_side left fc f p (node c i l r) u y once e = rw (same_link_self i.address) refl
  erase_side right fc f p leaf u y once e = rw e refl
  erase_side right fc f p (node c i l r) u y once e =
      rw (same_link-link i.address u (omega (arith, once i.address, here_self i.address))) refl

  pub round_run :
      (h : Heap K V) (s : Side) (fc : Color) (f : Item K V) (t u : Tree K V) (y : ℕ)
      (path : List (Frame K V)) (root : Link) (r : Heap K V × Link × Link)
      → Focus h (frame s fc f u ∷ path) t
      → link u ≡ some y
      → turn_sibling s h root (some f.address) (some y) ≡ ok r
      → erase_round h root (link t) (some f.address) ≡ repair_black s r.0 r.1 (some f.address) r.2
  unfolding erase_round occurs_around
  round_run h s fc f t u y path root r focus e run =
      rw
        (
          read_lem h f.address _ (Focus_above h (frame s fc f u) path t focus),
          erase_side s fc f (up path) t u y (λ a. omega (arith, focus.2 a)) e,
          child-opposite-cell s fc f (up path) (link t) (link u),
          e,
          run,
        )
        refl

  pub pick_both :
      (s : Side) (n : ℕ) (a b : Tree K V)
      → Height n a
      → Height n b
      → NoRedPair a
      → NoRedPair b
      → Height n (pick s a b)
        × Height n (pick (opposite s) a b)
        × NoRedPair (pick s a b)
        × NoRedPair (pick (opposite s) a b)
  pick_both left n a b ha hb na nb = (ha, hb, na, nb)
  pick_both right n a b ha hb na nb = (hb, ha, nb, na)

  -- A black frame in the place of a frame that may be the root.
  pub Rooted-turn :
      (f g : Frame K V) (path : List (Frame K V))
      → Rooted (f ∷ path)
      → g.color ≡ black
      → Rooted (g ∷ path)
  Rooted-turn f g [] rooted e = e
  Rooted-turn f g (k ∷ path) rooted e = rooted

  -- The subtree `t` lacks a black node below the frame.
  abbrev pub Short :
      Heap K V → Side → Color → Item K V → Tree K V → Tree K V → ℕ → List (Frame K V) → Type (ℓ ⊔ κ)
  Short h s fc f u t n path =
      Focus h (frame s fc f u ∷ path) t
      × (Height n t × NoRedPair t × (color_of t ≡ black))
      × PathHeight (suc n) (frame s fc f u ∷ path)
      × PathNoRedPair (frame s fc f u ∷ path)
      × Rooted (frame s fc f u ∷ path)

  -- A round from `x` and `x_parent` on, and the rest of the loop.
  abbrev pub Round :
      ℕ → Heap K V → Side → Color → Item K V → Tree K V → Tree K V → List (Frame K V) → Type (ℓ ⊔ κ)
  Round fuel h s fc f u t path =
      Returns
        (erase_round h (top (some f.address) path) (link t) (some f.address) >>= λ r.
          fix_erase (suc fuel) r.0 r.1 r.2 r.3)
        (Outcome path (join s fc f t u))

  pub Round-black :
      (fuel n : ℕ) (h : Heap K V) (s : Side) (fc : Color) (f w : Item K V) (a b t : Tree K V)
      (path : List (Frame K V))
      → Short h s fc f (node black w a b) t n path
      → (fc ≡ black → Continues fuel (suc n) path)
      → Round fuel h s fc f (node black w a b) t path
  Round-black fuel n h s fc f w a b t path
        (focus, (ht, nt, dark), ((ha, hb), ph), ((na, nb), under, pn), rooted) next =
      let u = node black w a b in
      let c = pick s a b in
      let d = pick (opposite s) a b in
      let e = join-pick s black w a b in
      let focus' = with_sibling h s fc f u (join s black w c d) t path (sym e) focus in
      let (hc, hd, nc, nd) = pick_both s n a b ha hb na nb in
      let (r, run, (t', result, order, rb)) =
        stage fuel n h s fc f w c d t path
          (
            focus',
            (ht, hc, hd),
            (nt, nc, nd),
            dark,
            (ph, Under-Below fc u path under, pn, Rooted-up (frame s fc f u) path rooted),
          )
          (dark_above s fc f u (join s black f t (join s red w c d)) path rooted) next in
      let whole = turn_sibling-black h s fc f w c d t path (top (some f.address) path) focus' in
      (
        r,
        ap (λ q. q >>= λ r. fix_erase (suc fuel) r.0 r.1 r.2 r.3)
              (round_run h s fc f t u w.address path (top (some f.address) path)
                (h, top (some f.address) path, some w.address) focus refl whole)
            ∙ run,
        (t', result, order ∙ ap (λ x. inorder (plug path (join s fc f t x))) e, rb),
      )

  pub Round-red :
      (fuel n : ℕ) (h : Heap K V) (s : Side) (fc : Color) (f w : Item K V) (c d t : Tree K V)
      (path : List (Frame K V))
      → Short h s fc f (join s red w c d) t n path
      → Height (suc n) c
      → Height (suc n) d
      → color_of c ≡ black
      → NoRedPair c
      → NoRedPair d
      → fc ≡ black
      → Round fuel h s fc f (join s red w c d) t path
  Round-red fuel n h s fc f w leaf d t path short hc hd dark_c nc nd top_dark = cc (hc)
  Round-red fuel n h s fc f w (node red v a b) d t path short hc hd dark_c nc nd top_dark =
      elim (differ dark_c) [ ]
  Round-red fuel n h s fc f w (node black v a b) d t path
        (focus, (ht, nt, dark), (hu, ph), (nu, under, pn), rooted) (ha, hb) hd dark_c (na, nb) nd
        top_dark =
      let c = node black v a b in
      let u = join s red w c d in
      let a' = pick s a b in
      let b' = pick (opposite s) a b in
      let e = join-pick s black v a b in
      let above = frame s black w d ∷ path in
      let below = Rooted-turn (frame s fc f u) (frame s black w d) path rooted refl in
      let (r, run, (focus1, at_root, at_v)) =
        turn_sibling-red h s fc f w c d t path (top (some f.address) path) refl focus in
      let (ha', hb', na', nb') = pick_both s n a b ha hb na nb in
      let ph' = subst (λ x. PathHeight (raise x (suc n)) path) top_dark ph in
      let (x, run', (t', result, order, rb)) =
        stage fuel n r.0 s red f v a' b' t above
          (
            with_sibling r.0 s red f c (join s black v a' b') t above (sym e) focus1,
            (ht, ha', hb'),
            (nt, na', nb'),
            dark,
            ((hd, ph'), refl, (nd, tt, pn), below),
          )
          (inl (Rooted-plug (frame s black w d) path (join s black f t (join s red v a' b')) below))
          (λ wrong. elim (differ wrong) [ ]) in
      (
        x,
        ap (λ q. q >>= λ r. fix_erase (suc fuel) r.0 r.1 r.2 r.3)
              (round_run h s fc f t u w.address path (top (some f.address) path) r focus
                  (link-join s red w c d) run
                ∙ ap (λ q. repair_black s r.0 q (some f.address) r.2) at_root
                ∙ ap (λ q. repair_black s r.0 (top (some w.address) path) (some f.address) q) at_v)
            ∙ run',
        (
          t',
          result,
          order
              ∙ inorder-plug path (join s black w (join s red f t (join s black v a' b')) d)
                  (join s fc f t u)
                  (inorder-rotate s red black f w t (join s black v a' b') d
                    ∙ inorder-join_ap_far s red fc f t (join s black w (join s black v a' b') d) u (
                        inorder-join_ap s black red w (join s black v a' b') c d
                          (ap (λ y. inorder y) e))),
          rb,
        ),
      )

  pub round_lem :
      (fuel n : ℕ) (h : Heap K V) (s : Side) (fc : Color) (f : Item K V) (u t : Tree K V)
      (path : List (Frame K V))
      → Short h s fc f u t n path
      → (fc ≡ black → Continues fuel (suc n) path)
      → Round fuel h s fc f u t path
  round_lem fuel n h s fc f leaf t path (focus, x, (hu, ph), y, rooted) next = cc (hu)
  round_lem fuel n h s fc f (node black w a b) t path short next =
      Round-black fuel n h s fc f w a b t path short next
  round_lem fuel n h s red f (node red w a b) t path
        (focus, x, y, (nu, (under, up_dark), pn), rooted) next =
      elim (differ under) [ ]
  round_lem fuel n h s black f (node red w a b) t path
        (focus, x, ((ha, hb), ph), ((ca, cb, na, nb), under, pn), rooted) next =
      let (ha', hb', ca', cb', na', nb') = pick-Children s (suc n) a b (ha, hb, ca, cb, na, nb) in
      subst (λ u. Round fuel h s black f u t path) (join-pick s red w a b)
        (Round-red fuel n h s black f w (pick s a b) (pick (opposite s) a b) t path
          (subst (λ u. Short h s black f u t n path) (sym (join-pick s red w a b))
            (focus, x, ((ha, hb), ph), ((ca, cb, na, nb), under, pn), rooted))
          ha' hb' ca' na' nb' refl)
