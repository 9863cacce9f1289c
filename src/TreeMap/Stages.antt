-- ===== src/TreeMap/Stages.antt =====
-- PooledMap.hpp: what `fix_erase` makes of a subtree that lacks a black node, from a black sibling on.
use mathlib.Core.Path.{◌≡◌, subst}
use bhcpp_hptool_kit.Base.{inl, inr, ℕ, suc, ◌∙◌, ap, refl, sym, List, ◌∷◌, ◌++◌, some}
use bhcpp_hptool_kit.Base.Run.{Returns, ◌>>=◌}
use bhcpp_hptool_kit.TreeMap.{Link, Color, red, black, Side, left, right, opposite, Heap}
use bhcpp_hptool_kit.TreeMap.Shape.{
  Item, Tree, node, Frame, inorder, join, link, top, plug, inorder-rotate,
}
use bhcpp_hptool_kit.TreeMap.Focus.{Focus, Focus-top, link-plug}
use bhcpp_hptool_kit.TreeMap.Rebalance.{frame, color_of, blacken, pick, Rooted}
use bhcpp_hptool_kit.TreeMap.Rounds.{join-pick}
use bhcpp_hptool_kit.TreeMap.Inorder.{inorder-blacken, inorder-join_ap, inorder-plug}
use bhcpp_hptool_kit.TreeMap.RedBlack.{
  raise, Height, NoRedPair, RedBlack, PathHeight, PathNoRedPair, Height-join, Height-plug,
  NoRedPair-join, color_of-join, Below, NoRedPair-plug, RedBlack-blacken,
}
use bhcpp_hptool_kit.TreeMap.Balance.{pick-Children}
use bhcpp_hptool_kit.TreeMap.FixInsert.{Result}
use bhcpp_hptool_kit.TreeMap.Erase.{repair_black, fix_erase}
use bhcpp_hptool_kit.TreeMap.Repair.{
  Turned, repair_black-far, repair_black-near, erase_end-root, erase_end-red,
}

module _ {ℓ κ} {K : Type ℓ} {V : Type κ} where
  -- The loop leaves a red-black tree with the nodes in the order of before.
  abbrev pub Outcome : List (Frame K V) → Tree K V → Heap K V × Link → Type (ℓ ⊔ κ)
  Outcome path t r =
      (t' : Tree K V) × Result r t' × (inorder t' ≡ inorder (plug path t)) × RedBlack t'

  -- The frames fit a subtree with `n` black nodes on every way down and a root of the colour `c`.
  abbrev pub FramesFit : ℕ → Color → List (Frame K V) → Type 0
  FramesFit n c path = PathHeight n path × Below c path × PathNoRedPair path × Rooted path

  pub inorder-join_ap_far :
      (s : Side) (c d : Color) (i : Item K V) (t u u' : Tree K V)
      → inorder u ≡ inorder u'
      → inorder (join s c i t u) ≡ inorder (join s d i t u')
  inorder-join_ap_far left c d i t u u' e = ap (λ x. inorder t ++ i ∷ x) e
  inorder-join_ap_far right c d i t u u' e = ap (λ x. x ++ i ∷ inorder t) e

  -- After a rotation the loop ends at the root.
  pub Turned-end :
      (fuel n : ℕ) (path : List (Frame K V)) (t t0 : Tree K V) (c : Color)
      (r : Heap K V × Link × Link × Link)
      → Turned path t r
      → color_of t ≡ c
      → Height n t
      → NoRedPair t
      → FramesFit n c path
      → inorder t ≡ inorder t0
      → Returns (fix_erase (suc fuel) r.0 r.1 r.2 r.3) (Outcome path t0)
  Turned-end fuel n path t t0 c r (focus, at_root, at_x) color h a (ph, below, pn, rooted) e =
      let whole = plug path t in
      let root : r.1 ≡ link whole = at_root ∙ sym (link-plug path t) in
      let (b, run, result) = erase_end-root fuel r.0 whole r.3 (Focus-top r.0 path t focus) in
      (
        b,
        ap (λ q. fix_erase (suc fuel) r.0 r.1 q r.3) at_x
            ∙ ap (λ q. fix_erase (suc fuel) r.0 q q r.3) root
            ∙ run,
        (
          blacken whole,
          result,
          inorder-blacken whole ∙ inorder-plug path t t0 e,
          RedBlack-blacken whole
              (NoRedPair-plug path t a (subst (λ x. Below {K = K} {V = V} x path) (sym color) below)
                pn)
              (Height-plug path t n h ph),
        ),
      )

  -- A red node turns black, and the loop ends.
  pub red_end :
      (fuel n : ℕ) (h : Heap K V) (path : List (Frame K V)) (s : Side) (i : Item K V)
      (l r : Tree K V) (root xp : Link)
      → root ≡ top (some i.address) path
      → Focus h path (join s red i l r)
      → Height n l
      → Height n r
      → NoRedPair l
      → NoRedPair r
      → PathHeight (suc n) path
      → PathNoRedPair path
      → color_of (plug path (join s black i l r)) ≡ black
      → Returns (fix_erase (suc fuel) h root (some i.address) xp) (Outcome path (join s red i l r))
  red_end fuel n h path s i l r root xp at_root focus hl hr nl nr ph pn dark =
      let t = join s black i l r in
      let (b, run, result) = erase_end-red fuel h path s i l r root xp at_root focus in
      (
        b,
        run,
        (
          plug path t,
          result,
          inorder-plug path t (join s red i l r) (inorder-join_ap s black red i l l r refl),
          (
            dark,
            NoRedPair-plug path t (NoRedPair-join s black i l r (inl refl) nl nr)
                (subst (λ x. Below {K = K} {V = V} x path) (sym (color_of-join s black i l r)) tt)
                pn,
            Height-plug path t (suc n) (Height-join s black i l r n hl hr) ph,
          ),
        ),
      )

  -- The subtree lacks a black node that the black sibling `w` has.
  abbrev pub Lacking :
      Heap K V
      → Side
      → Color
      → (f w : Item K V) → (c d t : Tree K V) → ℕ
      → List (Frame K V)
      → Type (ℓ ⊔ κ)
  Lacking h s fc f w c d t n path =
      Focus h (frame s fc f (join s black w c d) ∷ path) t
      × (Height n t × Height n c × Height n d)
      × (NoRedPair t × NoRedPair c × NoRedPair d)
      × (color_of t ≡ black)
      × FramesFit (raise fc (suc n)) fc path

  -- The round and the rest of the loop.
  abbrev pub Repairs :
      ℕ
      → Heap K V
      → Side
      → Color
      → (f w : Item K V) → (c d t : Tree K V) → List (Frame K V)
      → Type (ℓ ⊔ κ)
  Repairs fuel h s fc f w c d t path =
      Returns
        (repair_black s h (top (some f.address) path) (some f.address) (some w.address) >>= λ r.
          fix_erase (suc fuel) r.0 r.1 r.2 r.3)
        (Outcome path (join s fc f t (join s black w c d)))

  pub stage_far :
      (fuel n : ℕ) (h : Heap K V) (s : Side) (fc : Color) (f w i : Item K V) (c p q t : Tree K V)
      (path : List (Frame K V))
      → Lacking h s fc f w c (node red i p q) t n path
      → Repairs fuel h s fc f w c (node red i p q) t path
  stage_far fuel n h s fc f w i c p q t path
        (focus, (ht, hc, hd), (nt, nc, (cp, cq, np, nq)), dark, fit) =
      let d = node red i p q in
      let new = join s fc w (join s black f t c) (node black i p q) in
      let (r, run, turned) =
        repair_black-far h s fc f w i c p q t path (top (some f.address) path) refl focus in
      let order =
        inorder-join_ap s fc black w (join s black f t c) (join s black f t c) (node black i p q)
          refl
        ∙ inorder-rotate s black black f w t c (node black i p q)
        ∙ inorder-join_ap_far s black fc f t (join s black w c (node black i p q))
            (join s black w c d)
            (inorder-join_ap_far s black black w c (node black i p q) d refl) in
      let (b, run', out) =
        Turned-end fuel (raise fc (suc n)) path new (join s fc f t (join s black w c d)) fc r turned
          (color_of-join s fc w (join s black f t c) (node black i p q))
          (Height-join s fc w (join s black f t c) (node black i p q) (suc n)
            (Height-join s black f t c n ht hc) hd)
          (NoRedPair-join s fc w (join s black f t c) (node black i p q)
            (inr (color_of-join s black f t c, refl))
            (NoRedPair-join s black f t c (inl refl) nt nc) (np, nq))
          fit order in
      (b, rw run run', out)

  pub stage_near :
      (fuel n : ℕ) (h : Heap K V) (s : Side) (fc : Color) (f w i : Item K V) (a b d t : Tree K V)
      (path : List (Frame K V))
      → color_of d ≡ black
      → Lacking h s fc f w (node red i a b) d t n path
      → Repairs fuel h s fc f w (node red i a b) d t path
  stage_near fuel n h s fc f w i a b d t path dark_d
        (focus, (ht, hc, hd), (nt, (ca, cb, na, nb), nd), dark, fit) =
      let c = node red i a b in
      let a' = pick s a b in
      let b' = pick (opposite s) a b in
      let (ha', hb', ca', cb', na', nb') = pick-Children s n a b (hc.0, hc.1, ca, cb, na, nb) in
      let l = join s black f t a' in
      let r = join s black w b' d in
      let (x, run, turned) =
        repair_black-near h s fc f w i a b d t path (top (some f.address) path) dark_d refl focus in
      let order =
        inorder-join_ap s fc black i l l r refl
        ∙ inorder-rotate s black black f i t a' r
        ∙ inorder-join_ap_far s black fc f t (join s black i a' r) (join s black w c d) (
            sym (inorder-rotate s black black i w a' b' d)
            ∙ inorder-join_ap s black black w (join s black i a' b') c d (
                inorder-join_ap s black red i a' a' b' refl
                ∙ ap (λ y. inorder y) (join-pick s red i a b))) in
      let (y, run', out) =
        Turned-end fuel (raise fc (suc n)) path (join s fc i l r)
          (join s fc f t (join s black w c d)) fc x turned (color_of-join s fc i l r)
          (Height-join s fc i l r (suc n) (Height-join s black f t a' n ht ha')
            (Height-join s black w b' d n hb' hd))
          (NoRedPair-join s fc i l r
            (inr (color_of-join s black f t a', color_of-join s black w b' d))
            (NoRedPair-join s black f t a' (inl refl) nt na')
            (NoRedPair-join s black w b' d (inl refl) nb' nd))
          fit order in
      (y, rw run run', out)
