-- ===== src/TreeMap/StageCases.antt =====
-- PooledMap.hpp: `fix_erase` from a black sibling on, by the colours of its children.
use mathlib.Core.Path.{◌≡◌}
use bhcpp_hptool_kit.Base.{◌⊎◌, inl, inr, ℕ, suc, ◌∙◌, ap, refl, sym, List, some}
use bhcpp_hptool_kit.Base.Run.{Returns}
use bhcpp_hptool_kit.TreeMap.{Color, red, black, Side, Heap}
use bhcpp_hptool_kit.TreeMap.Shape.{
  Item, Tree, leaf, node, Frame, join, link, up, top, plug, link-join,
}
use bhcpp_hptool_kit.TreeMap.Focus.{Focus}
use bhcpp_hptool_kit.TreeMap.Rebalance.{color_of}
use bhcpp_hptool_kit.TreeMap.Inorder.{inorder-join_ap, inorder-plug}
use bhcpp_hptool_kit.TreeMap.RedBlack.{
  Height, NoRedPair, Height-join, NoRedPair-join, color_of-join,
}
use bhcpp_hptool_kit.TreeMap.Erase.{fix_erase}
use bhcpp_hptool_kit.TreeMap.Repair.{repair_black-recolor}
use bhcpp_hptool_kit.TreeMap.Stages.{
  Outcome, inorder-join_ap_far, red_end, Lacking, Repairs, stage_far, stage_near,
}

module _ {ℓ κ} {K : Type ℓ} {V : Type κ} where
  -- The loop goes on with a subtree that lacks a black node, and repairs it.
  abbrev pub Continues : ℕ → ℕ → List (Frame K V) → Type (ℓ ⊔ κ)
  Continues fuel n path =
      (h : Heap K V) (t : Tree K V)
      → Focus h path t
      → color_of t ≡ black
      → Height n t
      → NoRedPair t
      → Returns (fix_erase (suc fuel) h (top (link t) path) (link t) (up path)) (Outcome path t)

  pub stage_both :
      (fuel n : ℕ) (h : Heap K V) (s : Side) (fc : Color) (f w : Item K V) (c d t : Tree K V)
      (path : List (Frame K V))
      → color_of c ≡ black
      → color_of d ≡ black
      → Lacking h s fc f w c d t n path
      → color_of (plug path (join s black f t (join s red w c d))) ≡ black ⊎ (fc ≡ black)
      → (fc ≡ black → Continues fuel (suc n) path)
      → Repairs fuel h s fc f w c d t path
  stage_both fuel n h s red f w c d t path dark_c dark_d
        (focus, (ht, hc, hd), (nt, nc, nd), dark, (ph, below, pn, rooted)) (inr e) next =
      cc (e)
  stage_both fuel n h s red f w c d t path dark_c dark_d
        (focus, (ht, hc, hd), (nt, nc, nd), dark, (ph, below, pn, rooted)) (inl root_dark) next =
      let u = join s red w c d in
      let (r, run, (focus', at_root, at_x, at_p)) =
        repair_black-recolor h s red f w c d t path (top (some f.address) path) dark_c dark_d
          focus in
      let (b, run', (t', result, order, rb)) =
        red_end fuel n r.0 path s f t u r.1 r.3 at_root focus' ht (Height-join s red w c d n hc hd)
          nt (NoRedPair-join s red w c d (inr (dark_c, dark_d)) nc nd) ph pn root_dark in
      (
        b,
        rw run (ap (λ q. fix_erase (suc fuel) r.0 r.1 q r.3) at_x ∙ run'),
        (
          t',
          result,
          order
              ∙ inorder-plug path (join s red f t u) (join s red f t (join s black w c d)) (
                  inorder-join_ap_far s red red f t u (join s black w c d)
                    (inorder-join_ap s red black w c c d refl)),
          rb,
        ),
      )
  stage_both fuel n h s black f w c d t path dark_c dark_d
        (focus, (ht, hc, hd), (nt, nc, nd), dark, fit) root_dark next =
      let u = join s red w c d in
      let x = join s black f t u in
      let (r, run, (focus', at_root, at_x, at_p)) =
        repair_black-recolor h s black f w c d t path (top (some f.address) path) dark_c dark_d
          focus in
      let here = link-join s black f t u in
      let (b, run', (t', result, order, rb)) =
        next refl r.0 x focus' (color_of-join s black f t u)
          (Height-join s black f t u n ht (Height-join s red w c d n hc hd))
          (NoRedPair-join s black f t u (inl refl) nt
            (NoRedPair-join s red w c d (inr (dark_c, dark_d)) nc nd)) in
      (
        b,
        rw run (
            ap (λ q. fix_erase (suc fuel) r.0 r.1 q r.3) (at_x ∙ sym here)
            ∙ ap (λ q. fix_erase (suc fuel) r.0 q (link x) r.3)
                (at_root ∙ ap (λ q. top q path) (sym here))
            ∙ ap (λ q. fix_erase (suc fuel) r.0 (top (link x) path) (link x) q) at_p
            ∙ run'),
        (
          t',
          result,
          order
              ∙ inorder-plug path x (join s black f t (join s black w c d)) (
                  inorder-join_ap_far s black black f t u (join s black w c d)
                    (inorder-join_ap s red black w c c d refl)),
          rb,
        ),
      )

  pub stage :
      (fuel n : ℕ) (h : Heap K V) (s : Side) (fc : Color) (f w : Item K V) (c d t : Tree K V)
      (path : List (Frame K V))
      → Lacking h s fc f w c d t n path
      → color_of (plug path (join s black f t (join s red w c d))) ≡ black ⊎ (fc ≡ black)
      → (fc ≡ black → Continues fuel (suc n) path)
      → Repairs fuel h s fc f w c d t path
  stage fuel n h s fc f w c (node red i p q) t path lacks root_dark next =
      stage_far fuel n h s fc f w i c p q t path lacks
  stage fuel n h s fc f w (node red i a b) leaf t path lacks root_dark next =
      stage_near fuel n h s fc f w i a b leaf t path refl lacks
  stage fuel n h s fc f w (node red i a b) (node black j p q) t path lacks root_dark next =
      stage_near fuel n h s fc f w i a b (node black j p q) t path refl lacks
  stage fuel n h s fc f w leaf leaf t path lacks root_dark next =
      stage_both fuel n h s fc f w leaf leaf t path refl refl lacks root_dark next
  stage fuel n h s fc f w leaf (node black j p q) t path lacks root_dark next =
      stage_both fuel n h s fc f w leaf (node black j p q) t path refl refl lacks root_dark next
  stage fuel n h s fc f w (node black i a b) leaf t path lacks root_dark next =
      stage_both fuel n h s fc f w (node black i a b) leaf t path refl refl lacks root_dark next
  stage fuel n h s fc f w (node black i a b) (node black j p q) t path lacks root_dark next =
      stage_both fuel n h s fc f w (node black i a b) (node black j p q) t path refl refl lacks
        root_dark next
