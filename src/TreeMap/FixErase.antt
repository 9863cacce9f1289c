-- ===== src/TreeMap/FixErase.antt =====
-- PooledMap.hpp: the loop of `fix_erase` ends, and makes a red-black tree again.
use mathlib.Core.Path.{◌≡◌, subst}
use bhcpp_hptool_kit.Base.{
  ℕ, zero, suc, ◌<◌, ◌∙◌, ap, refl, arith, List, [], ◌∷◌, some, none, true, false, if◌then◌else◌,
  length,
}
use bhcpp_hptool_kit.Base.Run.{ok, Returns, ◌>>=◌}
use bhcpp_hptool_kit.TreeMap.{Link, red, black, left, Heap, is_black, same_link, is_red}
use bhcpp_hptool_kit.TreeMap.Shape.{Tree, leaf, node, Frame, link, up, top, none_below}
use bhcpp_hptool_kit.TreeMap.Focus.{Focus}
use bhcpp_hptool_kit.TreeMap.Rebalance.{blacken, Rooted, Rooted-up}
use bhcpp_hptool_kit.TreeMap.Rounds.{is_red-link}
use bhcpp_hptool_kit.TreeMap.Inorder.{inorder-blacken}
use bhcpp_hptool_kit.TreeMap.RedBlack.{
  raise, Height, NoRedPair, PathHeight, PathNoRedPair, RedBlack-blacken,
}
use bhcpp_hptool_kit.TreeMap.Erase.{erase_round, fix_erase}
use bhcpp_hptool_kit.TreeMap.Repair.{erase_end-root}
use bhcpp_hptool_kit.TreeMap.Stages.{Outcome, red_end}
use bhcpp_hptool_kit.TreeMap.StageCases.{Continues}
use bhcpp_hptool_kit.TreeMap.EraseRound.{Rooted-plug, not_root, Short, round_lem}

none_below_one : (n : ℕ) → suc (suc n) < 1 → ⊥
none_below_one n h = omega arith

module _ {ℓ κ} {K : Type ℓ} {V : Type κ} where
  pub step_run :
      (fuel : ℕ) (h : Heap K V) (root x xp : Link)
      → is_red h x ≡ ok false
      → same_link x root ≡ false
      → fix_erase (suc fuel) h root x xp
        ≡ (erase_round h root x xp >>= λ r. fix_erase fuel r.0 r.1 r.2 r.3)
  unfolding fix_erase
  step_run fuel h root x xp e f = rw (e, f) refl

  -- A round for a black `x`.
  pub repair_step :
      (fuel n : ℕ) (h : Heap K V) (f : Frame K V) (path : List (Frame K V)) (t : Tree K V)
      → Short h f.side f.color f.item f.sibling t n path
      → (f.color ≡ black → Continues fuel (suc n) path)
      → Returns
          (fix_erase
            (suc (suc fuel))
            h
            (top (some f.item.address) path)
            (link t)
            (some f.item.address))
          (Outcome (f ∷ path) t)
  unfolding is_black
  repair_step fuel n h f path t (focus, (ht, nt, dark), ph, pn, rooted) next =
      let (r, run, out) =
        round_lem fuel n h f.side f.color f.item f.sibling t path
          (focus, (ht, nt, dark), ph, pn, rooted) next in
      (
        r,
        step_run (suc fuel) h (top (some f.item.address) path) (link t) (some f.item.address)
              (is_red-link h (some f.item.address) t focus.0
                ∙ ap (λ c. ok (if is_black c then false else true)) dark)
              (not_root h f path t focus)
            ∙ run,
        out,
      )

  -- On a heap that holds a subtree `t` without two red nodes in a row below the nodes around it, which fit a
  -- subtree with one black node more on every way down, `fix_erase` at `t` ends within two rounds more than
  -- `t` has ancestors, and leaves a red-black tree with the nodes in the order of before.
  pub fix_erase-RedBlack :
      (fuel n : ℕ) (h : Heap K V) (path : List (Frame K V)) (t : Tree K V)
      → suc (length path) < fuel
      → Focus h path t
      → Height n t
      → NoRedPair t
      → PathHeight (suc n) path
      → PathNoRedPair path
      → Rooted path
      → Returns (fix_erase fuel h (top (link t) path) (link t) (up path)) (Outcome path t)
  fix_erase-RedBlack zero n h path t few focus ht nt ph pn rooted =
      elim (none_below (suc (length path)) few) [ ]
  fix_erase-RedBlack (suc fuel) n h [] t few focus ht nt ph pn rooted =
      let (b, run, result) = erase_end-root fuel h t none focus in
      (b, run, (blacken t, result, inorder-blacken t, RedBlack-blacken t nt (n, ht)))
  fix_erase-RedBlack (suc fuel) n h (f ∷ path) (node red i l r) few focus (hl, hr) (cl, cr, nl, nr)
        ph pn rooted =
      red_end fuel n h (f ∷ path) left i l r (top (some i.address) (f ∷ path)) (up (f ∷ path)) refl
        focus hl hr nl nr ph pn (Rooted-plug f path (node black i l r) rooted)
  fix_erase-RedBlack (suc zero) n h (f ∷ path) leaf few focus ht nt ph pn rooted =
      elim (none_below_one (length path) few) [ ]
  fix_erase-RedBlack (suc zero) n h (f ∷ path) (node black i l r) few focus ht nt ph pn rooted =
      elim (none_below_one (length path) few) [ ]
  fix_erase-RedBlack (suc (suc fuel)) n h (f ∷ path) leaf few focus ht nt ph pn rooted =
      repair_step fuel n h f path leaf (focus, (ht, nt, refl), ph, pn, rooted)
        (λ e h' t' focus' dark ht' nt'.
          fix_erase-RedBlack (suc fuel) (suc n) h' path t' (omega (arith, few)) focus' ht' nt'
            (subst (λ c. PathHeight (raise c (suc n)) path) e ph.1) pn.2 (Rooted-up f path rooted))
  fix_erase-RedBlack (suc (suc fuel)) n h (f ∷ path) (node black i l r) few focus ht nt ph pn
        rooted =
      repair_step fuel n h f path (node black i l r) (focus, (ht, nt, refl), ph, pn, rooted)
        (λ e h' t' focus' dark ht' nt'.
          fix_erase-RedBlack (suc fuel) (suc n) h' path t' (omega (arith, few)) focus' ht' nt'
            (subst (λ c. PathHeight (raise c (suc n)) path) e ph.1) pn.2 (Rooted-up f path rooted))
