-- ===== src/TreeMap/FixInsert.antt =====
-- PooledMap.hpp: `fix_insert` ends, and makes the tree that `rebalance` describes.
use mathlib.Core.Path.{◌≡◌, subst}
use bhcpp_hptool_kit.Base.{ℕ, zero, suc, refl, sym, ◌∙◌, ap, arith, List, [], ◌∷◌, some, none}
use bhcpp_hptool_kit.Base.Run.{Returns}
use bhcpp_hptool_kit.TreeMap.{
  Link, Color, red, black, Side, left, right, opposite, Heap, is_black, is_red, fix_round,
  blacken_root, fix_insert,
}
use bhcpp_hptool_kit.TreeMap.Shape.{
  Item, Tree, leaf, node, Frame, join, link, up, top, plug, link-join, none_below,
}
use bhcpp_hptool_kit.TreeMap.Focus.{Focus, Focus-up, Focus-down, Focus_cell, Focus_above}
use bhcpp_hptool_kit.TreeMap.Rebalance.{
  frame, color_of, blacken, pick, turned, rebalance, Rooted, Rooted-up,
}
use bhcpp_hptool_kit.TreeMap.Rounds.{pick-join, is_red-cell, stop_run, round_run, finish}
use bhcpp_hptool_kit.Base.{◌<◌, length}
use bhcpp_hptool_kit.TreeMap.FixRound.{fix_round_climb, fix_round-straight, fix_round-bent}

few_one : (n : ℕ) → suc (suc n) < 1 → ⊥
few_one n h = omega arith

module _ {ℓ κ} {K : Type ℓ} {V : Type κ} where
  -- The root and the heap after an operation.
  abbrev pub Result : Heap K V × Link → Tree K V → Type (ℓ ⊔ κ)
  Result r t = Focus r.0 [] t × (r.1 ≡ link t)

  -- Below a black node the loop ends.
  pub ending :
      (fuel : ℕ) (h : Heap K V) (path : List (Frame K V)) (s zs : Side) (zc : Color)
      (q z : Item K V) (qu zl zr : Tree K V) (root : Link)
      → root ≡ top (some q.address) path
      → Focus h path (join s black q (join zs zc z zl zr) qu)
      → Returns
          (fix_insert (suc fuel) h root (some z.address))
          λ r. Result r (blacken (plug path (join s black q (join zs zc z zl zr) qu)))
  unfolding is_black
  ending fuel h path s zs zc q z qu zl zr root at_root focus =
      let t = join s black q (join zs zc z zl zr) qu in
      let below = Focus-down h (frame s black q qu) path (join zs zc z zl zr) focus in
      let eq = Focus_above h (frame s black q qu) path (join zs zc z zl zr) below in
      let ez = Focus_cell h (frame s black q qu ∷ path) zs zc z zl zr below in
      let same = link-join s black q (join zs zc z zl zr) qu in
      let (r, run, result) = finish h path t q.address same focus in
      (
        r,
        stop_run fuel h root zs zc z (some q.address) (link zl) (link zr) ez
              (is_red-cell h s black q (up path) (link (join zs zc z zl zr)) (link qu) eq)
            ∙ ap (λ x. blacken_root h x) (at_root ∙ ap (λ x. top x path) (sym same))
            ∙ run,
        result,
      )

  -- A round that rotates is the last one.
  pub after_turn :
      (fuel : ℕ) (h : Heap K V) (path : List (Frame K V)) (fs gs s zs : Side) (gc zc : Color)
      (f g i q z : Item K V) (l r fu gu qu zl zr : Tree K V) (root : Link)
      → Focus h (frame fs red f fu ∷ frame gs gc g gu ∷ path) (node red i l r)
      → Returns (fix_round h root (some g.address) (some f.address) (some i.address)) (λ a.
        Focus a.0 path (join s black q (join zs zc z zl zr) qu)
        × (a.1 ≡ top (some q.address) path)
        × (a.2 ≡ some z.address))
      → Returns
          (fix_insert (suc (suc fuel)) h root (some i.address))
          λ b. Result b (blacken (plug path (join s black q (join zs zc z zl zr) qu)))
  unfolding is_black
  after_turn fuel h path fs gs s zs gc zc f g i q z l r fu gu qu zl zr root focus
        (a, run, (focus', at_root, at_z)) =
      let t = node red i l r in
      let (b, run', result) = ending fuel a.0 path s zs zc q z qu zl zr a.1 at_root focus' in
      let ef = Focus_above h (frame fs red f fu) (frame gs gc g gu ∷ path) t focus in
      (
        b,
        round_run (suc fuel) h root left fs red red i f (link l) (link r) (some g.address)
              (some i.address) (link fu) a
              (Focus_cell h (frame fs red f fu ∷ frame gs gc g gu ∷ path) left red i l r focus) ef
              (is_red-cell h fs red f (some g.address) (some i.address) (link fu) ef) run
            ∙ ap (λ x. fix_insert (suc fuel) a.0 a.1 x) at_z
            ∙ run',
        result,
      )

  pub turn_case :
      (fuel : ℕ) (h : Heap K V) (path : List (Frame K V)) (fs gs : Side) (gc : Color)
      (f g i : Item K V) (l r fu gu : Tree K V)
      → color_of gu ≡ black
      → Focus h (frame fs red f fu ∷ frame gs gc g gu ∷ path) (node red i l r)
      → Returns
          (fix_insert (suc (suc fuel)) h (top (some g.address) path) (some i.address))
          λ b. Result b (blacken (plug path (turned fs gs f g i l r fu gu)))
  turn_case fuel h path left left gc f g i l r fu gu dark focus =
      let root = top (some g.address) path in
      after_turn fuel h path left left left left gc red f g i f i l r fu gu (join left red g fu gu)
        l r root focus (fix_round-straight left h root gc f g i l r fu gu path dark refl focus)
  turn_case fuel h path right right gc f g i l r fu gu dark focus =
      let root = top (some g.address) path in
      after_turn fuel h path right right right left gc red f g i f i l r fu gu
        (join right red g fu gu) l r root focus
        (fix_round-straight right h root gc f g i l r fu gu path dark refl focus)
  turn_case fuel h path right left gc f g i l r fu gu dark focus =
      let root = top (some g.address) path in
      after_turn fuel h path right left left left gc red f g i i f l r fu gu (join left red g r gu)
        fu l root focus (fix_round-bent left h root gc f g i l r fu gu path dark refl focus)
  turn_case fuel h path left right gc f g i l r fu gu dark focus =
      let root = top (some g.address) path in
      after_turn fuel h path left right right right gc red f g i i f l r fu gu
        (join right red g l gu) fu r root focus
        (fix_round-bent right h root gc f g i l r fu gu path dark refl focus)

  -- Two levels of the path, by the colours of the parent and of the uncle.
  pub fix_case :
      (fuel : ℕ) (h : Heap K V) (path : List (Frame K V)) (fs gs : Side) (fc gc : Color)
      (f g i : Item K V) (l r fu gu : Tree K V)
      → Focus h (frame fs fc f fu ∷ frame gs gc g gu ∷ path) (node red i l r)
      → ((h' : Heap K V) (t u : Tree K V)
          → Focus h' path (node red g t u)
          → Returns
              (fix_insert (suc fuel) h' (top (some g.address) path) (some g.address))
              λ b. Result b (rebalance path g t u))
      → Returns
          (fix_insert (suc (suc fuel)) h (top (some g.address) path) (some i.address))
          λ b. Result b (rebalance (frame fs fc f fu ∷ frame gs gc g gu ∷ path) i l r)
  unfolding is_black
  fix_case fuel h path fs gs black gc f g i l r fu gu focus ih =
      ending (suc fuel) h (frame gs gc g gu ∷ path) fs left red f i fu l r
        (top (some g.address) path) refl
        (Focus-up h (frame fs black f fu) (frame gs gc g gu ∷ path) (node red i l r) focus)
  fix_case fuel h path fs gs red gc f g i l r fu leaf focus ih =
      turn_case fuel h path fs gs gc f g i l r fu leaf refl focus
  fix_case fuel h path fs gs red gc f g i l r fu (node black u ul ur) focus ih =
      turn_case fuel h path fs gs gc f g i l r fu (node black u ul ur) refl focus
  fix_case fuel h path fs gs red gc f g i l r fu (node red u ul ur) focus ih =
      let t = node red i l r in
      let root = top (some g.address) path in
      let (a, run, (focus', at_root, at_g)) =
        fix_round_climb h root fs gs gc f g i u l r fu ul ur path focus in
      let p = join fs black f t fu in
      let gu' = node black u ul ur in
      let (b, run', result) =
        ih a.0 (pick gs p gu') (pick (opposite gs) p gu')
          (subst (λ x. Focus a.0 path x) (sym (pick-join gs red g p gu')) focus') in
      let ef =
        Focus_above h (frame fs red f fu) (frame gs gc g (node red u ul ur) ∷ path) t focus in
      (
        b,
        round_run (suc fuel) h root left fs red red i f (link l) (link r) (some g.address)
              (some i.address) (link fu) a
              (Focus_cell h (frame fs red f fu ∷ frame gs gc g (node red u ul ur) ∷ path) left red i
                l r focus)
              ef (is_red-cell h fs red f (some g.address) (some i.address) (link fu) ef) run
            ∙ ap (λ x. fix_insert (suc fuel) a.0 x a.2) at_root
            ∙ ap (λ x. fix_insert (suc fuel) a.0 root x) at_g
            ∙ run',
        result,
      )

  -- On a heap that holds a tree with a red node below a path of ancestors, where the root is black if the
  -- path is not empty, `fix_insert` ends within one round more than there are ancestors, and the heap
  -- holds the tree that `rebalance` describes.
  pub fix_insert-rebalance :
      (fuel : ℕ) (h : Heap K V) (path : List (Frame K V)) (i : Item K V) (l r : Tree K V)
      → length path < fuel
      → Rooted path
      → Focus h path (node red i l r)
      → Returns
          (fix_insert fuel h (top (some i.address) path) (some i.address))
          λ b. Result b (rebalance path i l r)
  unfolding is_red
  fix_insert-rebalance zero h path i l r few rooted focus = elim (none_below (length path) few) [ ]
  fix_insert-rebalance (suc fuel) h [] i l r few rooted focus =
      let (b, run, result) = finish h [] (node red i l r) i.address refl focus in
      (
        b,
        stop_run fuel h (some i.address) left red i none (link l) (link r)
              (Focus_cell h [] left red i l r focus) refl
            ∙ run,
        result,
      )
  fix_insert-rebalance (suc fuel) h (f ∷ []) i l r few rooted focus =
      let at_black =
        subst (λ c. Focus h [] (join f.side c f.item (node red i l r) f.sibling)) rooted
          (Focus-up h f [] (node red i l r) focus) in
      subst
        (λ c.
          Returns (fix_insert (suc fuel) h (some f.item.address) (some i.address))
            λ b. Result b (blacken (join f.side c f.item (node red i l r) f.sibling)))
        (sym rooted)
        (ending fuel h [] f.side left red f.item i f.sibling l r (some f.item.address) refl
          at_black)
  fix_insert-rebalance (suc zero) h (f ∷ g ∷ path) i l r few rooted focus =
      elim (few_one (length path) few) [ ]
  fix_insert-rebalance (suc (suc fuel)) h (f ∷ g ∷ path) i l r few rooted focus =
      fix_case fuel h path f.side g.side f.color g.color f.item g.item i l r f.sibling g.sibling
        focus
        (λ h' t u focus'.
          fix_insert-rebalance (suc fuel) h' path g.item t u (omega (arith, few))
            (Rooted-up g path rooted) focus')
