-- ===== src/TreeMap/Balance.antt =====
-- PooledMap.hpp: `fix_insert` makes a red-black tree.
use mathlib.Core.Path.{◌≡◌, subst}
use bhcpp_hptool_kit.Base.{ℕ, inl, inr, suc, refl, sym, List, [], ◌∷◌}
use bhcpp_hptool_kit.TreeMap.{Color, red, black, Side, left, right, opposite}
use bhcpp_hptool_kit.TreeMap.Shape.{Item, Tree, leaf, node, Frame, plug, join}
use bhcpp_hptool_kit.TreeMap.Rebalance.{
  frame, color_of, blacken, pick, straight, bent, turned, rebalance, Rooted, Rooted-up,
}
use bhcpp_hptool_kit.TreeMap.RedBlack.{
  Height, NoRedPair, RedBlack, PathHeight, ParentBlack, PathNoRedPair, Height-join, Height-plug,
  NoRedPair-join, color_of-join, Below, NoRedPair-plug, RedBlack-blacken,
}

differ : red ≡ black → ⊥
differ e = cc (e)

module _ {ℓ κ} {K : Type ℓ} {V : Type κ} where
  -- Two trees that can stand below a red node.
  abbrev pub Children : ℕ → Tree K V → Tree K V → Type 0
  Children n l r =
      Height n l
      × Height n r
      × (color_of l ≡ black)
      × (color_of r ≡ black)
      × NoRedPair l
      × NoRedPair r

  pub pick-Children :
      (s : Side) (n : ℕ) (t u : Tree K V)
      → Children n t u
      → Children n (pick s t u) (pick (opposite s) t u)
  pick-Children left n t u c = c
  pick-Children right n t u (a, b, c, d, e, f) = (b, a, d, c, f, e)

  pub Children-straight :
      (s : Side) (f g : Item K V) (t fu gu : Tree K V) (n : ℕ)
      → Height n t
      → NoRedPair t
      → Children n fu gu
      → Height (suc n) (straight s f g t fu gu) × NoRedPair (straight s f g t fu gu)
  Children-straight s f g t fu gu n ht nt (hf, hg, cf, cg, nf, ng) = (
    Height-join s black f t (join s red g fu gu) n ht (Height-join s red g fu gu n hf hg),
    NoRedPair-join s black f t (join s red g fu gu) (inl refl) nt
        (NoRedPair-join s red g fu gu (inr (cf, cg)) nf ng),
  )

  pub Children-bent :
      (s : Side) (f g i : Item K V) (l r fu gu : Tree K V) (n : ℕ)
      → Children n l r
      → Children n fu gu
      → Height (suc n) (bent s f g i l r fu gu) × NoRedPair (bent s f g i l r fu gu)
  Children-bent s f g i l r fu gu n lr (hf, hg, cf, cg, nf, ng) =
      let (hb, hc, cb, cx, nb, nc) = pick-Children s n l r lr in
      let b = pick s l r in
      Children-straight s i g (join s red f fu b) (pick (opposite s) l r) gu n
        (Height-join s red f fu b n hf hb) (NoRedPair-join s red f fu b (inr (cf, cb)) nf nb)
        (hc, hg, cx, cg, nc, ng)

  pub Children-turned :
      (fs gs : Side) (f g i : Item K V) (l r fu gu : Tree K V) (n : ℕ)
      → Children n l r
      → Children n fu gu
      → Height (suc n) (turned fs gs f g i l r fu gu) × NoRedPair (turned fs gs f g i l r fu gu)
  Children-turned left left f g i l r fu gu n (hl, hr, cl, cr, nl, nr) c =
      Children-straight left f g (node red i l r) fu gu n (hl, hr) (cl, cr, nl, nr) c
  Children-turned right right f g i l r fu gu n (hl, hr, cl, cr, nl, nr) c =
      Children-straight right f g (node red i l r) fu gu n (hl, hr) (cl, cr, nl, nr) c
  Children-turned right left f g i l r fu gu n lr c = Children-bent left f g i l r fu gu n lr c
  Children-turned left right f g i l r fu gu n lr c = Children-bent right f g i l r fu gu n lr c

  pub turned-color :
      (fs gs : Side) (f g i : Item K V) (l r fu gu : Tree K V)
      → color_of (turned fs gs f g i l r fu gu) ≡ black
  turned-color left left f g i l r fu gu = refl
  turned-color left right f g i l r fu gu = refl
  turned-color right left f g i l r fu gu = refl
  turned-color right right f g i l r fu gu = refl

  pub RedBlack-turn :
      (path : List (Frame K V)) (fs gs : Side) (f g i : Item K V) (l r fu gu : Tree K V) (n : ℕ)
      → Children n l r
      → Children n fu gu
      → PathHeight (suc n) path
      → PathNoRedPair path
      → RedBlack (blacken (plug path (turned fs gs f g i l r fu gu)))
  RedBlack-turn path fs gs f g i l r fu gu n lr c ph pn =
      let t = turned fs gs f g i l r fu gu in
      let (h, a) = Children-turned fs gs f g i l r fu gu n lr c in
      RedBlack-blacken (plug path t)
        (NoRedPair-plug path t a
          (subst (λ d. Below d path) (sym (turned-color fs gs f g i l r fu gu)) tt) pn)
        (Height-plug path t (suc n) h ph)

  pub RedBlack-stop :
      (path : List (Frame K V)) (i : Item K V) (l r : Tree K V) (n : ℕ)
      → Children n l r
      → ParentBlack path
      → PathHeight n path
      → PathNoRedPair path
      → RedBlack (blacken (plug path (node red i l r)))
  RedBlack-stop path i l r n (hl, hr, cl, cr, nl, nr) below ph pn =
      let t = node red i l r in
      RedBlack-blacken (plug path t) (NoRedPair-plug path t (cl, cr, nl, nr) below pn)
        (Height-plug path t n (hl, hr) ph)

  pub RedBlack-case :
      (path : List (Frame K V)) (fs gs : Side) (fc gc : Color) (f g i : Item K V)
      (l r fu gu : Tree K V) (n : ℕ)
      → Children n l r
      → PathHeight n (frame fs fc f fu ∷ frame gs gc g gu ∷ path)
      → PathNoRedPair (frame fs fc f fu ∷ frame gs gc g gu ∷ path)
      → ((t u : Tree K V)
          → Children (suc n) t u
          → PathHeight (suc n) path
          → PathNoRedPair path
          → RedBlack (rebalance path g t u))
      → RedBlack (rebalance (frame fs fc f fu ∷ frame gs gc g gu ∷ path) i l r)
  RedBlack-case path fs gs black gc f g i l r fu gu n lr ph pn ih =
      RedBlack-stop (frame fs black f fu ∷ frame gs gc g gu ∷ path) i l r n lr refl ph pn
  RedBlack-case path fs gs red red f g i l r fu gu n lr ph (nf, (cf, cg), pn) ih =
      elim (differ cg) [ ]
  RedBlack-case path fs gs red black f g i l r fu leaf n lr (hf, (hg, ph))
        (nf, (cf, cg), (ng, un, pn)) ih =
      RedBlack-turn path fs gs f g i l r fu leaf n lr (hf, hg, cf, refl, nf, ng) ph pn
  RedBlack-case path fs gs red black f g i l r fu (node black u ul ur) n lr (hf, (hg, ph))
        (nf, (cf, cg), (ng, un, pn)) ih =
      RedBlack-turn path fs gs f g i l r fu (node black u ul ur) n lr (hf, hg, cf, refl, nf, ng) ph
        pn
  RedBlack-case path fs gs red black f g i l r fu (node red u ul ur) n (hl, hr, cl, cr, nl, nr)
        (hf, (hg, ph)) (nf, (cf, cg), (ng, un, pn)) ih =
      let t = node red i l r in
      let p = join fs black f t fu in
      let gu' = node black u ul ur in
      ih (pick gs p gu') (pick (opposite gs) p gu')
        (pick-Children gs (suc n) p gu' (
          Height-join fs black f t fu n (hl, hr) hf,
          hg,
          color_of-join fs black f t fu,
          refl,
          NoRedPair-join fs black f t fu (inl refl) (cl, cr, nl, nr) nf,
          (ng.2, ng.3),
        ))
        ph pn

  -- A red node below the frames of a red-black tree: the loop makes a red-black tree of it.
  pub RedBlack-rebalance :
      (path : List (Frame K V)) (i : Item K V) (l r : Tree K V) (n : ℕ)
      → Rooted path
      → Children n l r
      → PathHeight n path
      → PathNoRedPair path
      → RedBlack (rebalance path i l r)
  RedBlack-rebalance [] i l r n rooted (hl, hr, cl, cr, nl, nr) ph pn =
      (refl, (nl, nr), (suc n, (hl, hr)))
  RedBlack-rebalance (f ∷ []) i l r n rooted lr ph pn =
      RedBlack-stop (f ∷ []) i l r n lr rooted ph pn
  RedBlack-rebalance (f ∷ g ∷ path) i l r n rooted lr ph pn =
      RedBlack-case path f.side g.side f.color g.color f.item g.item i l r f.sibling g.sibling n lr
        ph pn (λ t u. RedBlack-rebalance path g.item t u (suc n) (Rooted-up g path rooted))
