-- ===== src/TreeMap/Inorder.antt =====
-- PooledMap.hpp: `fix_insert` keeps the order of the nodes.
use mathlib.Core.Path.{◌≡◌}
use bhcpp_hptool_kit.Base.{◌∙◌, ap, refl, sym, List, [], ◌∷◌, ◌++◌}
use bhcpp_hptool_kit.TreeMap.{Color, red, black, Side, left, right, opposite}
use bhcpp_hptool_kit.TreeMap.Shape.{
  Item, Tree, leaf, node, Frame, inorder, plug, join, inorder-rotate,
}
use bhcpp_hptool_kit.TreeMap.Rebalance.{frame, blacken, pick, straight, turned, rebalance}

module _ {ℓ κ} {K : Type ℓ} {V : Type κ} where
  pub inorder-blacken : (t : Tree K V) → inorder (blacken t) ≡ inorder t
  inorder-blacken leaf = refl
  inorder-blacken (node c i l r) = refl

  pub inorder-join_ap :
      (s : Side) (c d : Color) (i : Item K V) (t t' u : Tree K V)
      → inorder t ≡ inorder t'
      → inorder (join s c i t u) ≡ inorder (join s d i t' u)
  inorder-join_ap left c d i t t' u e = ap (λ x. x ++ i ∷ inorder u) e
  inorder-join_ap right c d i t t' u e = ap (λ x. inorder u ++ i ∷ x) e

  pub inorder-plug :
      (path : List (Frame K V)) (t t' : Tree K V)
      → inorder t ≡ inorder t'
      → inorder (plug path t) ≡ inorder (plug path t')
  inorder-plug [] t t' e = e
  inorder-plug (f ∷ path) t t' e =
      inorder-plug path (join f.side f.color f.item t f.sibling)
        (join f.side f.color f.item t' f.sibling)
        (inorder-join_ap f.side f.color f.color f.item t t' f.sibling e)

  pub inorder-straight :
      (s : Side) (gc : Color) (f g : Item K V) (t fu gu : Tree K V)
      → inorder (straight s f g t fu gu) ≡ inorder (join s gc g (join s red f t fu) gu)
  inorder-straight s gc f g t fu gu =
      sym (inorder-rotate s black red f g t fu gu)
      ∙ inorder-join_ap s red gc g (join s black f t fu) (join s red f t fu) gu
          (inorder-join_ap s black red f t t fu refl)

  -- The rotations of a grandchild on the inner side, by its children `b` and `c`.
  pub inorder-bent :
      (s : Side) (gc : Color) (f g i : Item K V) (b c fu gu : Tree K V)
      → inorder (straight s i g (join s red f fu b) c gu)
        ≡ inorder (join s gc g (join s red f fu (join s red i b c)) gu)
  inorder-bent s gc f g i b c fu gu =
      inorder-straight s gc i g (join s red f fu b) c gu
      ∙ inorder-join_ap s gc gc g (join s red i (join s red f fu b) c)
          (join s red f fu (join s red i b c)) gu (inorder-rotate s red red f i fu b c)

  pub inorder-turned :
      (fs gs : Side) (gc : Color) (f g i : Item K V) (l r fu gu : Tree K V)
      → inorder (turned fs gs f g i l r fu gu)
        ≡ inorder (join gs gc g (join fs red f (node red i l r) fu) gu)
  inorder-turned left left gc f g i l r fu gu = inorder-straight left gc f g (node red i l r) fu gu
  inorder-turned right right gc f g i l r fu gu =
      inorder-straight right gc f g (node red i l r) fu gu
  inorder-turned right left gc f g i l r fu gu = inorder-bent left gc f g i l r fu gu
  inorder-turned left right gc f g i l r fu gu = inorder-bent right gc f g i r l fu gu

  pub inorder-climb :
      (fs gs : Side) (gc : Color) (f g : Item K V) (t fu gu : Tree K V)
      → let p = join fs black f t fu in
        inorder (node red g (pick gs p (blacken gu)) (pick (opposite gs) p (blacken gu)))
        ≡ inorder (join gs gc g (join fs red f t fu) gu)
  inorder-climb left left gc f g t fu gu =
      ap (λ x. (inorder t ++ f ∷ inorder fu) ++ g ∷ x) (inorder-blacken gu)
  inorder-climb left right gc f g t fu gu =
      ap (λ x. x ++ g ∷ (inorder t ++ f ∷ inorder fu)) (inorder-blacken gu)
  inorder-climb right left gc f g t fu gu =
      ap (λ x. (inorder fu ++ f ∷ inorder t) ++ g ∷ x) (inorder-blacken gu)
  inorder-climb right right gc f g t fu gu =
      ap (λ x. x ++ g ∷ (inorder fu ++ f ∷ inorder t)) (inorder-blacken gu)

  pub inorder-turn :
      (path : List (Frame K V)) (fs gs : Side) (gc : Color) (f g i : Item K V)
      (l r fu gu : Tree K V)
      → inorder (blacken (plug path (turned fs gs f g i l r fu gu)))
        ≡ inorder (plug (frame fs red f fu ∷ frame gs gc g gu ∷ path) (node red i l r))
  inorder-turn path fs gs gc f g i l r fu gu =
      inorder-blacken (plug path (turned fs gs f g i l r fu gu))
      ∙ inorder-plug path (turned fs gs f g i l r fu gu)
          (join gs gc g (join fs red f (node red i l r) fu) gu)
          (inorder-turned fs gs gc f g i l r fu gu)

  pub inorder-case :
      (path : List (Frame K V)) (fs gs : Side) (fc gc : Color) (f g i : Item K V)
      (l r fu gu : Tree K V)
      → ((t u : Tree K V) → inorder (rebalance path g t u) ≡ inorder (plug path (node red g t u)))
      → inorder (rebalance (frame fs fc f fu ∷ frame gs gc g gu ∷ path) i l r)
        ≡ inorder (plug (frame fs fc f fu ∷ frame gs gc g gu ∷ path) (node red i l r))
  inorder-case path fs gs black gc f g i l r fu gu ih =
      inorder-blacken (plug (frame fs black f fu ∷ frame gs gc g gu ∷ path) (node red i l r))
  inorder-case path fs gs red gc f g i l r fu leaf ih = inorder-turn path fs gs gc f g i l r fu leaf
  inorder-case path fs gs red gc f g i l r fu (node black u ul ur) ih =
      inorder-turn path fs gs gc f g i l r fu (node black u ul ur)
  inorder-case path fs gs red gc f g i l r fu (node red u ul ur) ih =
      let t = node red i l r in
      let gu = node red u ul ur in
      let p = join fs black f t fu in
      let a = pick gs p (blacken gu) in
      let b = pick (opposite gs) p (blacken gu) in
      ih a b
      ∙ inorder-plug path (node red g a b) (join gs gc g (join fs red f t fu) gu)
          (inorder-climb fs gs gc f g t fu gu)

  pub inorder-rebalance :
      (path : List (Frame K V)) (i : Item K V) (l r : Tree K V)
      → inorder (rebalance path i l r) ≡ inorder (plug path (node red i l r))
  inorder-rebalance [] i l r = refl
  inorder-rebalance (f ∷ []) i l r = inorder-blacken (plug (f ∷ []) (node red i l r))
  inorder-rebalance (f ∷ g ∷ path) i l r =
      inorder-case path f.side g.side f.color g.color f.item g.item i l r f.sibling g.sibling
        (inorder-rebalance path g.item)
