-- ===== src/TreeMap/Alike.antt =====
-- PooledMap.hpp: trees that differ in their values only.
use mathlib.Core.Path.{◌≡◌}
use bhcpp_hptool_kit.Base.{
  ℕ, zero, suc, ap, refl, sym, ◌∙◌, arith, Bool, true, List, [], ◌∷◌, ◌++◌, length,
}
use bhcpp_hptool_kit.TreeMap.{Color, red, black}
use bhcpp_hptool_kit.TreeMap.Shape.{Item, Tree, leaf, node, inorder, link, occurs}
use bhcpp_hptool_kit.TreeMap.Rebalance.{color_of}
use bhcpp_hptool_kit.TreeMap.Sorted.{Each, Sorted}
use bhcpp_hptool_kit.TreeMap.Attach.{item}
use bhcpp_hptool_kit.TreeMap.RedBlack.{Height, NoRedPair, RedBlack}

abbrev pub Ascending {ℓ} : {K : Type ℓ} → (less : K → K → Bool) → List K → Type 0
Ascending less [] = Unit
Ascending less (k ∷ ks) = Each (λ j. less k j ≡ true) ks × Ascending less ks

module _ {ℓ κ} {K : Type ℓ} {V : Type κ} where
  pub data Alike : Tree K V → Tree K V → Type (ℓ ⊔ κ) where
    alike_leaf : Alike leaf leaf
    alike_node :
        (c : Color) (a : ℕ) (k : K) (v w : V) (l l' r r' : Tree K V)
        → Alike l l'
        → Alike r r'
        → Alike (node c (item a k v) l r) (node c (item a k w) l' r')

  pub Alike-refl : (t : Tree K V) → Alike t t
  Alike-refl leaf = alike_leaf
  Alike-refl (node c i l r) =
      alike_node c i.address i.key i.value i.value l l r r (Alike-refl l) (Alike-refl r)

  pub Alike-color_of : (t t' : Tree K V) → Alike t t' → color_of t ≡ color_of t'
  Alike-color_of _ _ alike_leaf = refl
  Alike-color_of _ _ (alike_node c a k v w l l' r r' al ar) = refl

  pub Alike-link : (t t' : Tree K V) → Alike t t' → link t ≡ link t'
  Alike-link _ _ alike_leaf = refl
  Alike-link _ _ (alike_node c a k v w l l' r r' al ar) = refl

  pub Alike-occurs : (b : ℕ) (t t' : Tree K V) → Alike t t' → occurs b t' ≡ occurs b t
  unfolding occurs
  Alike-occurs b _ _ alike_leaf = refl
  Alike-occurs b _ _ (alike_node c a k v w l l' r r' al ar) =
      omega (arith, Alike-occurs b l l' al, Alike-occurs b r r' ar)

  pub Alike-Height : (n : ℕ) (t t' : Tree K V) → Alike t t' → Height n t → Height n t'
  Alike-Height n _ _ alike_leaf h = h
  Alike-Height n _ _ (alike_node red a k v w l l' r r' al ar) h =
      (Alike-Height n l l' al h.0, Alike-Height n r r' ar h.1)
  Alike-Height zero _ _ (alike_node black a k v w l l' r r' al ar) h = h
  Alike-Height (suc n) _ _ (alike_node black a k v w l l' r r' al ar) h =
      (Alike-Height n l l' al h.0, Alike-Height n r r' ar h.1)

  pub Alike-NoRedPair : (t t' : Tree K V) → Alike t t' → NoRedPair t → NoRedPair t'
  Alike-NoRedPair _ _ alike_leaf h = h
  Alike-NoRedPair _ _ (alike_node red a k v w l l' r r' al ar) (cl, cr, nl, nr) = (
    sym (Alike-color_of l l' al) ∙ cl,
    sym (Alike-color_of r r' ar) ∙ cr,
    Alike-NoRedPair l l' al nl,
    Alike-NoRedPair r r' ar nr,
  )
  Alike-NoRedPair _ _ (alike_node black a k v w l l' r r' al ar) (nl, nr) =
      (Alike-NoRedPair l l' al nl, Alike-NoRedPair r r' ar nr)

  pub Alike-RedBlack : (t t' : Tree K V) → Alike t t' → RedBlack t → RedBlack t'
  Alike-RedBlack t t' alike (dark, pairs, (n, h)) = (
    sym (Alike-color_of t t' alike) ∙ dark,
    Alike-NoRedPair t t' alike pairs,
    (n, Alike-Height n t t' alike h),
  )

  abbrev pub keys : List (Item K V) → List K
  keys [] = []
  keys (i ∷ items) = i.key ∷ keys items

  pub keys-append : (xs ys : List (Item K V)) → keys (xs ++ ys) ≡ keys xs ++ keys ys
  keys-append [] ys = refl
  keys-append (x ∷ xs) ys = ap (λ r. x.key ∷ r) (keys-append xs ys)

  pub Alike-keys : (t t' : Tree K V) → Alike t t' → keys (inorder t) ≡ keys (inorder t')
  Alike-keys _ _ alike_leaf = refl
  Alike-keys _ _ (alike_node c a k v w l l' r r' al ar) =
      keys-append (inorder l) (item a k v ∷ inorder r)
      ∙ ap (λ x. x ++ k ∷ keys (inorder r)) (Alike-keys l l' al)
      ∙ ap (λ x. keys (inorder l') ++ k ∷ x) (Alike-keys r r' ar)
      ∙ sym (keys-append (inorder l') (item a k w ∷ inorder r'))

  pub length-keys : (xs : List (Item K V)) → length (keys xs) ≡ length xs
  length-keys [] = refl
  length-keys (x ∷ xs) = ap (λ n. suc n) (length-keys xs)

  module _ (equal less : K → K → Bool) where
    pub Each-keys :
        (k : K) (xs : List (Item K V))
        → Each (λ j. less k j.key ≡ true) xs
        → Each (λ j. less k j ≡ true) (keys xs)
    Each-keys k [] e = tt
    Each-keys k (x ∷ xs) (p, e) = (p, Each-keys k xs e)

    pub keys-Each :
        (k : K) (xs : List (Item K V))
        → Each (λ j. less k j ≡ true) (keys xs)
        → Each (λ j. less k j.key ≡ true) xs
    keys-Each k [] e = tt
    keys-Each k (x ∷ xs) (p, e) = (p, keys-Each k xs e)

    pub Sorted-keys : (xs : List (Item K V)) → Sorted equal less xs → Ascending less (keys xs)
    Sorted-keys [] s = tt
    Sorted-keys (x ∷ xs) (e, s) = (Each-keys x.key xs e, Sorted-keys xs s)

    pub keys-Sorted : (xs : List (Item K V)) → Ascending less (keys xs) → Sorted equal less xs
    keys-Sorted [] s = tt
    keys-Sorted (x ∷ xs) (e, s) = (keys-Each x.key xs e, keys-Sorted xs s)

    pub Alike-Sorted :
        (t t' : Tree K V)
        → Alike t t'
        → Sorted equal less (inorder t)
        → Sorted equal less (inorder t')
    Alike-Sorted t t' alike sorted =
        keys-Sorted (inorder t') (rw (sym (Alike-keys t t' alike)) (Sorted-keys (inorder t) sorted))
