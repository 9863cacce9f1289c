-- ===== src/TreeMap/RedBlack.antt =====
-- PooledMap.hpp: red-black trees, and the frames of a node in them.
use mathlib.Core.Path.{◌≡◌, subst}
use bhcpp_hptool_kit.Base.{ℕ, ◌⊎◌, inl, inr, zero, suc, refl, sym, List, [], ◌∷◌}
use bhcpp_hptool_kit.TreeMap.{Color, red, black, Side, left, right}
use bhcpp_hptool_kit.TreeMap.Shape.{Item, Tree, leaf, node, Frame, plug, join}
use bhcpp_hptool_kit.TreeMap.Rebalance.{frame, color_of, blacken}

abbrev pub raise : Color → ℕ → ℕ
raise red n = n
raise black n = suc n

module _ {ℓ κ} {K : Type ℓ} {V : Type κ} where
  -- Every way down passes `n` black nodes.
  abbrev pub Height : ℕ → Tree K V → Type 0
  Height n leaf = n ≡ 0
  Height n (node red i l r) = Height n l × Height n r
  Height zero (node black i l r) = ⊥
  Height (suc n) (node black i l r) = Height n l × Height n r

  -- No red node has a red child.
  abbrev pub NoRedPair : Tree K V → Type 0
  NoRedPair leaf = Unit
  NoRedPair (node red i l r) =
      (color_of l ≡ black) × (color_of r ≡ black) × NoRedPair l × NoRedPair r
  NoRedPair (node black i l r) = NoRedPair l × NoRedPair r

  abbrev pub RedBlack : Tree K V → Type 0
  RedBlack t = (color_of t ≡ black) × NoRedPair t × ((n : ℕ) × Height n t)

  -- The frames fit a subtree with `n` black nodes on every way down.
  abbrev pub PathHeight : ℕ → List (Frame K V) → Type 0
  PathHeight n [] = Unit
  PathHeight n (f ∷ path) = Height n f.sibling × PathHeight (raise f.color n) path

  abbrev pub ParentBlack : List (Frame K V) → Type 0
  ParentBlack [] = Unit
  ParentBlack (f ∷ path) = f.color ≡ black

  abbrev pub Under : Color → Tree K V → List (Frame K V) → Type 0
  Under red u path = (color_of u ≡ black) × ParentBlack path
  Under black u path = Unit

  -- No two red nodes of the frames are parent and child.
  abbrev pub PathNoRedPair : List (Frame K V) → Type 0
  PathNoRedPair [] = Unit
  PathNoRedPair (f ∷ path) = NoRedPair f.sibling × Under f.color f.sibling path × PathNoRedPair path

  pub Height-join :
      (s : Side) (c : Color) (i : Item K V) (t u : Tree K V) (n : ℕ)
      → Height n t
      → Height n u
      → Height (raise c n) (join s c i t u)
  Height-join left red i t u n a b = (a, b)
  Height-join right red i t u n a b = (b, a)
  Height-join left black i t u n a b = (a, b)
  Height-join right black i t u n a b = (b, a)

  pub Height-plug :
      (path : List (Frame K V)) (t : Tree K V) (n : ℕ)
      → Height n t
      → PathHeight n path
      → (m : ℕ) × Height m (plug path t)
  Height-plug [] t n a p = (n, a)
  Height-plug (f ∷ path) t n a (b, p) =
      Height-plug path (join f.side f.color f.item t f.sibling) (raise f.color n)
        (Height-join f.side f.color f.item t f.sibling n a b) p

  pub NoRedPair-join :
      (s : Side) (c : Color) (i : Item K V) (t u : Tree K V)
      → (c ≡ black) ⊎ ((color_of t ≡ black) × (color_of u ≡ black))
      → NoRedPair t
      → NoRedPair u
      → NoRedPair (join s c i t u)
  NoRedPair-join left black i t u ok a b = (a, b)
  NoRedPair-join right black i t u ok a b = (b, a)
  NoRedPair-join left red i t u (inr (p, q)) a b = (p, q, a, b)
  NoRedPair-join right red i t u (inr (p, q)) a b = (q, p, b, a)
  NoRedPair-join left red i t u (inl e) a b = cc (e)
  NoRedPair-join right red i t u (inl e) a b = cc (e)

  pub color_of-join :
      (s : Side) (c : Color) (i : Item K V) (t u : Tree K V) → color_of (join s c i t u) ≡ c
  color_of-join left c i t u = refl
  color_of-join right c i t u = refl

  -- A red node stands below a black one.
  abbrev pub Below : Color → List (Frame K V) → Type 0
  Below red path = ParentBlack path
  Below black path = Unit

  pub Below-red :
      (s : Side) (i : Item K V) (t u : Tree K V) (path : List (Frame K V))
      → Below (color_of t) (frame s red i u ∷ path)
      → color_of t ≡ black
  Below-red s i leaf u path below = refl
  Below-red s i (node black j l r) u path below = refl
  Below-red s i (node red j l r) u path below = cc (below)

  -- One frame more.
  pub NoRedPair-step :
      (s : Side) (c : Color) (i : Item K V) (t u : Tree K V) (path : List (Frame K V))
      → NoRedPair t
      → Below (color_of t) (frame s c i u ∷ path)
      → PathNoRedPair (frame s c i u ∷ path)
      → NoRedPair (join s c i t u) × Below (color_of (join s c i t u)) path
  NoRedPair-step s black i t u path a below (b, under, p) = (
    NoRedPair-join s black i t u (inl refl) a b,
    subst (λ c. Below c path) (sym (color_of-join s black i t u)) tt,
  )
  NoRedPair-step s red i t u path a below (b, (dark, under), p) = (
    NoRedPair-join s red i t u (inr (Below-red s i t u path below, dark)) a b,
    subst (λ c. Below c path) (sym (color_of-join s red i t u)) under,
  )

  pub NoRedPair-plug :
      (path : List (Frame K V)) (t : Tree K V)
      → NoRedPair t
      → Below (color_of t) path
      → PathNoRedPair path
      → NoRedPair (plug path t)
  NoRedPair-plug [] t a below p = a
  NoRedPair-plug (f ∷ path) t a below p =
      let (b, below') = NoRedPair-step f.side f.color f.item t f.sibling path a below p in
      NoRedPair-plug path (join f.side f.color f.item t f.sibling) b below' p.2

  pub RedBlack-blacken :
      (t : Tree K V) → NoRedPair t → ((n : ℕ) × Height n t) → RedBlack (blacken t)
  RedBlack-blacken leaf a h = (refl, tt, h)
  RedBlack-blacken (node black i l r) a h = (refl, a, h)
  RedBlack-blacken (node red i l r) (p, q, a, b) (n, h) = (refl, (a, b), (suc n, h))
