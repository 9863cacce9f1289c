-- ===== src/TreeMap/Rebalance.antt =====
-- PooledMap.hpp: what `fix_insert` makes of a tree, without a heap.
use bhcpp_hptool_kit.Base.{◌≡◌, List, [], ◌∷◌}
use bhcpp_hptool_kit.TreeMap.{Color, red, black, Side, left, right, opposite}
use bhcpp_hptool_kit.TreeMap.Shape.{Item, Tree, leaf, node, Frame, join, plug}

module _ {ℓ κ} {K : Type ℓ} {V : Type κ} where
  abbrev pub frame : Side → Color → Item K V → Tree K V → Frame K V
  frame s c i u = record { side = s; color = c; item = i; sibling = u }

  -- A null pointer counts as black.
  abbrev pub color_of : Tree K V → Color
  color_of leaf = black
  color_of (node c i l r) = c

  abbrev pub blacken : Tree K V → Tree K V
  blacken leaf = leaf
  blacken (node c i l r) = node black i l r

  -- The child on a side, of the children on the left and on the right.
  abbrev pub pick : Side → Tree K V → Tree K V → Tree K V
  pick left l r = l
  pick right l r = r

  -- The rotation of a grandchild on the outer side `s`.
  abbrev pub straight : Side → (f g : Item K V) (t fu gu : Tree K V) → Tree K V
  straight s f g t fu gu = join s black f t (join s red g fu gu)

  -- The two rotations of a grandchild on the inner side.
  abbrev pub bent : Side → (f g i : Item K V) (l r fu gu : Tree K V) → Tree K V
  bent s f g i l r fu gu = straight s i g (join s red f fu (pick s l r)) (pick (opposite s) l r) gu

  -- The rotations for the sides of the parent and of the grandparent.
  abbrev pub turned : Side → Side → (f g i : Item K V) (l r fu gu : Tree K V) → Tree K V
  turned left left f g i l r fu gu = straight left f g (node red i l r) fu gu
  turned right right f g i l r fu gu = straight right f g (node red i l r) fu gu
  turned right left f g i l r fu gu = bent left f g i l r fu gu
  turned left right f g i l r fu gu = bent right f g i l r fu gu

  -- By the colours of the parent and of the uncle: stop, go on two levels up, or rotate.
  abbrev pub choose : Color → Color → (stop climb turn : Tree K V) → Tree K V
  choose black d stop climb turn = stop
  choose red red stop climb turn = climb
  choose red black stop climb turn = turn

  -- The tree after an insertion has put the red node `i` below the frames `path`.
  abbrev pub rebalance : List (Frame K V) → Item K V → Tree K V → Tree K V → Tree K V
  rebalance [] i l r = node black i l r
  rebalance (f ∷ []) i l r = blacken (plug (f ∷ []) (node red i l r))
  rebalance (f ∷ g ∷ path) i l r =
      let t = join f.side black f.item (node red i l r) f.sibling in
      let u = blacken g.sibling in
      choose f.color (color_of g.sibling) (blacken (plug (f ∷ g ∷ path) (node red i l r)))
        (rebalance path g.item (pick g.side t u) (pick (opposite g.side) t u))
        (blacken (plug path (turned f.side g.side f.item g.item i l r f.sibling g.sibling)))

  -- The root is black.
  abbrev pub Rooted : List (Frame K V) → Type 0
  Rooted [] = Unit
  Rooted (f ∷ []) = f.color ≡ black
  Rooted (f ∷ g ∷ path) = Rooted (g ∷ path)

  pub Rooted-up : (f : Frame K V) (path : List (Frame K V)) → Rooted (f ∷ path) → Rooted path
  Rooted-up f [] rooted = tt
  Rooted-up f (g ∷ path) rooted = rooted
