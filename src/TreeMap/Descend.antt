-- ===== src/TreeMap/Descend.antt =====
-- PooledMap.hpp: the loops that walk down the tree, on a heap that holds it.
use mathlib.Core.Path.{◌≡◌}
use bhcpp_hptool_kit.Base.{
  ℕ, zero, suc, ◌+◌, ◌≤◌, ◌<◌, refl, inl, inr, arith, Bool, List, [], ◌∷◌, some, if◌then◌else◌,
  Bool-cases, length, length-append,
}
use bhcpp_hptool_kit.Base.Run.{ok}
use bhcpp_hptool_kit.TreeMap.{Side, left, right, black, Heap, Link}
use bhcpp_hptool_kit.TreeMap.Shape.{
  Item, Tree, leaf, node, Frame, inorder, plug, join, link, up, Holds, none_below,
}
use bhcpp_hptool_kit.TreeMap.Writes.{read_lem}
use bhcpp_hptool_kit.TreeMap.Focus.{Focus, Focus-down, Focus_cell}
use bhcpp_hptool_kit.TreeMap.Rebalance.{frame, color_of, Rooted}
use bhcpp_hptool_kit.TreeMap.Search.{descend, search}
use bhcpp_hptool_kit.TreeMap.Seek.{reach, seek}

module _ {ℓ κ} {K : Type ℓ} {V : Type κ} where
  pub length-inorder-node :
      (c : _) (i : Item K V) (l r : Tree K V)
      → length (inorder (node c i l r)) ≡ suc (length (inorder l) + length (inorder r))
  length-inorder-node c i l r = omega (arith, length-append (inorder l) (i ∷ inorder r))

  pub length-inorder-join :
      (s : Side) (c : _) (i : Item K V) (t u : Tree K V)
      → length (inorder (join s c i t u)) ≡ suc (length (inorder t) + length (inorder u))
  length-inorder-join left c i t u = length-inorder-node c i t u
  length-inorder-join right c i t u = omega (arith, length-inorder-node c i u t)

  -- A path is no longer than the tree has nodes.
  pub length_path :
      (path : List (Frame K V)) (t : Tree K V)
      → length path + length (inorder t) ≤ length (inorder (plug path t))
  length_path [] t = omega arith
  length_path (f ∷ path) t = omega (
    arith,
    length_path path (join f.side f.color f.item t f.sibling),
    length-inorder-join f.side f.color f.item t f.sibling,
  )

  pub plug-Rooted :
      (path : List (Frame K V)) (t : Tree K V) → color_of (plug path t) ≡ black → Rooted path
  plug-Rooted [] t e = tt
  plug-Rooted (f ∷ []) t e = root_color f.side f.color f.item t f.sibling e
    where
      root_color :
          (s : Side) (c : _) (i : Item K V) (t u : Tree K V)
          → color_of (join s c i t u) ≡ black
          → c ≡ black
      root_color left c i t u e = e
      root_color right c i t u e = e
  plug-Rooted (f ∷ g ∷ path) t e = plug-Rooted (g ∷ path) (join f.side f.color f.item t f.sibling) e

  module _ (equal less : K → K → Bool) where
    pub reach-plug :
        (key : K) (path : List (Frame K V)) (t : Tree K V)
        → plug (reach equal less key path t).0 (reach equal less key path t).1 ≡ plug path t
    reach-plug key path leaf = refl
    reach-plug key path (node c i l r) = elim (Bool-cases (equal key i.key)) [
      | inl e ↦ rw e refl
      | inr e ↦ elim (Bool-cases (less key i.key)) [
        | inl f ↦ rw (e, f) (reach-plug key (frame left c i r ∷ path) l)
        | inr f ↦ rw (e, f) (reach-plug key (frame right c i l ∷ path) r)
      ]
    ]

    -- The last step of the way down went to the side that the keys say.
    abbrev pub Toward : K → List (Frame K V) → Type 0
    Toward key [] = Unit
    Toward key (f ∷ path) = (if less key f.item.key then left else right) ≡ f.side

    pub reach-Toward :
        (key : K) (path : List (Frame K V)) (t : Tree K V)
        → Toward key path
        → Toward key (reach equal less key path t).0
    reach-Toward key path leaf to = to
    reach-Toward key path (node c i l r) to = elim (Bool-cases (equal key i.key)) [
      | inl e ↦ rw e to
      | inr e ↦ elim (Bool-cases (less key i.key)) [
        | inl f ↦ rw (e, f) (reach-Toward key (frame left c i r ∷ path) l (rw f refl))
        | inr f ↦ rw (e, f) (reach-Toward key (frame right c i l ∷ path) r (rw f refl))
      ]
    ]

    pub reach-Focus :
        (h : Heap K V) (key : K) (path : List (Frame K V)) (t : Tree K V)
        → Focus h path t
        → Focus h (reach equal less key path t).0 (reach equal less key path t).1
    reach-Focus h key path leaf focus = focus
    reach-Focus h key path (node c i l r) focus = elim (Bool-cases (equal key i.key)) [
      | inl e ↦ rw e focus
      | inr e ↦ elim (Bool-cases (less key i.key)) [
        | inl f ↦
            rw (e, f)
              (reach-Focus h key (frame left c i r ∷ path) l
                (Focus-down h (frame left c i r) path l focus))
        | inr f ↦
            rw (e, f)
              (reach-Focus h key (frame right c i l ∷ path) r
                (Focus-down h (frame right c i l) path r focus))
      ]
    ]

    -- The loop of `operator[]` ends where `reach` says.
    pub descend-reach :
        (fuel : ℕ) (h : Heap K V) (key : K) (path : List (Frame K V)) (t : Tree K V)
        → length (inorder t) < fuel
        → Focus h path t
        → descend equal less fuel h (link t) (up path) key
          ≡ ok (link (reach equal less key path t).1, up (reach equal less key path t).0)
    unfolding descend
    descend-reach zero h key path t few focus = elim (none_below (length (inorder t)) few) [ ]
    descend-reach (suc fuel) h key path leaf few focus = refl
    descend-reach (suc fuel) h key path (node c i l r) few focus =
        let ei = read_lem h i.address _ (Focus_cell h path left c i l r focus) in
        let count = length-inorder-node c i l r in
        elim (Bool-cases (equal key i.key)) [
          | inl e ↦ rw (ei, e) refl
          | inr e ↦ elim (Bool-cases (less key i.key)) [
            | inl f ↦
                rw (ei, e, f)
                  (descend-reach fuel h key (frame left c i r ∷ path) l (omega (arith, few, count))
                    (Focus-down h (frame left c i r) path l focus))
            | inr f ↦
                rw (ei, e, f)
                  (descend-reach fuel h key (frame right c i l ∷ path) r (omega (arith, few, count))
                    (Focus-down h (frame right c i l) path r focus))
          ]
        ]

    pub search-seek :
        (fuel : ℕ) (h : Heap K V) (p : Link) (key : K) (t : Tree K V)
        → length (inorder t) < fuel
        → Holds h p t
        → search equal less fuel h (link t) key ≡ ok (link (seek equal less key t))
    unfolding search Holds
    search-seek zero h p key t few holds = elim (none_below (length (inorder t)) few) [ ]
    search-seek (suc fuel) h p key leaf few holds = refl
    search-seek (suc fuel) h p key (node c i l r) few (e, hl, hr) =
        let ei = read_lem h i.address _ e in
        let count = length-inorder-node c i l r in
        elim (Bool-cases (equal key i.key)) [
          | inl e ↦ rw (ei, e) refl
          | inr e ↦ elim (Bool-cases (less key i.key)) [
            | inl f ↦
                rw (ei, e, f)
                  (search-seek fuel h (some i.address) key l (omega (arith, few, count)) hl)
            | inr f ↦
                rw (ei, e, f)
                  (search-seek fuel h (some i.address) key r (omega (arith, few, count)) hr)
          ]
        ]

    pub seek-Holds :
        (h : Heap K V) (p : Link) (key : K) (t : Tree K V)
        → Holds h p t
        → (q : Link) × Holds h q (seek equal less key t)
    unfolding Holds
    seek-Holds h p key leaf holds = (p, tt)
    seek-Holds h p key (node c i l r) (e, hl, hr) = elim (Bool-cases (equal key i.key)) [
      | inl e' ↦ rw e' (p, (e, hl, hr))
      | inr e' ↦ elim (Bool-cases (less key i.key)) [
        | inl f ↦ rw (e', f) (seek-Holds h (some i.address) key l hl)
        | inr f ↦ rw (e', f) (seek-Holds h (some i.address) key r hr)
      ]
    ]
