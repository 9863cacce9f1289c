-- ===== src/TreeMap/Seek.antt =====
-- PooledMap.hpp: the search in a tree, against the sorted list of its nodes.
use mathlib.Core.Path.{◌≡◌}
use bhcpp_hptool_kit.Base.{
  ◌∙◌, ap, refl, sym, inl, inr, Bool, false, List, ◌∷◌, ◌++◌, some, if◌then◌else◌, Bool-cases,
}
use bhcpp_hptool_kit.TreeMap.{left, right, red}
use bhcpp_hptool_kit.TreeMap.Shape.{Item, Tree, leaf, node, Frame, inorder, root_item, plug}
use bhcpp_hptool_kit.TreeMap.Rebalance.{frame}
use bhcpp_hptool_kit.TreeMap.Sorted.{
  KeyOrder, Each-mono, append-Each, less_distinct, less_asym, Sorted, Absent, lookup, insert_item,
  Sorted-split, lookup-left, lookup-right, insert_item-left, insert_item-right, Absent-left,
}

module _ {ℓ κ} {K : Type ℓ} {V : Type κ} (equal less : K → K → Bool) where
  -- The way down to a key: the frames above the place, and the subtree at it.
  abbrev pub reach : K → List (Frame K V) → Tree K V → List (Frame K V) × Tree K V
  reach key path leaf = (path, leaf)
  reach key path (node c i l r) =
      if equal key i.key
      then (path, node c i l r)
      else if less key i.key
      then reach key (frame left c i r ∷ path) l
      else reach key (frame right c i l ∷ path) r

  abbrev pub seek : K → Tree K V → Tree K V
  seek key leaf = leaf
  seek key (node c i l r) =
      if equal key i.key then node c i l r else if less key i.key then seek key l else seek key r

  -- The tree with a new red node at the place for its key.
  abbrev pub grow : Item K V → Tree K V → Tree K V
  grow x leaf = node red x leaf leaf
  grow x (node c i l r) = if less x.key i.key then node c i (grow x l) r else node c i l (grow x r)

  -- The way down ends at the subtree that the search finds, and up again is the whole tree.
  pub reach-seek :
      (key : K) (path : List (Frame K V)) (t : Tree K V) → (reach key path t).1 ≡ seek key t
  reach-seek key path leaf = refl
  reach-seek key path (node c i l r) = elim (Bool-cases (equal key i.key)) [
    | inl e ↦ rw e refl
    | inr e ↦ elim (Bool-cases (less key i.key)) [
      | inl f ↦ rw (e, f) (reach-seek key (frame left c i r ∷ path) l)
      | inr f ↦ rw (e, f) (reach-seek key (frame right c i l ∷ path) r)
    ]
  ]

  -- A new node at the end of the way down is the tree grown by it.
  pub reach-grow :
      (x : Item K V) (path : List (Frame K V)) (t : Tree K V)
      → seek x.key t ≡ leaf
      → plug (reach x.key path t).0 (node red x leaf leaf) ≡ plug path (grow x t)
  reach-grow x path leaf e = refl
  reach-grow x path (node c i l r) e = elim (Bool-cases (equal x.key i.key)) [
    | inl q ↦ cc (
      e,
      ap (λ b. if b then node c i l r else if less x.key i.key then seek x.key l else seek x.key r)
          q,
    )
    | inr q ↦
        let e' : (if less x.key i.key then seek x.key l else seek x.key r) ≡ leaf =
          sym (
            ap
              (λ b.
                if b then node c i l r else if less x.key i.key then seek x.key l else seek x.key r)
              q)
          ∙ e in
        elim (Bool-cases (less x.key i.key)) [
          | inl f ↦
              rw (q, f)
                (reach-grow x (frame left c i r ∷ path) l
                  (sym (ap (λ b. if b then seek x.key l else seek x.key r) f) ∙ e'))
          | inr f ↦
              rw (q, f)
                (reach-grow x (frame right c i l ∷ path) r
                  (sym (ap (λ b. if b then seek x.key l else seek x.key r) f) ∙ e'))
        ]
  ]

  module _ (order : KeyOrder equal less) where
    -- The search in the tree finds what the list has.
    pub seek-lookup :
        (key : K) (t : Tree K V)
        → Sorted equal less (inorder t)
        → root_item (seek key t) ≡ lookup equal less key (inorder t)
    seek-lookup key leaf sorted = refl
    seek-lookup key (node c i l r) sorted =
        let (sl, before, after, sr) = Sorted-split equal less (inorder l) i (inorder r) sorted in
        elim (Bool-cases (equal key i.key)) [
          | inl e ↦ rw e (
              sym (
                lookup-right equal less key (inorder l) (i ∷ inorder r) (
                  Absent-left equal less order key i.key (inorder l)
                    (inr (sym (order.equal_eq key i.key e))) before)
                ∙ ap (λ b. if b then some i else lookup equal less key (inorder r)) e))
          | inr e ↦ elim (Bool-cases (less key i.key)) [
            | inl lt ↦
                rw (e, lt)
                  (seek-lookup key l sl
                    ∙ sym (
                        lookup-left equal less key (inorder l) (i ∷ inorder r) (
                          e,
                          Each-mono (inorder r)
                              (λ x a.
                                less_distinct equal less order key x.key
                                  (order.less_trans key i.key x.key lt a))
                              after,
                        )))
            | inr ge ↦
                rw (e, ge)
                  (seek-lookup key r sr
                    ∙ sym (
                        lookup-right equal less key (inorder l) (i ∷ inorder r) (
                          Absent-left equal less order key i.key (inorder l)
                            (inl (order.less_total key i.key e ge)) before)
                        ∙ ap (λ b. if b then some i else lookup equal less key (inorder r)) e))
          ]
        ]

    -- The tree grown by a new key has the list with that key inserted.
    pub inorder-grow :
        (x : Item K V) (t : Tree K V)
        → Sorted equal less (inorder t)
        → Absent equal less x.key (inorder t)
        → inorder (grow x t) ≡ insert_item equal less x (inorder t)
    inorder-grow x leaf sorted absent = refl
    inorder-grow x (node c i l r) sorted absent =
        let (sl, before, after, sr) = Sorted-split equal less (inorder l) i (inorder r) sorted in
        let (al, (e, ar)) =
          append-Each (λ j. equal x.key j.key ≡ false) (inorder l) (i ∷ inorder r) absent in
        elim (Bool-cases (less x.key i.key)) [
          | inl lt ↦ rw lt (
              ap (λ s. s ++ i ∷ inorder r) (inorder-grow x l sl al)
              ∙ sym (insert_item-left equal less x i (inorder l) (inorder r) lt))
          | inr ge ↦
              let more = order.less_total x.key i.key e ge in
              rw ge (
                ap (λ s. inorder l ++ i ∷ s) (inorder-grow x r sr ar)
                ∙ sym (
                    insert_item-right equal less x (inorder l) (i ∷ inorder r) (
                      Each-mono (inorder l)
                        (λ j a.
                          less_asym equal less order x.key j.key
                            (order.less_trans j.key i.key x.key a more))
                        before)
                    ∙ ap
                        (λ b.
                          inorder l
                          ++ (if b
                              then x ∷ i ∷ inorder r
                              else i ∷ insert_item equal less x (inorder r)))
                        ge))
        ]
