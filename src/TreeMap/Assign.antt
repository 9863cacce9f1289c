-- ===== src/TreeMap/Assign.antt =====
-- PooledMap.hpp: `map[key] = v`, and what `find` gives after it.
use mathlib.Core.Path.{◌≡◌}
use bhcpp_hptool_kit.Base.{
  ◌∙◌, ap, refl, sym, inl, inr, arith, Bool, false, List, [], ◌∷◌, ◌++◌, some, map, if◌then◌else◌,
  Bool-cases,
}
use bhcpp_hptool_kit.Base.Run.{Returns}
use bhcpp_hptool_kit.TreeMap.{Color, left, right, Heap, update, with_value}
use bhcpp_hptool_kit.TreeMap.Shape.{
  Item, Tree, leaf, node, Frame, inorder, plug, link, up, here, cell, Holds, occurs,
}
use bhcpp_hptool_kit.TreeMap.Writes.{update_lem, Holds-frame, HoldsPath-frame}
use bhcpp_hptool_kit.TreeMap.Focus.{Focus}
use bhcpp_hptool_kit.TreeMap.Rebalance.{frame}
use bhcpp_hptool_kit.TreeMap.Sorted.{
  KeyOrder, Sorted, Sorted-split, Absent, lookup, insert_item, Absent-left, Absent-right,
}
use bhcpp_hptool_kit.TreeMap.Seek.{reach}
use bhcpp_hptool_kit.TreeMap.Attach.{item}
use bhcpp_hptool_kit.TreeMap.Alike.{Alike, alike_leaf, alike_node, Alike-refl}
use bhcpp_hptool_kit.TreeMap.Reads.{value_or}

module _ {ℓ κ} {K : Type ℓ} {V : Type κ} where
  -- A write to the value of a node.
  pub revalue :
      (h : Heap K V) (path : List (Frame K V)) (c : Color) (i : Item K V) (v : V) (l r : Tree K V)
      → Focus h path (node c i l r)
      → Returns
          (update (with_value v) h (some i.address))
          λ h'. Focus h' path (node c (item i.address i.key v) l r)
  unfolding Holds occurs
  revalue h path c i v l r ((e, hl, hr), around, once) =
      let n = cell left c i (up path) (link l) (link r) in
      let (h', run, (e', same)) = update_lem h i.address n (with_value v) e in
      (
        h',
        run,
        (
          (
            e',
            Holds-frame h h' (here i.address) (some i.address) l same (λ a. omega (arith, once a))
                hl,
            Holds-frame h h' (here i.address) (some i.address) r same (λ a. omega (arith, once a))
                hr,
          ),
          HoldsPath-frame h h' (here i.address) (some i.address) path same
              (λ a. omega (arith, once a)) around,
          once,
        ),
      )

  module _ (equal less : K → K → Bool) where
    -- The list with another value for a key.
    abbrev pub with_entry : K → V → Item K V → Item K V
    with_entry key v i = if equal key i.key then item i.address i.key v else i

    abbrev pub set_at : K → V → Tree K V → Tree K V
    set_at key v leaf = leaf
    set_at key v (node c i l r) =
        if equal key i.key
        then node c (item i.address i.key v) l r
        else if less key i.key
        then node c i (set_at key v l) r
        else node c i l (set_at key v r)

    abbrev pub set_root : V → Tree K V → Tree K V
    set_root v leaf = leaf
    set_root v (node c i l r) = node c (item i.address i.key v) l r

    pub reach-set_at :
        (key : K) (v : V) (path : List (Frame K V)) (t : Tree K V)
        → plug (reach equal less key path t).0 (set_root v (reach equal less key path t).1)
          ≡ plug path (set_at key v t)
    reach-set_at key v path leaf = refl
    reach-set_at key v path (node c i l r) = elim (Bool-cases (equal key i.key)) [
      | inl e ↦ rw e refl
      | inr e ↦ elim (Bool-cases (less key i.key)) [
        | inl f ↦ rw (e, f) (reach-set_at key v (frame left c i r ∷ path) l)
        | inr f ↦ rw (e, f) (reach-set_at key v (frame right c i l ∷ path) r)
      ]
    ]

    pub set_at-Alike : (key : K) (v : V) (t : Tree K V) → Alike t (set_at key v t)
    set_at-Alike key v leaf = alike_leaf
    set_at-Alike key v (node c i l r) = elim (Bool-cases (equal key i.key)) [
      | inl e ↦ rw e (alike_node c i.address i.key i.value v l l r r (Alike-refl l) (Alike-refl r))
      | inr e ↦ elim (Bool-cases (less key i.key)) [
        | inl f ↦
            rw (e, f)
              (alike_node c i.address i.key i.value i.value l (set_at key v l) r r
                (set_at-Alike key v l) (Alike-refl r))
        | inr f ↦
            rw (e, f)
              (alike_node c i.address i.key i.value i.value l l r (set_at key v r) (Alike-refl l)
                (set_at-Alike key v r))
      ]
    ]

    pub map-with_entry-Absent :
        (key : K) (v : V) (xs : List (Item K V))
        → Absent equal less key xs
        → map (with_entry key v) xs ≡ xs
    map-with_entry-Absent key v [] a = refl
    map-with_entry-Absent key v (x ∷ xs) (e, a) =
        rw e (ap (λ r. x ∷ r) (map-with_entry-Absent key v xs a))

    pub map-with_entry-append :
        (key : K) (v : V) (xs ys : List (Item K V))
        → map (with_entry key v) (xs ++ ys) ≡ map (with_entry key v) xs ++ map (with_entry key v) ys
    map-with_entry-append key v [] ys = refl
    map-with_entry-append key v (x ∷ xs) ys =
        ap (λ r. with_entry key v x ∷ r) (map-with_entry-append key v xs ys)

    -- The entry of the key, and those of the others, after a write.
    pub lookup-with_entry_same :
        (key : K) (v d : V) (xs : List (Item K V)) (j : Item K V)
        → lookup equal less key xs ≡ some j
        → value_or (lookup equal less key (map (with_entry key v) xs)) d ≡ v
    lookup-with_entry_same key v d [] j e = cc (e)
    lookup-with_entry_same key v d (x ∷ xs) j e = elim (Bool-cases (equal key x.key)) [
      | inl f ↦ rw (f, f) refl
      | inr f ↦
          rw (f, f)
            (lookup-with_entry_same key v d xs j
              (sym (ap (λ b. if b then some x else lookup equal less key xs) f) ∙ e))
    ]

    module _ (order : KeyOrder equal less) where
      pub lookup-with_entry_other :
          (key other : K) (v : V) (xs : List (Item K V)) (d : V)
          → equal other key ≡ false
          → value_or (lookup equal less other (map (with_entry key v) xs)) d
            ≡ value_or (lookup equal less other xs) d
      lookup-with_entry_other key other v [] d e = refl
      lookup-with_entry_other key other v (x ∷ xs) d e = elim (Bool-cases (equal key x.key)) [
        | inl f ↦
            let skip : equal other x.key ≡ false =
              sym (ap (λ k. equal other k) (order.equal_eq key x.key f)) ∙ e in
            rw (f, skip) (lookup-with_entry_other key other v xs d e)
        | inr f ↦ rw f (elim (Bool-cases (equal other x.key)) [
          | inl g ↦ rw g refl
          | inr g ↦ rw g (lookup-with_entry_other key other v xs d e)
        ])
      ]

      pub lookup-insert_item_same :
          (x : Item K V) (xs : List (Item K V))
          → Absent equal less x.key xs
          → lookup equal less x.key (insert_item equal less x xs) ≡ some x
      lookup-insert_item_same x [] a = rw (order.equal_refl x.key) refl
      lookup-insert_item_same x (y ∷ xs) (n, a) = elim (Bool-cases (less x.key y.key)) [
        | inl f ↦ rw (f, order.equal_refl x.key) refl
        | inr f ↦ rw (f, n) (lookup-insert_item_same x xs a)
      ]

      pub lookup-insert_item_other :
          (x : Item K V) (key : K) (xs : List (Item K V))
          → equal key x.key ≡ false
          → lookup equal less key (insert_item equal less x xs) ≡ lookup equal less key xs
      lookup-insert_item_other x key [] n = rw n refl
      lookup-insert_item_other x key (y ∷ xs) n = elim (Bool-cases (less x.key y.key)) [
        | inl f ↦ rw (f, n) refl
        | inr f ↦
            rw f (
              ap (λ r. if equal key y.key then some y else r) (lookup-insert_item_other x key xs n))
      ]

      -- The list of the tree with another value.
      pub inorder-set_at :
          (key : K) (v : V) (t : Tree K V)
          → Sorted equal less (inorder t)
          → inorder (set_at key v t) ≡ map (with_entry key v) (inorder t)
      inorder-set_at key v leaf sorted = refl
      inorder-set_at key v (node c i l r) sorted =
          let (sl, before, after, sr) = Sorted-split equal less (inorder l) i (inorder r) sorted in
          let split = map-with_entry-append key v (inorder l) (i ∷ inorder r) in
          elim (Bool-cases (equal key i.key)) [
            | inl e ↦
                let same = order.equal_eq key i.key e in
                rw e (
                  sym (
                    split
                    ∙ ap (λ x. x ++ with_entry key v i ∷ map (with_entry key v) (inorder r))
                        (map-with_entry-Absent key v (inorder l) (
                          Absent-left equal less order key i.key (inorder l) (inr (sym same))
                            before))
                    ∙ ap (λ x. inorder l ++ with_entry key v i ∷ x)
                        (map-with_entry-Absent key v (inorder r)
                          (Absent-right equal less order key i.key (inorder r) (inr same) after))
                    ∙ ap (λ b. inorder l ++ (if b then item i.address i.key v else i) ∷ inorder r)
                        e))
            | inr e ↦ elim (Bool-cases (less key i.key)) [
              | inl lt ↦
                  rw (e, lt)
                    (ap (λ x. x ++ i ∷ inorder r) (inorder-set_at key v l sl)
                      ∙ sym (
                          split
                          ∙ ap (λ x. map (with_entry key v) (inorder l) ++ with_entry key v i ∷ x)
                              (map-with_entry-Absent key v (inorder r) (
                                Absent-right equal less order key i.key (inorder r) (inl lt) after))
                          ∙ ap
                              (λ b.
                                map (with_entry key v) (inorder l)
                                ++ (if b then item i.address i.key v else i) ∷ inorder r)
                              e))
              | inr ge ↦
                  rw (e, ge)
                    (ap (λ x. inorder l ++ i ∷ x) (inorder-set_at key v r sr)
                      ∙ sym (
                          split
                          ∙ ap (λ x. x ++ with_entry key v i ∷ map (with_entry key v) (inorder r))
                              (map-with_entry-Absent key v (inorder l) (
                                Absent-left equal less order key i.key (inorder l)
                                  (inl (order.less_total key i.key e ge)) before))
                          ∙ ap
                              (λ b.
                                inorder l
                                ++ (if b then item i.address i.key v else i)
                                  ∷ map (with_entry key v) (inorder r))
                              e))
            ]
          ]
