-- ===== src/TreeMap/RoundTrip.antt =====
-- PooledMap.hpp: what `find` gives after `map[key] = v`.
use mathlib.Core.Path.{◌≡◌, subst}
use bhcpp_hptool_kit.Base.{
  ℕ, suc, ◌<◌, ◌^◌, ◌∙◌, ap, refl, sym, inl, inr, Bool, false, [], none, some, if◌then◌else◌,
  Bool-cases, Option-cases, length, map,
}
use bhcpp_hptool_kit.Base.Run.{ok, Returns}
use bhcpp_hptool_kit.TreeMap.{Color, Heap, TreeMap, update, with_value}
use bhcpp_hptool_kit.TreeMap.Shape.{Item, Tree, leaf, node, inorder, root_item, plug}
use bhcpp_hptool_kit.TreeMap.Focus.{Focus, Focus-top}
use bhcpp_hptool_kit.TreeMap.Search.{index, assign, find}
use bhcpp_hptool_kit.TreeMap.Sorted.{KeyOrder, lookup, lookup-Absent}
use bhcpp_hptool_kit.TreeMap.Seek.{reach, seek, reach-seek, seek-lookup}
use bhcpp_hptool_kit.TreeMap.Descend.{reach-Focus}
use bhcpp_hptool_kit.TreeMap.Attach.{item}
use bhcpp_hptool_kit.TreeMap.Alike.{
  Alike-link, Alike-RedBlack, Alike-Sorted, Alike-keys, length-keys,
}
use bhcpp_hptool_kit.TreeMap.Insert.{IsMap, index-new, index-present}
use bhcpp_hptool_kit.TreeMap.Reads.{value_or, find-lookup}
use bhcpp_hptool_kit.TreeMap.Assign.{
  revalue, with_entry, set_at, set_root, reach-set_at, set_at-Alike, lookup-with_entry_same,
  lookup-with_entry_other, lookup-insert_item_same, lookup-insert_item_other, inorder-set_at,
}

module _ {ℓ κ} {K : Type ℓ} {V : Type κ} where
  pub root_item-node :
      (t : Tree K V) (j : Item K V)
      → root_item t ≡ some j
      → (c : Color) × (l : Tree K V) × (r : Tree K V) × (t ≡ node c j l r)
  root_item-node leaf j e = cc (e)
  root_item-node (node c i l r) j e =
      let same : i ≡ j = cc (e) in (c, l, r, ap (λ x. node c x l r) same)

  module _ (equal less : K → K → Bool) (order : KeyOrder equal less) where
    -- A write to the value of a key of the map.
    pub update-IsMap :
        (h : Heap K V) (m : TreeMap) (t : Tree K V) (key : K) (v : V) (j : Item K V)
        → IsMap equal less h m t
        → lookup equal less key (inorder t) ≡ some j
        → Returns
            (update (with_value v) h (some j.address))
            λ h'. IsMap equal less h' m (set_at equal less key v t)
    update-IsMap h m t key v j (focus, root, size, sorted, rb) old =
        let (c, l, r, e) =
          root_item-node (seek equal less key t) j
            (seek-lookup equal less order key t sorted ∙ old) in
        let path = (reach equal less key [] t).0 in
        let end : (reach equal less key [] t).1 ≡ node c j l r =
          reach-seek equal less key [] t ∙ e in
        let (h', run, focus') =
          revalue h path c j v l r
            (subst (λ u. Focus h path u) end (reach-Focus equal less h key [] t focus)) in
        let whole : plug path (node c (item j.address j.key v) l r) ≡ set_at equal less key v t =
          sym (ap (λ u. plug path (set_root equal less v u)) end)
          ∙ reach-set_at equal less key v [] t in
        let alike = set_at-Alike equal less key v t in
        (
          h',
          run,
          (
            subst (λ u. Focus h' [] u) whole
                (Focus-top h' path (node c (item j.address j.key v) l r) focus'),
            root ∙ Alike-link t (set_at equal less key v t) alike,
            size
                ∙ sym (length-keys (inorder t))
                ∙ ap (λ ks. length ks) (Alike-keys t (set_at equal less key v t) alike)
                ∙ length-keys (inorder (set_at equal less key v t)),
            Alike-Sorted equal less t (set_at equal less key v t) alike sorted,
            Alike-RedBlack t (set_at equal less key v t) alike rb,
          ),
        )

    -- `operator[]` leaves the map with an entry for the key, and the other entries as they were.
    abbrev pub Entered : Tree K V → K → Heap K V × TreeMap × ℕ → Type (ℓ ⊔ κ)
    Entered t key r =
        (t' : Tree K V) × IsMap equal less r.0 r.1 t'
        × ((j : Item K V) × (lookup equal less key (inorder t') ≡ some j) × (r.2 ≡ j.address))
        × ((k : K)
            → equal k key ≡ false
            → lookup equal less k (inorder t') ≡ lookup equal less k (inorder t))

    pub index-Entered :
        (h : Heap K V) (m : TreeMap) (t : Tree K V) (key : K) (d : V) (a : ℕ)
        → IsMap equal less h m t
        → h a ≡ none
        → suc m.size < 2 ^ 64
        → Returns (index equal less h m key d a) (Entered t key)
    index-Entered h m t key d a is_map free room =
        elim (Option-cases (lookup equal less key (inorder t))) [
          | inl new ↦
              let (r, run, (t', is_map', listed, at)) =
                index-new equal less order h m t key d a is_map free new room in
              let x = item a key d in
              let absent = lookup-Absent equal less key (inorder t) new in
              (
                r,
                run,
                (
                  t',
                  is_map',
                  (
                    x,
                    ap (λ xs. lookup equal less key xs) listed
                        ∙ lookup-insert_item_same equal less order x (inorder t) absent,
                    at,
                  ),
                  λ k other.
                      ap (λ xs. lookup equal less k xs) listed
                      ∙ lookup-insert_item_other equal less order x k (inorder t) other,
                ),
              )
          | inr (j, old) ↦ (
            (h, m, j.address),
            index-present equal less order h m t key d a j is_map old,
            (t, is_map, (j, old, refl), λ k other. refl),
          )
        ]

    -- With keys under a strict total order, fewer than 2^64 - 1 nodes and a fresh address from the pool,
    -- `map[key] = v` on a red-black tree ends, and after it `find` gives `v` for that key and for any other
    -- key what it gave before.
    pub assign-find :
        (h : Heap K V) (m : TreeMap) (t : Tree K V) (key other : K) (d v d' : V) (a : ℕ)
        → IsMap equal less h m t
        → h a ≡ none
        → suc m.size < 2 ^ 64
        → Returns (assign equal less h m key d a v) λ r.
          find equal less r.0 r.1 other d'
          ≡ (if equal other key then ok v else find equal less h m other d')
    unfolding assign
    assign-find h m t key other d v d' a is_map free room =
        let (r, run, (t1, is_map1, (j, entry, at), others)) =
          index-Entered h m t key d a is_map free room in
        let (h2, run2, is_map2) = update-IsMap r.0 r.1 t1 key v j is_map1 entry in
        let t2 = set_at equal less key v t1 in
        let listed = inorder-set_at equal less order key v t1 is_map1.3 in
        let found : find equal less h2 r.1 other d'
            ≡ ok (
                value_or (lookup equal less other (map (with_entry equal less key v) (inorder t1)))
                  d') =
          find-lookup equal less order h2 r.1 t2 other d' is_map2
          ∙ ap (λ xs. ok (value_or (lookup equal less other xs) d')) listed in
        (
          (h2, r.1),
          rw (run, at, run2) refl,
          elim (Bool-cases (equal other key)) [
            | inl e ↦ rw e (
                found
                ∙ ap
                    (λ k. ok (
                      value_or
                        (lookup equal less k (map (with_entry equal less key v) (inorder t1))) d'))
                    (order.equal_eq other key e)
                ∙ ap (λ x. ok x) (lookup-with_entry_same equal less key v d' (inorder t1) j entry))
            | inr e ↦ rw e (
                found
                ∙ ap (λ x. ok x)
                    (lookup-with_entry_other equal less order key other v (inorder t1) d' e)
                ∙ ap (λ i. ok (value_or i d')) (others other e)
                ∙ sym (find-lookup equal less order h m t other d' is_map))
          ],
        )
