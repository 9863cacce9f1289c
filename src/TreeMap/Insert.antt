-- ===== src/TreeMap/Insert.antt =====
-- PooledMap.hpp: `operator[]` on a map, whose tree is a red-black tree in the order of the keys.
use mathlib.Core.Path.{◌≡◌, subst}
use bhcpp_hptool_kit.Base.{
  ℕ, zero, suc, ◌+◌, ◌%◌, ◌^◌, ◌<◌, ◌∙◌, ap, refl, sym, inl, inr, arith, Bool, List, [], ◌∷◌, none,
  some, Bool-cases, length,
}
use bhcpp_hptool_kit.Base.Run.{ok, Returns}
use bhcpp_hptool_kit.TreeMap.{
  Color, red, black, Side, left, right, Heap, Link, TreeMap, create, fix_insert,
}
use bhcpp_hptool_kit.TreeMap.Shape.{
  Item, Tree, leaf, node, Frame, inorder, root_item, plug, link, up, top,
}
use bhcpp_hptool_kit.TreeMap.Focus.{Focus, link-plug}
use bhcpp_hptool_kit.TreeMap.Rebalance.{frame, color_of, rebalance}
use bhcpp_hptool_kit.TreeMap.FixInsert.{fix_insert-rebalance}
use bhcpp_hptool_kit.TreeMap.Search.{descend, attach, insert_new, index_at, index}
use bhcpp_hptool_kit.TreeMap.Sorted.{
  KeyOrder, Sorted, lookup, insert_item, lookup-Absent, Sorted-insert_item, length-insert_item,
}
use bhcpp_hptool_kit.TreeMap.Seek.{reach, seek, reach-seek, reach-grow, seek-lookup, inorder-grow}
use bhcpp_hptool_kit.TreeMap.Descend.{
  reach-plug, reach-Toward, reach-Focus, descend-reach, plug-Rooted, length_path,
}
use bhcpp_hptool_kit.TreeMap.Attach.{item, attach-Focus}
use bhcpp_hptool_kit.TreeMap.Inorder.{inorder-rebalance}
use bhcpp_hptool_kit.TreeMap.Balance.{RedBlack-rebalance}
use bhcpp_hptool_kit.TreeMap.RedBlack.{
  Height, NoRedPair, RedBlack, PathHeight, PathNoRedPair, Below,
}

module _ {ℓ κ} {K : Type ℓ} {V : Type κ} where
  -- A subtree and its frames make a red-black tree.
  abbrev pub Fits : ℕ → List (Frame K V) → Tree K V → Type 0
  Fits n path t =
      Height n t × PathHeight n path × NoRedPair t × Below (color_of t) path × PathNoRedPair path

  Below-black :
      (c : Color) (s : Side) (i : Item K V) (u : Tree K V) (path : List (Frame K V))
      → Below c (frame s black i u ∷ path)
  Below-black red s i u path = refl
  Below-black black s i u path = tt

  pub Fits-down :
      (n : ℕ) (path : List (Frame K V)) (c : Color) (i : Item K V) (l r : Tree K V)
      → Fits n path (node c i l r)
      → (m : ℕ) × Fits m (frame left c i r ∷ path) l × Fits m (frame right c i l ∷ path) r
  Fits-down n path red i l r ((hl, hr), ph, (cl, cr, nl, nr), below, pn) = (
    n,
    (
      hl,
      (hr, ph),
      nl,
      subst (λ c. Below c (frame left red i r ∷ path)) (sym cl) tt,
      (nr, (cr, below), pn),
    ),
    (
      hr,
      (hl, ph),
      nr,
      subst (λ c. Below c (frame right red i l ∷ path)) (sym cr) tt,
      (nl, (cl, below), pn),
    ),
  )
  Fits-down zero path black i l r (h, ph, (nl, nr), below, pn) = elim h [ ]
  Fits-down (suc m) path black i l r ((hl, hr), ph, (nl, nr), below, pn) = (
    m,
    (hl, (hr, ph), nl, Below-black (color_of l) left i r path, (nr, tt, pn)),
    (hr, (hl, ph), nr, Below-black (color_of r) right i l path, (nl, tt, pn)),
  )

  pub root_item-leaf : (t : Tree K V) → root_item t ≡ none → t ≡ leaf
  root_item-leaf leaf e = refl
  root_item-leaf (node c i l r) e = cc (e)

  pub link-root_item :
      (t : Tree K V) (i : Item K V) → root_item t ≡ some i → link t ≡ some i.address
  link-root_item leaf i e = cc (e)
  link-root_item (node c j l r) i e = let same : j ≡ i = cc (e) in ap (λ x. some x.address) same

  module _ (equal less : K → K → Bool) where
    pub reach-Fits :
        (key : K) (n : ℕ) (path : List (Frame K V)) (t : Tree K V)
        → Fits n path t
        → (m : ℕ) × Fits m (reach equal less key path t).0 (reach equal less key path t).1
    reach-Fits key n path leaf fits = (n, fits)
    reach-Fits key n path (node c i l r) fits =
        let (m, fl, fr) = Fits-down n path c i l r fits in
        elim (Bool-cases (equal key i.key)) [
          | inl e ↦ rw e (n, fits)
          | inr e ↦ elim (Bool-cases (less key i.key)) [
            | inl f ↦ rw (e, f) (reach-Fits key m (frame left c i r ∷ path) l fl)
            | inr f ↦ rw (e, f) (reach-Fits key m (frame right c i l ∷ path) r fr)
          ]
        ]

    -- The map's fields and its nodes, as a tree.
    abbrev pub IsMap : Heap K V → TreeMap → Tree K V → Type (ℓ ⊔ κ)
    IsMap h m t =
        Focus h [] t
        × (m.root ≡ link t)
        × (m.size ≡ length (inorder t))
        × Sorted equal less (inorder t)
        × RedBlack t

    -- The run of `operator[]` for a new key.
    pub index_run :
        (h h' : Heap K V) (m : TreeMap) (key : K) (v : V) (a : ℕ) (parent root : Link)
        (b : Heap K V × Link)
        → descend equal less (suc m.size) h m.root none key ≡ ok (none, parent)
        → attach equal less (create h a key v parent) m.root parent key a ≡ ok (h', root)
        → fix_insert (suc m.size) h' root (some a) ≡ ok b
        → index equal less h m key v a
          ≡ ok (b.0, record { root = b.1; size = (m.size + 1) % 2 ^ 64 }, a)
    unfolding index index_at insert_new
    index_run h h' m key v a parent root b walk write fix = rw (walk, write, fix) refl

    -- With keys under a strict total order, fewer than 2^64 - 1 nodes and a fresh address from the pool,
    -- `operator[]` with a key that the map does not have ends; its tree is again a red-black tree, whose
    -- nodes are those of before in their order, with the new key at its place among them.
    pub index-new :
        (order : KeyOrder equal less) (h : Heap K V) (m : TreeMap) (t : Tree K V) (key : K) (v : V)
        (a : ℕ)
        → IsMap h m t
        → h a ≡ none
        → lookup equal less key (inorder t) ≡ none
        → suc m.size < 2 ^ 64
        → Returns (index equal less h m key v a) λ r.
          (t' : Tree K V) × IsMap r.0 r.1 t'
          × (inorder t' ≡ insert_item equal less (item a key v) (inorder t))
          × (r.2 ≡ a)
    index-new order h m t key v a (focus, root, size, sorted, rb) free new room =
        let x = item a key v in
        let absent = lookup-Absent equal less key (inorder t) new in
        let at_leaf : seek equal less key t ≡ leaf =
          root_item-leaf (seek equal less key t)
            (seek-lookup equal less order key t sorted ∙ new) in
        let path = (reach equal less key [] t).0 in
        let end : (reach equal less key [] t).1 ≡ leaf = reach-seek equal less key [] t ∙ at_leaf in
        let at_end = subst (λ u. Focus h path u) end (reach-Focus equal less h key [] t focus) in
        let whole : plug path leaf ≡ t =
          sym (ap (λ u. plug path u) end) ∙ reach-plug equal less key [] t in
        let root' : m.root ≡ top none path =
          root ∙ sym (ap (λ u. link u) whole) ∙ link-plug path leaf in
        let walk =
          ap (λ q. descend equal less (suc m.size) h q none key) root
          ∙ descend-reach equal less (suc m.size) h key [] t (omega (arith, size)) focus
          ∙ ap (λ u. ok (link u, up path)) end in
        let (w, write, (focus1, root1)) =
          attach-Focus equal less h a key v path free (reach-Toward equal less key [] t tt)
            at_end in
        let rooted = plug-Rooted path leaf (ap (λ u. color_of u) whole ∙ rb.0) in
        let (b, fix, (focus2, root2)) =
          fix_insert-rebalance (suc m.size) w.0 path x leaf leaf
            (omega (arith, length_path path leaf, ap (λ u. length (inorder u)) whole, size)) rooted
            focus1 in
        let order' : inorder (rebalance path x leaf leaf) ≡ insert_item equal less x (inorder t) =
          inorder-rebalance path x leaf leaf
          ∙ ap (λ u. inorder u) (reach-grow equal less x [] t at_leaf)
          ∙ inorder-grow equal less order x t sorted absent in
        let ordered = Sorted-insert_item equal less order x (inorder t) sorted absent in
        let (n, fits) =
          reach-Fits key rb.2.0 [] t
            (rb.2.1, tt, rb.1, subst (λ c. Below {K = K} {V = V} c []) (sym rb.0) tt, tt) in
        let (hn, ph, nl, below, pn) = subst (λ u. Fits n path u) end fits in
        let balanced =
          RedBlack-rebalance path x leaf leaf n rooted (hn, hn, refl, refl, tt, tt) ph pn in
        let m' : TreeMap = record { root = b.1; size = (m.size + 1) % 2 ^ 64 } in
        let count : (m.size + 1) % 2 ^ 64 ≡ suc m.size = omega arith in
        (
          (b.0, m', a),
          index_run h w.0 m key v a (up path) w.1 b walk
              (ap (λ q. attach equal less (create h a key v (up path)) q (up path) key a) root'
                ∙ write)
              (ap (λ q. fix_insert (suc m.size) w.0 q (some a)) root1 ∙ fix),
          (
            rebalance path x leaf leaf,
            (
              focus2,
              root2,
              count
                  ∙ ap (λ k. suc k) size
                  ∙ sym (
                      ap (λ u. length u) order'
                      ∙ length-insert_item equal less order x (inorder t)),
              subst (λ u. Sorted equal less u) (sym order') ordered,
              balanced,
            ),
            order',
            refl,
          ),
        )

    -- The run for a key that the map has: the node with it, and nothing changes.
    pub index-present :
        (order : KeyOrder equal less) (h : Heap K V) (m : TreeMap) (t : Tree K V) (key : K) (v : V)
        (a : ℕ) (i : Item K V)
        → IsMap h m t
        → lookup equal less key (inorder t) ≡ some i
        → index equal less h m key v a ≡ ok (h, m, i.address)
    unfolding index index_at
    index-present order h m t key v a i (focus, root, size, sorted, rb) old =
        let at_node =
          link-root_item (seek equal less key t) i
            (seek-lookup equal less order key t sorted ∙ old) in
        let walk =
          ap (λ q. descend equal less (suc m.size) h q none key) root
          ∙ descend-reach equal less (suc m.size) h key [] t (omega (arith, size)) focus
          ∙ ap (λ q. ok (q, up (reach equal less key [] t).0))
              (ap (λ u. link u) (reach-seek equal less key [] t) ∙ at_node) in
        rw walk refl
