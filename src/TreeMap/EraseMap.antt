-- ===== src/TreeMap/EraseMap.antt =====
-- PooledMap.hpp: `erase` on a map, whose tree is a red-black tree in the order of the keys.
use mathlib.Core.Path.{◌≡◌, subst}
use mathlib.Core.List.{append_assoc}
use bhcpp_hptool_kit.Base.{
  ℕ, suc, ◌+◌, ◌-◌, ◌%◌, ◌^◌, ◌<◌, ◌∙◌, ap, refl, sym, arith, Bool, true, List, [], ◌∷◌, ◌++◌, some,
  none, length, length-append, if◌then◌else◌,
}
use bhcpp_hptool_kit.Base.Run.{ok, Returns}
use bhcpp_hptool_kit.TreeMap.{
  Link, Color, black, left, Heap, TreeMap, is_black, write_node, recycle,
}
use bhcpp_hptool_kit.TreeMap.Shape.{
  Item, Tree, node, Frame, link, cell, Cell, up, top, plug, inorder,
}
use bhcpp_hptool_kit.TreeMap.Writes.{read_lem}
use bhcpp_hptool_kit.TreeMap.Focus.{Focus, Focus_cell, link-plug}
use bhcpp_hptool_kit.TreeMap.Rebalance.{color_of}
use bhcpp_hptool_kit.TreeMap.RedBlack.{Below, RedBlack}
use bhcpp_hptool_kit.TreeMap.Sorted.{KeyOrder, Each, Sorted, lookup}
use bhcpp_hptool_kit.TreeMap.Seek.{reach, seek, reach-seek, seek-lookup}
use bhcpp_hptool_kit.TreeMap.Descend.{reach-plug, reach-Focus, length_path, length-inorder-node}
use bhcpp_hptool_kit.TreeMap.Insert.{Fits, reach-Fits, IsMap, root_item-leaf}
use bhcpp_hptool_kit.TreeMap.Reads.{search_map}
use bhcpp_hptool_kit.TreeMap.RoundTrip.{root_item-node}
use bhcpp_hptool_kit.TreeMap.Search.{search}
use bhcpp_hptool_kit.TreeMap.Erase.{Unlinked, unlink, fix_erase, erase_node, erase}
use bhcpp_hptool_kit.TreeMap.Clear.{recycle_run}
use bhcpp_hptool_kit.TreeMap.Gap.{inorder_around, close-Gap}
use bhcpp_hptool_kit.TreeMap.EraseInner.{unlink_lem}

pub less_one : (n k : ℕ) → n ≡ suc k → n < 2 ^ 64 → (n + 2 ^ 64 - 1) % 2 ^ 64 ≡ k
less_one n k e small = omega (arith, e, small)

module _ {ℓ κ} {K : Type ℓ} {V : Type κ} (equal less : K → K → Bool) where
  pub Sorted-without :
      (xs : List (Item K V)) (i : Item K V) (ys : List (Item K V))
      → Sorted equal less (xs ++ i ∷ ys)
      → Sorted equal less (xs ++ ys)
  Sorted-without [] i ys (a, s) = s
  Sorted-without (x ∷ xs) i ys (a, s) = (Each-without xs a, Sorted-without xs i ys s)
    where
      Each-without :
          (zs : List (Item K V))
          → Each (λ j. less x.key j.key ≡ true) (zs ++ i ∷ ys)
          → Each (λ j. less x.key j.key ≡ true) (zs ++ ys)
      Each-without [] (p, e) = e
      Each-without (z ∷ zs) (p, e) = (p, Each-without zs e)

  pub erase_run :
      (h : Heap K V) (m : TreeMap) (key : K) (c : Color) (i : Item K V) (p l r : Link)
      (d : Unlinked K V) (b : Heap K V × Link)
      → search equal less (suc m.size) h m.root key ≡ ok (some i.address)
      → Cell h left c i p l r
      → unlink (suc m.size) h m.root (some i.address) (cell left c i p l r) l r ≡ ok d
      → recycle d.heap i.address ≡ ok (write_node d.heap i.address none)
      → (if is_black d.lost
          then fix_erase (suc m.size) (write_node d.heap i.address none) d.root d.x d.x_parent
          else ok (write_node d.heap i.address none, d.root))
        ≡ ok b
      → erase equal less h m key
        ≡ ok (b.0, record { root = b.1; size = (m.size + 2 ^ 64 - 1) % 2 ^ 64 }, 1)
  unfolding erase erase_node
  erase_run h m key c i p l r d b run0 e run1 freed run2 =
      rw (run0, read_lem h i.address _ e, run1, freed, run2) refl

  -- The nodes of before without one.
  abbrev pub Without : Item K V → Tree K V → Tree K V → Type (ℓ ⊔ κ)
  Without i t t' =
      (xs : List (Item K V)) × (ys : List (Item K V)) × (inorder t ≡ xs ++ i ∷ ys)
      × (inorder t' ≡ xs ++ ys)

  -- The lists around a node in the order of the whole tree.
  pub split_order :
      (path : List (Frame K V)) (c : Color) (i : Item K V) (l r t t' : Tree K V)
      → plug path (node c i l r) ≡ t
      → inorder t'
        ≡ (inorder_around path).0 ++ ((inorder l ++ inorder r) ++ (inorder_around path).1)
      → Without i t t'
  split_order path c i l r t t' whole e =
      let (b, a, around) = inorder_around path in
      (
        b ++ inorder l,
        inorder r ++ a,
        sym (ap (λ u. inorder u) whole)
            ∙ around (node c i l r)
            ∙ ap (λ x. b ++ x) (append_assoc (inorder l) (i ∷ inorder r) a)
            ∙ sym (append_assoc b (inorder l) (i ∷ inorder r ++ a)),
        e
            ∙ ap (λ x. b ++ x) (append_assoc (inorder l) (inorder r) a)
            ∙ sym (append_assoc b (inorder l) (inorder r ++ a)),
      )

  -- The fields of the map when a node is out of its tree.
  pub IsMap-without :
      (h : Heap K V) (root : Link) (size : ℕ) (t t' : Tree K V) (i : Item K V)
      (xs ys : List (Item K V))
      → size ≡ length (inorder t)
      → size < 2 ^ 64
      → Sorted equal less (inorder t)
      → inorder t ≡ xs ++ i ∷ ys
      → inorder t' ≡ xs ++ ys
      → Focus h [] t'
      → root ≡ link t'
      → RedBlack t'
      → IsMap equal less h (record { root = root; size = (size + 2 ^ 64 - 1) % 2 ^ 64 }) t'
  IsMap-without h root size t t' i xs ys counted small sorted before listed focus at_root rb =
      let one : size ≡ suc (length xs + length ys) =
        omega (arith, counted, ap (λ u. length u) before, length-append xs (i ∷ ys)) in
      (
        focus,
        at_root,
        less_one size (length xs + length ys) one small
            ∙ sym (ap (λ u. length u) listed ∙ length-append xs ys),
        subst (λ u. Sorted equal less u) (sym listed)
            (Sorted-without xs i ys (subst (λ u. Sorted equal less u) before sorted)),
        rb,
      )

  module _ (order : KeyOrder equal less) where
    -- The node of a key, its frames, and what the search for it gives.
    abbrev pub Located : Heap K V → TreeMap → Tree K V → K → Item K V → Type (ℓ ⊔ κ)
    Located h m t key i =
        (c : Color) × (l : Tree K V) × (r : Tree K V) × (path : List (Frame K V)) × (search equal
            less (suc m.size) h m.root key
          ≡ ok (some i.address))
        × Focus h path (node c i l r)
        × ((n : ℕ) × Fits n path (node c i l r))
        × (plug path (node c i l r) ≡ t)
        × (m.root ≡ top (some i.address) path)

    pub locate_node :
        (h : Heap K V) (m : TreeMap) (t : Tree K V) (key : K) (i : Item K V)
        → IsMap equal less h m t
        → lookup equal less key (inorder t) ≡ some i
        → Located h m t key i
    locate_node h m t key i is_map old =
        let (focus, root, size, sorted, rb) = is_map in
        let (c, l, r, e) =
          root_item-node (seek equal less key t) i
            (seek-lookup equal less order key t sorted ∙ old) in
        let z = node c i l r in
        let path = (reach equal less key [] t).0 in
        let end : (reach equal less key [] t).1 ≡ z = reach-seek equal less key [] t ∙ e in
        let whole : plug path z ≡ t =
          sym (ap (λ u. plug path u) end) ∙ reach-plug equal less key [] t in
        let (n, fits) =
          reach-Fits equal less key rb.2.0 [] t
            (rb.2.1, tt, rb.1, subst (λ c. Below {K = K} {V = V} c []) (sym rb.0) tt, tt) in
        (
          c,
          l,
          r,
          path,
          search_map equal less h m t key is_map ∙ ap (λ u. ok (link u)) e,
          subst (λ u. Focus h path u) end (reach-Focus equal less h key [] t focus),
          (n, subst (λ u. Fits n path u) end fits),
          whole,
          root ∙ sym (ap (λ u. link u) whole) ∙ link-plug path z,
        )

    -- With keys under a strict total order and fewer than 2^64 nodes, `erase` of a key that the map has
    -- ends and returns 1; its tree is again a red-black tree, whose nodes are those of before without
    -- the node of the key.
    pub erase-present :
        (h : Heap K V) (m : TreeMap) (t : Tree K V) (key : K) (i : Item K V)
        → IsMap equal less h m t
        → lookup equal less key (inorder t) ≡ some i
        → m.size < 2 ^ 64
        → Returns
            (erase equal less h m key)
            λ r. (t' : Tree K V) × IsMap equal less r.0 r.1 t' × Without i t t' × (r.2 ≡ 1)
    erase-present h m t key i is_map old small =
        let (focus, root, size, sorted, rb) = is_map in
        let (c, l, r, path, found, at_z, (n, fits), whole, root') =
          locate_node h m t key i is_map old in
        let z = node c i l r in
        let dark : color_of (plug path z) ≡ black = ap (λ u. color_of u) whole ∙ rb.0 in
        let ez = Focus_cell h path left c i l r at_z in
        let few : length (inorder r) < suc m.size = omega (
          arith,
          size,
          length_path path z,
          ap (λ u. length (inorder u)) whole,
          length-inorder-node c i l r,
        ) in
        let (d, run1, (path', v, gap, removed)) =
          unlink_lem (suc m.size) n h path c i l r m.root root' at_z fits dark few in
        let (_, _, _, _, _, _, (nz, ez')) = gap in
        let freed = recycle_run d.heap i.address nz ez' in
        let (xs, ys, before, after) = split_order path c i l r t (plug path' v) whole removed in
        let one : m.size ≡ suc (length xs + length ys) =
          omega (arith, size, ap (λ u. length u) before, length-append xs (i ∷ ys)) in
        let room : suc (length path') < suc m.size =
          omega (arith, one, length_path path' v, ap (λ u. length u) after, length-append xs ys) in
        let (b, run2, (t', (focus', root''), order', rb')) =
          close-Gap (suc m.size) i.address d.heap d.root d.x d.x_parent d.lost path' v room gap in
        let listed : inorder t' ≡ xs ++ ys = order' ∙ after in
        (
          (b.0, record { root = b.1; size = (m.size + 2 ^ 64 - 1) % 2 ^ 64 }, 1),
          erase_run h m key c i (up path) (link l) (link r) d b found ez run1 freed run2,
          (
            t',
            IsMap-without b.0 b.1 m.size t t' i xs ys size small sorted before listed focus' root''
                rb',
            (xs, ys, before, listed),
            refl,
          ),
        )

    -- `erase` of a key that the map does not have returns 0 and changes nothing.
    pub erase-absent :
        (h : Heap K V) (m : TreeMap) (t : Tree K V) (key : K)
        → IsMap equal less h m t
        → lookup equal less key (inorder t) ≡ none
        → erase equal less h m key ≡ ok (h, m, 0)
    unfolding erase erase_node
    erase-absent h m t key is_map new =
        rw
          (search_map equal less h m t key is_map
            ∙ ap (λ u. ok (link u))
                (root_item-leaf (seek equal less key t)
                  (seek-lookup equal less order key t is_map.3 ∙ new)))
          refl
