-- ===== src/TreeMap/Reads.antt =====
-- PooledMap.hpp: `find` and `contains` on a map.
use mathlib.Core.Path.{◌≡◌}
use bhcpp_hptool_kit.Base.{suc, ◌∙◌, ap, refl, arith, Bool, true, false, Option, none, some}
use bhcpp_hptool_kit.Base.Run.{ok}
use bhcpp_hptool_kit.TreeMap.{Heap, Link, TreeMap}
use bhcpp_hptool_kit.TreeMap.Shape.{Item, Tree, leaf, node, inorder, root_item, link, Holds}
use bhcpp_hptool_kit.TreeMap.Writes.{read_lem}
use bhcpp_hptool_kit.TreeMap.Search.{search, value_at, find, is_some, contains}
use bhcpp_hptool_kit.TreeMap.Sorted.{KeyOrder, lookup}
use bhcpp_hptool_kit.TreeMap.Seek.{seek, seek-lookup}
use bhcpp_hptool_kit.TreeMap.Descend.{search-seek, seek-Holds}
use bhcpp_hptool_kit.TreeMap.Insert.{IsMap}

module _ {ℓ κ} {K : Type ℓ} {V : Type κ} where
  -- The value of a node, or the one that stands for none.
  abbrev pub value_or : Option (Item K V) → V → V
  value_or none v = v
  value_or (some i) v = i.value

  abbrev pub has_item : Option (Item K V) → Bool
  has_item none = false
  has_item (some i) = true

  pub value_at-link :
      (h : Heap K V) (p : Link) (t : Tree K V) (v : V)
      → Holds h p t
      → value_at h (link t) v ≡ ok (value_or (root_item t) v)
  unfolding value_at Holds
  value_at-link h p leaf v holds = refl
  value_at-link h p (node c i l r) v (e, hl, hr) = rw (read_lem h i.address _ e) refl

  pub is_some-link : (t : Tree K V) → is_some (link t) ≡ has_item (root_item t)
  is_some-link leaf = refl
  is_some-link (node c i l r) = refl

  module _ (equal less : K → K → Bool) where
    pub search_map :
        (h : Heap K V) (m : TreeMap) (t : Tree K V) (key : K)
        → IsMap equal less h m t
        → search equal less (suc m.size) h m.root key ≡ ok (link (seek equal less key t))
    search_map h m t key (focus, root, size, sorted, rb) =
        ap (λ q. search equal less (suc m.size) h q key) root
        ∙ search-seek equal less (suc m.size) h none key t (omega (arith, size)) focus.0

    -- With keys under a strict total order, `find` on a red-black tree ends, and gives the value that the
    -- sorted list of its nodes has for the key, or `Value()`.
    pub find-lookup :
        (order : KeyOrder equal less) (h : Heap K V) (m : TreeMap) (t : Tree K V) (key : K) (v : V)
        → IsMap equal less h m t
        → find equal less h m key v ≡ ok (value_or (lookup equal less key (inorder t)) v)
    unfolding find
    find-lookup order h m t key v map =
        let (q, holds) = seek-Holds equal less h none key t map.0.0 in
        rw (search_map h m t key map) (
          value_at-link h q (seek equal less key t) v holds
          ∙ ap (λ i. ok (value_or i v)) (seek-lookup equal less order key t map.3))

    -- `contains` ends, and says whether the sorted list of the map has the key.
    pub contains-lookup :
        (order : KeyOrder equal less) (h : Heap K V) (m : TreeMap) (t : Tree K V) (key : K)
        → IsMap equal less h m t
        → contains equal less h m key ≡ ok (has_item (lookup equal less key (inorder t)))
    unfolding contains
    contains-lookup order h m t key map = rw (search_map h m t key map) (
        ap (λ b. ok b)
          (is_some-link (seek equal less key t)
            ∙ ap (λ i. has_item i) (seek-lookup equal less order key t map.3)))
