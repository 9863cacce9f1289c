-- ===== src/TreeMap/Erase.antt =====
-- PooledMap.hpp: `erase`, and the loop that restores the colours after it.
use bhcpp_hptool_kit.Base.{
  ℕ, zero, suc, ◌+◌, ◌-◌, ◌%◌, ◌^◌, Bool, true, false, ◌||◌, none, some, if◌then◌else◌,
}
use bhcpp_hptool_kit.Base.Run.{Run, ok, fault, diverges, ◌>>=◌}
use bhcpp_hptool_kit.TreeMap.{
  Link, Color, black, red, Side, left, right, opposite, Node, Heap, TreeMap, same_link, is_black,
  child, with_child, with_parent, with_color, read_node, update, link_parent, recycle,
  replace_child, rotate, is_red,
}
use bhcpp_hptool_kit.TreeMap.Search.{search}

-- What `erase` has found out when the node is out of the tree: the colour that the tree has lost, the
-- node `x` in the place of the one that moved, and the node above it.
pub record Unlinked {ℓ κ} (K : Type ℓ) (V : Type κ) : Type (ℓ ⊔ κ) where
  pub heap : Heap K V
  pub root : Link
  pub lost : Color
  pub x : Link
  pub x_parent : Link

module _ {ℓ κ} {K : Type ℓ} {V : Type κ} where
  unfoldable pub minimum : ℕ → Heap K V → Link → Run Link
  minimum zero heap p = fault diverges
  minimum (suc fuel) heap p = do
    n ← read_node heap p
    elim n.left_child [ none ↦ ok p | some a ↦ minimum fuel heap (some a) ]

  -- The subtree at `v` takes the place of the one at `u`.
  unfoldable pub transplant : Heap K V → Link → Link → Link → Run (Heap K V × Link)
  transplant heap root u v = do
    n ← read_node heap u
    r ← replace_child left heap root n.parent u v
    n' ← read_node r.0 u
    h ← link_parent r.0 v n'.parent
    ok (h, r.1)

  -- `if (p) p->color = BLACK;`
  unfoldable pub blacken_link : Heap K V → Link → Run (Heap K V)
  blacken_link heap none = ok heap
  blacken_link heap (some a) = update (with_color black) heap (some a)

  -- the successor `y` of `z`, taken out of its place: the heap, the root and `x_parent`
  unfoldable pub lift : Heap K V → Link → Link → Link → Link → Link → Run (Heap K V × Link × Link)
  lift heap root z y y_parent x =
      if same_link y_parent z then (do h ← link_parent heap x y; ok (h, root, y)) else (do
        r ← transplant heap root y x
        zn ← read_node r.0 z
        h1 ← update (with_child right zn.right_child) r.0 y
        y1 ← read_node h1 y
        h2 ← update (with_parent y) h1 y1.right_child
        y2 ← read_node h2 y
        ok (h2, r.1, y2.parent))

  -- `y` takes the place of `z`, its left child and its colour
  unfoldable pub take_place : Heap K V → Link → Link → Link → Run (Heap K V × Link)
  take_place heap root z y = do
    r ← transplant heap root z y
    z1 ← read_node r.0 z
    h1 ← update (with_child left z1.left_child) r.0 y
    y1 ← read_node h1 y
    h2 ← update (with_parent y) h1 y1.left_child
    z2 ← read_node h2 z
    h3 ← update (with_color z2.color) h2 y
    ok (h3, r.1)

  -- `erase` of a node with two children
  unfoldable pub unlink_inner : ℕ → Heap K V → Link → Link → Link → Run (Unlinked K V)
  unlink_inner fuel heap root z right_link = do
    y ← minimum fuel heap right_link
    yn ← read_node heap y
    up ← lift heap root z y yn.parent yn.right_child
    r ← take_place up.0 up.1 z y
    ok (record { heap = r.0; root = r.1; lost = yn.color; x = yn.right_child; x_parent = up.2 })

  unfoldable pub unlink_outer : Heap K V → Link → Link → Node K V → Link → Run (Unlinked K V)
  unlink_outer heap root z n x = do
    r ← transplant heap root z x
    ok (record { heap = r.0; root = r.1; lost = n.color; x = x; x_parent = n.parent })

  -- the three branches of `erase`, by the children of the node
  unfoldable pub unlink : ℕ → Heap K V → Link → Link → Node K V → Link → Link → Run (Unlinked K V)
  unlink fuel heap root z n none r = unlink_outer heap root z n r
  unlink fuel heap root z n (some l) none = unlink_outer heap root z n (some l)
  unlink fuel heap root z n (some l) (some r) = unlink_inner fuel heap root z (some r)

  -- a red sibling of `x`: the rotation, and the sibling that `x` has then
  unfoldable pub turn_sibling : Side → Heap K V → Link → Link → Link → Run (Heap K V × Link × Link)
  turn_sibling s heap root x_parent w = do
    w_red ← is_red heap w
    if w_red
        then (do
          h1 ← update (with_color black) heap w
          h2 ← update (with_color red) h1 x_parent
          r ← rotate s h2 root x_parent
          n ← read_node r.0 x_parent
          ok (r.0, r.1, child (opposite s) n))
        else ok (heap, root, w)

  -- the rotation of the sibling, when its outer child is black
  unfoldable pub turn_far :
      Side → Heap K V → Link → Link → Link → Link → Bool → Run (Heap K V × Link × Link)
  turn_far s heap root x_parent w near true = ok (heap, root, w)
  turn_far s heap root x_parent w near false = do
    h1 ← blacken_link heap near
    h2 ← update (with_color red) h1 w
    r ← rotate (opposite s) h2 root w
    n ← read_node r.0 x_parent
    ok (r.0, r.1, child (opposite s) n)

  -- the last rotation of `fix_erase`
  unfoldable pub turn_last : Side → Heap K V → Link → Link → Link → Run (Heap K V × Link)
  turn_last s heap root x_parent w = do
    n ← read_node heap x_parent
    h1 ← update (with_color n.color) heap w
    h2 ← update (with_color black) h1 x_parent
    wn ← read_node h2 w
    h3 ← blacken_link h2 (child (opposite s) wn)
    rotate s h3 root x_parent

  -- a round of `fix_erase` for a black sibling `w`
  unfoldable pub repair_black :
      Side → Heap K V → Link → Link → Link → Run (Heap K V × Link × Link × Link)
  repair_black s heap root x_parent w = do
    n ← read_node heap w
    near_red ← is_red heap (child s n)
    far_red ← is_red heap (child (opposite s) n)
    if near_red || far_red
        then (do
          u ← turn_far s heap root x_parent w (child s n) far_red
          v ← turn_last s u.0 u.1 x_parent u.2
          ok (v.0, v.1, v.1, x_parent))
        else (do
          h ← update (with_color red) heap w
          p ← read_node h x_parent
          ok (h, root, x_parent, p.parent))

  -- One round of `fix_erase`: the heap, the root, and `x` and `x_parent` to go on with.
  unfoldable pub erase_round : Heap K V → Link → Link → Link → Run (Heap K V × Link × Link × Link)
  erase_round heap root x x_parent = do
    n ← read_node heap x_parent
    let s = if same_link x n.left_child then left else right
    t ← turn_sibling s heap root x_parent (child (opposite s) n)
    repair_black s t.0 t.1 x_parent t.2

  unfoldable pub fix_erase : ℕ → Heap K V → Link → Link → Link → Run (Heap K V × Link)
  fix_erase zero heap root x x_parent = fault diverges
  fix_erase (suc fuel) heap root x x_parent = do
    x_red ← is_red heap x
    if same_link x root || x_red
        then (do h ← blacken_link heap x; ok (h, root))
        else (do r ← erase_round heap root x x_parent; fix_erase fuel r.0 r.1 r.2 r.3)

  unfoldable pub erase_node : Heap K V → TreeMap → Link → Run (Heap K V × TreeMap × ℕ)
  erase_node heap m none = ok (heap, m, 0)
  erase_node heap m (some a) = do
    n ← read_node heap (some a)
    d ← unlink (suc m.size) heap m.root (some a) n n.left_child n.right_child
    h ← recycle d.heap a
    r ← if is_black d.lost then fix_erase (suc m.size) h d.root d.x d.x_parent else ok (h, d.root)
    let m' : TreeMap = record { root = r.1; size = (m.size + 2 ^ 64 - 1) % 2 ^ 64 }
    ok (r.0, m', 1)

  unfoldable pub erase :
      (equal less : K → K → Bool) → Heap K V → TreeMap → K → Run (Heap K V × TreeMap × ℕ)
  erase equal less heap m key = do
    z ← search equal less (suc m.size) heap m.root key
    erase_node heap m z
