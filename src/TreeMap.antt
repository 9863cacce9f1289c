-- ===== src/TreeMap.antt =====
-- HPContainer/PooledMap.hpp: a red-black tree of pooled nodes, on an explicit heap. A node is named by
-- its address, and `create` takes the one that the pool gives. `rotate` and the two loops that restore the
-- colours have mirrored branches; the side that a branch is about is an argument here.
pub mod Shape
pub mod Writes
pub mod Rotate
pub mod Focus
pub mod Rebalance
pub mod Rounds
pub mod Turns
pub mod FixRound
pub mod FixInsert
pub mod Search
pub mod Sorted
pub mod Seek
pub mod Descend
pub mod Attach
pub mod RedBlack
pub mod Balance
pub mod Inorder
pub mod Insert
pub mod Reads
pub mod Alike
pub mod Assign
pub mod RoundTrip
mod Examples
pub mod Erase
pub mod Siblings
pub mod Repair
pub mod Stages
pub mod StageCases
pub mod EraseRound
pub mod FixErase
pub mod Unlink
pub mod Gap
pub mod Least
pub mod Lift
pub mod EraseNode
pub mod EraseInner
pub mod EraseMap
pub mod Traverse
pub mod Visit
pub mod Clear
use native.Mathlib.Decide.{ℕ_discrete}
use mathlib.Core.Logic.{ite}
use bhcpp_hptool_kit.Base.{
  ℕ, zero, suc, ◌+◌, ◌-◌, ◌^◌, Bool, true, false, ◌&&◌, List, [], ◌∷◌, ◌++◌, Option, none, some,
  if◌then◌else◌, ◌==◌,
}
use bhcpp_hptool_kit.Base.Run.{Run, ok, fault, undefined, diverges, ◌>>=◌}

-- `NodeType*`, where `none` is the null pointer
abbrev pub Link : Type 0
Link = Option ℕ

pub data Color : Type 0 where
  red black : Color

pub data Side : Type 0 where
  left right : Side

abbrev pub opposite : Side → Side
opposite left = right
opposite right = left

pub record Node {ℓ κ} (K : Type ℓ) (V : Type κ) : Type (ℓ ⊔ κ) where
  pub key : K
  pub value : V
  pub left_child : Link
  pub right_child : Link
  pub parent : Link
  pub color : Color

-- The nodes in use, by address.
abbrev pub Heap {ℓ κ} : Type ℓ → Type κ → Type (ℓ ⊔ κ)
Heap K V = ℕ → Option (Node K V)

-- The fields of a map.
pub record TreeMap : Type 0 where
  pub root : Link
  pub size : ℕ

-- `p == q` of pointers
unfoldable pub same_link : Link → Link → Bool
same_link none none = true
same_link none (some b) = false
same_link (some a) none = false
same_link (some a) (some b) = a == b

unfoldable pub is_black : Color → Bool
is_black red = false
is_black black = true

module _ {ℓ κ} {K : Type ℓ} {V : Type κ} where
  abbrev pub child : Side → Node K V → Link
  child left n = n.left_child
  child right n = n.right_child

  abbrev pub with_child : Side → Link → Node K V → Node K V
  with_child left q n = record n { left_child = q }
  with_child right q n = record n { right_child = q }

  abbrev pub with_parent : Link → Node K V → Node K V
  with_parent q n = record n { parent = q }

  abbrev pub with_color : Color → Node K V → Node K V
  with_color c n = record n { color = c }

  abbrev pub with_value : V → Node K V → Node K V
  with_value v n = record n { value = v }

  abbrev pub write_node : Heap K V → ℕ → Option (Node K V) → Heap K V
  write_node heap a slot b = ite (ℕ_discrete a b) slot (heap b)

  -- `*p`
  unfoldable pub read_node : Heap K V → Link → Run (Node K V)
  read_node heap none = fault undefined
  read_node heap (some a) = elim (heap a) [ some n ↦ ok n | none ↦ fault undefined ]

  -- a write to a field of `*p`
  unfoldable pub update : (Node K V → Node K V) → Heap K V → Link → Run (Heap K V)
  update change heap none = fault undefined
  update change heap (some a) = do
    n ← read_node heap (some a)
    ok (write_node heap a (some (change n)))

  -- `if (p) p->parent = q;`
  unfoldable pub link_parent : Heap K V → Link → Link → Run (Heap K V)
  link_parent heap none q = ok heap
  link_parent heap (some a) q = update (with_parent q) heap (some a)

  -- `NodeType::create` and the writes to the fields of the new node
  unfoldable pub create : Heap K V → ℕ → K → V → Link → Heap K V
  create heap a key value parent = write_node heap a (
      some (record {
        key = key;
        value = value;
        left_child = none;
        right_child = none;
        parent = parent;
        color = red;
      }))

  -- The destructor runs, so a node must be alive at the address.
  unfoldable pub recycle : Heap K V → ℕ → Run (Heap K V)
  recycle heap a = do n ← read_node heap (some a); ok (write_node heap a none)

  -- `x`, a child of `p` or the root, is replaced by `y`; the child on the side `s` is tested first.
  unfoldable pub replace_child : Side → Heap K V → Link → Link → Link → Link → Run (Heap K V × Link)
  replace_child s heap root none x y = ok (heap, y)
  replace_child s heap root (some p) x y = do
    n ← read_node heap (some p)
    h ← update (with_child (if same_link x (child s n) then s else opposite s) y) heap (some p)
    ok (h, root)

  -- `rotate_left(x)` or `rotate_right(x)`: the heap and the root after it
  unfoldable pub rotate : Side → Heap K V → Link → Link → Run (Heap K V × Link)
  rotate s heap root x = do
    n ← read_node heap x
    let y = child (opposite s) n
    m ← read_node heap y
    h1 ← update (with_child (opposite s) (child s m)) heap x
    h2 ← link_parent h1 (child s m) x
    x2 ← read_node h2 x
    h3 ← update (with_parent x2.parent) h2 y
    r ← replace_child s h3 root x2.parent x y
    h5 ← update (with_child s x) r.0 y
    h6 ← update (with_parent y) h5 x
    ok (h6, r.1)

  -- `p && p->color == RED`
  unfoldable pub is_red : Heap K V → Link → Run Bool
  is_red heap none = ok false
  is_red heap (some a) = do
    n ← read_node heap (some a)
    ok (if is_black n.color then false else true)

  -- the first rotation of `fix_insert`, if the node `z` is an inner grandchild: the node to go on with
  unfoldable pub turn_inner : Side → Heap K V → Link → Link → Link → Run (Heap K V × Link × Link)
  turn_inner s heap root p z = do
    n ← read_node heap p
    if same_link z (child (opposite s) n)
        then (do r ← rotate s heap root p; ok (r.0, r.1, p))
        else ok (heap, root, z)

  -- the second rotation of `fix_insert`
  unfoldable pub turn_outer : Side → Heap K V → Link → Link → Run (Heap K V × Link)
  turn_outer s heap root z = do
    n ← read_node heap z
    h1 ← update (with_color black) heap n.parent
    p ← read_node h1 n.parent
    h2 ← update (with_color red) h1 p.parent
    rotate (opposite s) h2 root p.parent

  -- One round of `fix_insert` for `z` with the red parent `p` and its parent `g`: the node to go on with.
  unfoldable pub fix_round : Heap K V → Link → Link → Link → Link → Run (Heap K V × Link × Link)
  fix_round heap root g p z = do
    n ← read_node heap g
    let s = if same_link p n.left_child then left else right
    let uncle = child (opposite s) n
    uncle_red ← is_red heap uncle
    if uncle_red
        then (do
          h1 ← update (with_color black) heap p
          h2 ← update (with_color black) h1 uncle
          h3 ← update (with_color red) h2 g
          ok (h3, root, g))
        else (do
          inner ← turn_inner s heap root p z
          outer ← turn_outer s inner.0 inner.1 inner.2
          ok (outer.0, outer.1, inner.2))

  -- `root->color = BLACK`
  unfoldable pub blacken_root : Heap K V → Link → Run (Heap K V × Link)
  blacken_root heap root = do h ← update (with_color black) heap root; ok (h, root)

  unfoldable pub fix_insert : ℕ → Heap K V → Link → Link → Run (Heap K V × Link)
  fix_insert zero heap root z = fault diverges
  fix_insert (suc fuel) heap root z = do
    n ← read_node heap z
    parent_red ← is_red heap n.parent
    if parent_red
        then (do
          p ← read_node heap n.parent
          r ← fix_round heap root p.parent n.parent z
          fix_insert fuel r.0 r.1 r.2)
        else blacken_root heap root
