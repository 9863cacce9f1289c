-- ===== src/TreeMap/Search.antt =====
-- PooledMap.hpp: `operator[]`, `find` and `contains`. The keys' `==` and `<` are arguments, and so is the
-- address of the node that the pool gives; a walk down has one step more than the map has nodes.
use bhcpp_hptool_kit.Base.{
  ℕ, zero, suc, ◌+◌, ◌%◌, ◌^◌, Bool, true, false, none, some, if◌then◌else◌,
}
use bhcpp_hptool_kit.Base.Run.{Run, ok, fault, diverges, ◌>>=◌}
use bhcpp_hptool_kit.TreeMap.{
  Link, left, right, Heap, TreeMap, with_child, with_value, read_node, update, create, fix_insert,
}

abbrev pub is_some : Link → Bool
is_some none = false
is_some (some a) = true

module _ {ℓ κ} {K : Type ℓ} {V : Type κ} where
  -- the last statement of `find`: `cur->value`, or `Value()` after the loop
  unfoldable pub value_at : Heap K V → Link → V → Run V
  value_at heap none value = ok value
  value_at heap (some a) value = do n ← read_node heap (some a); ok n.value

module _ {ℓ κ} {K : Type ℓ} {V : Type κ} (equal less : K → K → Bool) where
  -- the loop of `operator[]`: `cur` and `parent` at its end
  unfoldable pub descend : ℕ → Heap K V → Link → Link → K → Run (Link × Link)
  descend zero heap cur parent key = fault diverges
  descend (suc fuel) heap none parent key = ok (none, parent)
  descend (suc fuel) heap (some a) parent key = do
    n ← read_node heap (some a)
    if equal key n.key
        then ok (some a, parent)
        else descend fuel heap (if less key n.key then n.left_child else n.right_child) (some a) key

  -- the loop of `find`, `erase` and `contains`
  unfoldable pub search : ℕ → Heap K V → Link → K → Run Link
  search zero heap cur key = fault diverges
  search (suc fuel) heap none key = ok none
  search (suc fuel) heap (some a) key = do
    n ← read_node heap (some a)
    if equal key n.key
        then ok (some a)
        else search fuel heap (if less key n.key then n.left_child else n.right_child) key

  -- the link to the new node: the root's, or one of `parent`
  unfoldable pub attach : Heap K V → Link → Link → K → ℕ → Run (Heap K V × Link)
  attach heap none parent key a = ok (heap, some a)
  attach heap (some root) parent key a = do
    n ← read_node heap parent
    h ← update (with_child (if less key n.key then left else right) (some a)) heap parent
    ok (h, some root)

  unfoldable pub insert_new : Heap K V → TreeMap → Link → K → V → ℕ → Run (Heap K V × TreeMap × ℕ)
  insert_new heap m parent key value a = do
    r ← attach (create heap a key value parent) m.root parent key a
    b ← fix_insert (suc m.size) r.0 r.1 (some a)
    let m' : TreeMap = record { root = b.1; size = (m.size + 1) % 2 ^ 64 }
    ok (b.0, m', a)

  -- `operator[]`: the node whose value the reference is to; `value` is `Value()`
  unfoldable pub index_at :
      Heap K V → TreeMap → Link → Link → K → V → ℕ → Run (Heap K V × TreeMap × ℕ)
  index_at heap m (some c) parent key value a = ok (heap, m, c)
  index_at heap m none parent key value a = insert_new heap m parent key value a

  unfoldable pub index : Heap K V → TreeMap → K → V → ℕ → Run (Heap K V × TreeMap × ℕ)
  index heap m key value a = do
    at ← descend (suc m.size) heap m.root none key
    index_at heap m at.0 at.1 key value a

  -- `map[key] = v`
  unfoldable pub assign : Heap K V → TreeMap → K → V → ℕ → V → Run (Heap K V × TreeMap)
  assign heap m key value a v = do
    r ← index heap m key value a
    h ← update (with_value v) r.0 (some r.2)
    ok (h, r.1)

  unfoldable pub find : Heap K V → TreeMap → K → V → Run V
  find heap m key value = do p ← search (suc m.size) heap m.root key; value_at heap p value

  unfoldable pub contains : Heap K V → TreeMap → K → Run Bool
  contains heap m key = do p ← search (suc m.size) heap m.root key; ok (is_some p)
