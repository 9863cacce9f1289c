-- ===== src/TreeMap/Traverse.antt =====
-- PooledMap.hpp: `for_each` and `clear`.
use bhcpp_hptool_kit.Base.{ℕ, zero, suc, none, some}
use bhcpp_hptool_kit.Base.Run.{Run, ok, fault, diverges, ◌>>=◌}
use bhcpp_hptool_kit.TreeMap.{Link, Heap, TreeMap, with_value, read_node, update, recycle}

module _ {ℓ κ} {K : Type ℓ} {V : Type κ} where
  -- The function may keep a state, and it may write to the value.
  unfoldable pub inorder_traverse {μ} :
      {S : Type μ} → (S → K → V → S × V) → ℕ → Heap K V → S → Link → Run (Heap K V × S)
  inorder_traverse func zero heap s p = fault diverges
  inorder_traverse func (suc fuel) heap s none = ok (heap, s)
  inorder_traverse func (suc fuel) heap s (some a) = do
    n ← read_node heap (some a)
    l ← inorder_traverse func fuel heap s n.left_child
    n1 ← read_node l.0 (some a)
    let called = func l.1 n1.key n1.value
    h ← update (with_value called.1) l.0 (some a)
    n2 ← read_node h (some a)
    inorder_traverse func fuel h called.0 n2.right_child

  unfoldable pub for_each {μ} :
      {S : Type μ} → (S → K → V → S × V) → Heap K V → S → TreeMap → Run (Heap K V × S)
  for_each func heap s m = inorder_traverse func (suc m.size) heap s m.root

  unfoldable pub clear : ℕ → Heap K V → Link → Run (Heap K V)
  clear zero heap p = fault diverges
  clear (suc fuel) heap none = ok heap
  clear (suc fuel) heap (some a) = do
    n ← read_node heap (some a)
    h1 ← clear fuel heap n.left_child
    n1 ← read_node h1 (some a)
    h2 ← clear fuel h1 n1.right_child
    recycle h2 a
