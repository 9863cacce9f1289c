-- ===== src/LinkedHashList.antt =====
-- HPContainer/PooledLinkedHashList.hpp: a `PooledList` of keys and values with a `PooledHashMap` from
-- the keys to its nodes. A key that is passed as a reference into `_index` dies when `_index` rehashes.
-- Moving is copying, and the addresses of new nodes are arguments.
pub mod Index
pub mod Relocate
mod Examples
use bhcpp_hptool_kit.Base.{
  ℕ, ◌-◌, ◌+◌, ◌%◌, ◌^◌, Bool, true, false, Option, none, some, if◌then◌else◌, ◌==◌, ◌||◌, set,
}
use bhcpp_hptool_kit.Base.Run.{Run, ok, fault, undefined, out_of_range, ◌>>=◌}
use bhcpp_hptool_kit.HashMap.KeyOps.{Key}
use bhcpp_hptool_kit.HashMap.{HashMap, occupied, bucket_count, read_entry, mapped_at, try_emplace}
use bhcpp_hptool_kit.HashMap
use bhcpp_hptool_kit.LinkedList.{
  Link, Node, Heap, Handle, read_node, write_node, push_back, push_front, node_at, erase_node,
  front, back,
}
use bhcpp_hptool_kit.LinkedList

-- `p == q` of node pointers
unfoldable pub same_link : Link → Link → Bool
same_link none none = true
same_link none (some b) = false
same_link (some a) none = false
same_link (some a) (some b) = a == b

pub record LinkedHashList (K : Type 0) : Type 0 where
  pub index : HashMap K Link
  pub list : Handle

-- `list.push_front(value)` or `list.push_back(value)`, and then `nodeAt` of its index
unfoldable pub push_value {ℓ} :
    {V : Type ℓ} → Heap V → Handle → ℕ → V → Bool → Run (Link × Heap V × Handle)
push_value heap list a value to_front =
    if to_front
    then (do r ← push_front heap list a value; cur ← node_at r.0 r.1 0; ok (cur, r.0, r.1))
    else do
      r ← push_back heap list a value
      cur ← node_at r.0 r.1 ((r.1.size + 2 ^ 64 - 1) % 2 ^ 64)
      ok (cur, r.0, r.1)

-- An iterator of `_index` that is not `end()`, with `it->first` and `it->second`.
pub record Found (K : Type 0) : Type 0 where
  pub it : ℕ
  pub key : K
  pub node : Link

module _ {K : Type 0} ⦃key_ops : Key K⦄ where
  -- `*it`
  unfoldable pub read_found : HashMap K Link → ℕ → Run (Option (Found K))
  read_found index i = do
    entry ← read_entry index.entries i
    elim entry [
      | occupied h k node ↦ ok (some (record { it = i; key = k; node = node }))
      | _ ↦ fault undefined
    ]

  -- `_index.find(key)`, with what is read through it; `none` is `end()`.
  unfoldable pub find_entry : HashMap K Link → K → Run (Option (Found K))
  find_entry index key = do
    i ← HashMap.find index key
    if i == bucket_count index then ok none else read_found index i

  -- the assignment to what `operator[]` refers to
  unfoldable pub write_mapped : HashMap K Link → ℕ → Link → Run (HashMap K Link)
  write_mapped index i node = do
    entry ← read_entry index.entries i
    elim entry [
      | occupied h k old ↦ ok (record index { entries = set index.entries i (occupied h k node) })
      | _ ↦ fault undefined
    ]

-- `entry_size` and `overloaded` are those of the hash map.
module _ (entry_size : ℕ) (overloaded : ℕ → ℕ → Bool) {K : Type 0} ⦃key_ops : Key K⦄ where
  -- Whether `operator[]` rehashes.
  unfoldable pub rehash_due : HashMap K Link → Bool
  rehash_due index =
      (bucket_count index == 0)
      || overloaded (index.size + index.erased_count + 1) (bucket_count index)

  -- `_index[key] = node` with a key outside `_index`
  unfoldable pub index_node : HashMap K Link → K → Link → Run (HashMap K Link)
  index_node index key node = do
    ((i, _), grown) ← try_emplace entry_size overloaded index key none
    write_mapped grown i node

  -- `_index[key] = node` with a reference to a key of `_index`: a rehash destroys the key before
  -- `operator[]` hashes it.
  unfoldable pub reindex_node : HashMap K Link → K → Link → Run (HashMap K Link)
  reindex_node index key node =
      if rehash_due index then fault undefined else index_node index key node

module _ {κ} {K : Type 0} ⦃key_ops : Key K⦄ {T : Type κ} where
  -- `it->second->value.second`
  unfoldable pub value_of : Option (Found K) → Heap (K × T) → Run T
  value_of none heap = fault out_of_range
  value_of (some f) heap = do n ← read_node heap f.node; ok n.value.1

  unfoldable pub at : Heap (K × T) → LinkedHashList K → K → Run T
  at heap l key = do f ← find_entry l.index key; value_of f heap

  -- `node->value.second = value`
  unfoldable pub set_value : Heap (K × T) → Link → T → Run (Heap (K × T))
  set_value heap none value = fault undefined
  set_value heap (some a) value = do
    n ← read_node heap (some a)
    ok (write_node heap a (some (record n { value = (n.value.0, value) })))

module _ {κ} (entry_size : ℕ) (overloaded : ℕ → ℕ → Bool) {K : Type 0} ⦃key_ops : Key K⦄
    {T : Type κ} where
  -- The key is that of the new node.
  unfoldable pub append_new_node :
      Heap (K × T)
      → LinkedHashList K
      → ℕ
      → K
      → T
      → Bool
      → Run (Link × Heap (K × T) × LinkedHashList K)
  append_new_node heap l a key value to_front = do
    r ← push_value heap l.list a (key, value) to_front
    n ← read_node r.1 r.0
    index ← index_node entry_size overloaded l.index n.value.0 r.0
    ok (r.0, r.1, record { index = index; list = r.2 })

  -- `relocate_existing_node` once the node is known not to be in its place; both callers pass
  -- `it->first` as the key.
  unfoldable pub relocate_value :
      Heap (K × T) → LinkedHashList K → ℕ → K → Link → Bool → Run (Heap (K × T) × LinkedHashList K)
  relocate_value heap l a key node to_front = do
    n ← read_node heap node
    e ← erase_node heap l.list node
    r ← push_value e.0 e.1 a n.value to_front
    index ← reindex_node entry_size overloaded l.index key r.0
    ok (r.1, record { index = index; list = r.2 })

  -- A node pushed gets the address `a`.
  unfoldable pub relocate_existing_node :
      Heap (K × T) → LinkedHashList K → ℕ → K → Link → Bool → Run (Heap (K × T) × LinkedHashList K)
  relocate_existing_node heap l a key none to_front = ok (heap, l)
  relocate_existing_node heap l a key (some p) to_front = do
    place ← node_at heap l.list (if to_front then 0 else (l.list.size + 2 ^ 64 - 1) % 2 ^ 64)
    if same_link (some p) place then ok (heap, l) else relocate_value heap l a key (some p) to_front

  -- `relocate_node`, by what the index finds
  unfoldable pub relocate_found :
      Option (Found K)
      → Heap (K × T)
      → LinkedHashList K
      → ℕ
      → Bool
      → Run (Bool × Heap (K × T) × LinkedHashList K)
  relocate_found none heap l a to_front = ok (false, heap, l)
  relocate_found (some f) heap l a to_front = do
    r ← relocate_existing_node heap l a f.key f.node to_front
    ok (true, r.0, r.1)

  -- `move_to_front`, `move_to_back` and `touch`
  unfoldable pub relocate_node :
      Heap (K × T) → LinkedHashList K → ℕ → K → Bool → Run (Bool × Heap (K × T) × LinkedHashList K)
  relocate_node heap l a key to_front = do
    f ← find_entry l.index key
    relocate_found f heap l a to_front

  -- `insert_or_assign_impl`, by what the index finds: the node whose value the pointer returned is,
  -- and whether the key is new. At the end `it->second` is read again.
  unfoldable pub insert_or_assign_found :
      Option (Found K)
      → Heap (K × T)
      → LinkedHashList K
      → ℕ
      → K
      → T
      → Bool
      → Run ((Link × Bool) × Heap (K × T) × LinkedHashList K)
  insert_or_assign_found none heap l a key value to_front = do
    r ← append_new_node heap l a key value to_front
    ok ((r.0, true), r.1, r.2)
  insert_or_assign_found (some f) heap l a key value to_front = do
    written ← set_value heap f.node value
    r ← relocate_existing_node written l a f.key f.node to_front
    node ← mapped_at r.1.index f.it
    n ← read_node r.0 node
    ok ((node, false), r.0, r.1)

  unfoldable pub insert_or_assign :
      Heap (K × T)
      → LinkedHashList K
      → ℕ
      → K
      → T
      → Bool
      → Run ((Link × Bool) × Heap (K × T) × LinkedHashList K)
  insert_or_assign heap l a key value to_front = do
    f ← find_entry l.index key
    insert_or_assign_found f heap l a key value to_front

  -- `emplace_impl`, by what the index finds: the node, and whether the key is new
  unfoldable pub emplace_found :
      Option (Found K)
      → Heap (K × T)
      → LinkedHashList K
      → ℕ
      → K
      → T
      → Bool
      → Run ((Link × Bool) × Heap (K × T) × LinkedHashList K)
  emplace_found none heap l a key value to_front = do
    r ← append_new_node heap l a key value to_front
    ok ((r.0, true), r.1, r.2)
  emplace_found (some f) heap l a key value to_front = do
    n ← read_node heap f.node
    ok ((f.node, false), heap, l)

module _ {κ} {K : Type 0} ⦃key_ops : Key K⦄ {T : Type κ} where
  -- `erase`, by what the index finds
  unfoldable pub erase_found :
      Option (Found K)
      → Heap (K × T)
      → LinkedHashList K
      → K
      → Run (Bool × Heap (K × T) × LinkedHashList K)
  erase_found none heap l key = ok (false, heap, l)
  erase_found (some f) heap l key = do
    (_, index) ← HashMap.erase l.index key
    r ← erase_node heap l.list f.node
    ok (true, r.0, record { index = index; list = r.1 })

  unfoldable pub erase :
      Heap (K × T) → LinkedHashList K → K → Run (Bool × Heap (K × T) × LinkedHashList K)
  erase heap l key = do f ← find_entry l.index key; erase_found f heap l key

  unfoldable pub pop_front :
      Heap (K × T) → LinkedHashList K → Run (Bool × Heap (K × T) × LinkedHashList K)
  pop_front heap l = if l.list.size == 0 then ok (false, heap, l) else do
    value ← front heap l.list
    (_, index) ← HashMap.erase l.index value.0
    r ← erase_node heap l.list l.list.head
    ok (true, r.0, record { index = index; list = r.1 })

  unfoldable pub pop_back :
      Heap (K × T) → LinkedHashList K → Run (Bool × Heap (K × T) × LinkedHashList K)
  pop_back heap l = if l.list.size == 0 then ok (false, heap, l) else do
    value ← back heap l.list
    (_, index) ← HashMap.erase l.index value.0
    r ← erase_node heap l.list l.list.tail
    ok (true, r.0, record { index = index; list = r.1 })

  unfoldable pub clear_all : Heap (K × T) → LinkedHashList K → Run (Heap (K × T) × LinkedHashList K)
  clear_all heap l = do
    r ← LinkedList.clear heap l.list
    ok (r.0, record { index = HashMap.clear l.index; list = r.1 })
