-- ===== src/LinkedList.antt =====
-- `PooledList` of HPContainer/PooledList.hpp: a doubly linked list of pooled nodes, on an explicit heap.
-- A node is named by its address; `create` takes the address that the pool gives. A list has fewer
-- than 2^64 nodes, so counting them up does not wrap.
pub mod Chain
pub mod Links
pub mod Edit
pub mod Insert
pub mod Erase
pub mod Walk
pub mod Cached
mod Examples
use native.Mathlib.Decide.{ℕ_discrete}
use mathlib.Core.Logic.{ite}
use bhcpp_hptool_kit.Base.{
  ℕ, zero, suc, ◌+◌, ◌-◌, ◌/◌, ◌^◌, Bool, true, false, ◌&&◌, List, [], ◌∷◌, Option, none, some,
  if◌then◌else◌, ltb, leb, ◌==◌,
}
use bhcpp_hptool_kit.Base.Run.{Run, ok, fault, undefined, out_of_range, diverges, ◌>>=◌}

-- `LinkedListNode*`, where `none` is the null pointer
abbrev pub Link : Type 0
Link = Option ℕ

pub record Node {ℓ} (A : Type ℓ) : Type ℓ where
  pub value : A
  pub prev : Link
  pub next : Link

-- The nodes in use, by address.
abbrev pub Heap {ℓ} : Type ℓ → Type ℓ
Heap A = ℕ → Option (Node A)

-- The fields of a list.
pub record Handle : Type 0 where
  pub head : Link
  pub tail : Link
  pub size : ℕ

abbrev pub new_handle : Handle
new_handle = record { head = none; tail = none; size = 0 }

unfoldable pub or_else : Link → Link → Link
or_else none q = q
or_else (some a) q = some a

-- a field that is `old`, after `if (p) … else field = q;`
unfoldable pub unless_null : Link → Link → Link → Link
unless_null none q old = q
unless_null (some _) q old = old

module _ {ℓ} {A : Type ℓ} where
  abbrev pub write_node : Heap A → ℕ → Option (Node A) → Heap A
  write_node heap a slot b = ite (ℕ_discrete a b) slot (heap b)

  -- `*p`
  unfoldable pub read_node : Heap A → Link → Run (Node A)
  read_node heap none = fault undefined
  read_node heap (some a) = elim (heap a) [ some n ↦ ok n | none ↦ fault undefined ]

  -- `p->next = q`
  unfoldable pub set_next : Heap A → Link → Link → Run (Heap A)
  set_next heap none q = fault undefined
  set_next heap (some a) q = do
    n ← read_node heap (some a)
    ok (write_node heap a (some (record n { next = q })))

  -- `p->prev = q`
  unfoldable pub set_prev : Heap A → Link → Link → Run (Heap A)
  set_prev heap none q = fault undefined
  set_prev heap (some a) q = do
    n ← read_node heap (some a)
    ok (write_node heap a (some (record n { prev = q })))

  -- `if (p) p->next = q;`
  unfoldable pub link_next : Heap A → Link → Link → Run (Heap A)
  link_next heap none q = ok heap
  link_next heap (some a) q = set_next heap (some a) q

  -- `if (p) p->prev = q;`
  unfoldable pub link_prev : Heap A → Link → Link → Run (Heap A)
  link_prev heap none q = ok heap
  link_prev heap (some a) q = set_prev heap (some a) q

  -- `LinkedListNode::create(value)`, at the address `a`
  unfoldable pub create : Heap A → ℕ → A → Heap A
  create heap a value =
      write_node heap a (some (record { value = value; prev = none; next = none }))

  -- The destructor runs, so a node must be alive at the address.
  unfoldable pub recycle : Heap A → ℕ → Run (Heap A)
  recycle heap a = do n ← read_node heap (some a); ok (write_node heap a none)

  unfoldable pub front : Heap A → Handle → Run A
  front heap l = elim l.head [
    | none ↦ fault out_of_range
    | some a ↦ do n ← read_node heap (some a); ok n.value
  ]

  unfoldable pub back : Heap A → Handle → Run A
  back heap l = elim l.tail [
    | none ↦ fault out_of_range
    | some a ↦ do n ← read_node heap (some a); ok n.value
  ]

  -- `push_back` once the node `a` exists, by the head
  unfoldable pub append_node : Link → Heap A → Handle → ℕ → Run (Heap A × Handle)
  append_node none heap l a = ok (heap, record { head = some a; tail = some a; size = l.size + 1 })
  append_node (some _) heap l a = do
    linked ← set_next heap l.tail (some a)
    both ← set_prev linked (some a) l.tail
    ok (both, record l { tail = some a; size = l.size + 1 })

  unfoldable pub push_back : Heap A → Handle → ℕ → A → Run (Heap A × Handle)
  push_back heap l a value = append_node l.head (create heap a value) l a

  -- `push_front` once the node `a` exists, by the head
  unfoldable pub prepend_node : Link → Heap A → Handle → ℕ → Run (Heap A × Handle)
  prepend_node none heap l a = ok (heap, record { head = some a; tail = some a; size = l.size + 1 })
  prepend_node (some h) heap l a = do
    linked ← set_next heap (some a) (some h)
    both ← set_prev linked (some h) (some a)
    ok (both, record l { head = some a; size = l.size + 1 })

  unfoldable pub push_front : Heap A → Handle → ℕ → A → Run (Heap A × Handle)
  push_front heap l a value = prepend_node l.head (create heap a value) l a

  -- `distance` steps along `next`
  unfoldable pub walk_next : ℕ → Heap A → Link → Run Link
  walk_next zero heap cur = ok cur
  walk_next (suc distance) heap cur = do n ← read_node heap cur; walk_next distance heap n.next

  -- `distance` steps along `prev`
  unfoldable pub walk_prev : ℕ → Heap A → Link → Run Link
  walk_prev zero heap cur = ok cur
  walk_prev (suc distance) heap cur = do n ← read_node heap cur; walk_prev distance heap n.prev

  -- the walk of `nodeAt` from the node `start` at `start_index`
  unfoldable pub walk : Heap A → Link → ℕ → ℕ → ℕ → Run Link
  walk heap start start_index distance index =
      if ltb start_index index then walk_next distance heap start else walk_prev distance heap start

  unfoldable pub node_at : Heap A → Handle → ℕ → Run Link
  node_at heap l index =
      if leb l.size index
      then ok none
      else if ltb 16 l.size && ltb (l.size / 2) index
      then walk heap l.tail (l.size - 1) (l.size - 1 - index) index
      else walk heap l.head 0 index index

  -- `insert` in front of the node `cur`, for a node `a`
  unfoldable pub insert_before : Heap A → Handle → Link → ℕ → Run (Heap A × Handle)
  insert_before heap l cur a = do
    c ← read_node heap cur
    h1 ← set_next heap c.prev (some a)
    h2 ← set_prev h1 (some a) c.prev
    h3 ← set_next h2 (some a) cur
    h4 ← set_prev h3 cur (some a)
    ok (h4, record l { size = l.size + 1 })

  -- `insert` once the position is valid and the node `a` exists
  unfoldable pub insert_node : Heap A → Handle → ℕ → ℕ → Run (Heap A × Handle)
  insert_node heap l pos a =
      if pos == 0
      then (do
        h1 ← set_next heap (some a) l.head
        h2 ← link_prev h1 l.head (some a)
        ok (h2, record { head = some a; tail = or_else l.tail (some a); size = l.size + 1 }))
      else if pos == l.size
      then (do
        h1 ← set_prev heap (some a) l.tail
        h2 ← link_next h1 l.tail (some a)
        ok (h2, record l { tail = some a; size = l.size + 1 }))
      else do cur ← node_at heap l pos; insert_before heap l cur a

  unfoldable pub insert : Heap A → Handle → ℕ → ℕ → A → Run (Heap A × Handle)
  insert heap l pos a value =
      if ltb l.size pos then fault out_of_range else insert_node (create heap a value) l pos a

  -- `insert_list` in front of the node `cur`
  unfoldable pub splice_before : Heap A → Link → Handle → Run (Heap A)
  splice_before heap cur other = do
    c ← read_node heap cur
    h1 ← set_next heap c.prev other.head
    h2 ← set_prev h1 other.head c.prev
    h3 ← set_next h2 other.tail cur
    set_prev h3 cur other.tail

  -- the three cases of `insert_list`, for another list that has elements
  unfoldable pub splice : Heap A → Handle → ℕ → Handle → Run (Heap A × Handle)
  splice heap l pos other =
      if pos == 0
      then (do
        h1 ← set_next heap other.tail l.head
        h2 ← link_prev h1 l.head other.tail
        ok (
          h2,
          record {
            head = other.head;
            tail = or_else l.tail other.tail;
            size = l.size + other.size;
          },
        ))
      else if pos == l.size
      then (do
        h1 ← set_next heap l.tail other.head
        h2 ← set_prev h1 other.head l.tail
        ok (h2, record l { tail = other.tail; size = l.size + other.size }))
      else do
        cur ← node_at heap l pos
        h ← splice_before heap cur other
        ok (h, record l { size = l.size + other.size })

  -- `insert_list`: both lists after it
  unfoldable pub insert_list : Heap A → Handle → ℕ → Handle → Run (Heap A × Handle × Handle)
  insert_list heap l pos other =
      if ltb l.size pos
      then fault out_of_range
      else if other.size == 0
      then ok (heap, l, other)
      else do r ← splice heap l pos other; ok (r.0, r.1, new_handle)

  unfoldable pub erase_node : Heap A → Handle → Link → Run (Heap A × Handle)
  erase_node heap l none = ok (heap, l)
  erase_node heap l (some a) = do
    n ← read_node heap (some a)
    h1 ← link_next heap n.prev n.next
    h2 ← link_prev h1 n.next n.prev
    h3 ← recycle h2 a
    ok (
      h3,
      record {
        head = unless_null n.prev n.next l.head;
        tail = unless_null n.next n.prev l.tail;
        size = if l.size == 0 then 2 ^ 64 - 1 else l.size - 1;
      },
    )

  unfoldable pub erase : Heap A → Handle → ℕ → Run (Heap A × Handle)
  erase heap l index = do cur ← node_at heap l index; erase_node heap l cur

  unfoldable pub pop_front : Heap A → Handle → Run (Heap A × Handle)
  pop_front heap l = erase_node heap l l.head

  unfoldable pub pop_back : Heap A → Handle → Run (Heap A × Handle)
  pop_back heap l = erase_node heap l l.tail

  -- the loop of `clear` from `cur` on
  unfoldable pub recycle_all : ℕ → Heap A → Link → Run (Heap A)
  recycle_all fuel heap none = ok heap
  recycle_all zero heap (some a) = fault diverges
  recycle_all (suc fuel) heap (some a) = do
    n ← read_node heap (some a)
    less ← recycle heap a
    recycle_all fuel less n.next

  unfoldable pub clear : Heap A → Handle → Run (Heap A × Handle)
  clear heap l = do h ← recycle_all (l.size + 1) heap l.head; ok (h, new_handle)

  -- The values that `for_each` visits, from `cur` on.
  unfoldable pub visit_next : ℕ → Heap A → Link → Run (List A)
  visit_next fuel heap none = ok []
  visit_next zero heap (some a) = fault diverges
  visit_next (suc fuel) heap (some a) = do
    n ← read_node heap (some a)
    rest ← visit_next fuel heap n.next
    ok (n.value ∷ rest)

  -- The values that `for_each_reverse` visits, from `cur` on.
  unfoldable pub visit_prev : ℕ → Heap A → Link → Run (List A)
  visit_prev fuel heap none = ok []
  visit_prev zero heap (some a) = fault diverges
  visit_prev (suc fuel) heap (some a) = do
    n ← read_node heap (some a)
    rest ← visit_prev fuel heap n.prev
    ok (n.value ∷ rest)

  unfoldable pub for_each : Heap A → Handle → Run (List A)
  for_each heap l = visit_next (l.size + 1) heap l.head

  unfoldable pub for_each_reverse : Heap A → Handle → Run (List A)
  for_each_reverse heap l = visit_prev (l.size + 1) heap l.tail
