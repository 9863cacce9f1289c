-- ===== src/LinkedList/Cached.antt =====
-- `PooledHashList` of HPContainer/PooledList.hpp: the same list with a cache of nodes by their index.
-- The cache stands in the order in which its iteration goes, whatever that is.
pub mod Lookup
pub mod Sizes
use bhcpp_hptool_kit.Base.{
  ℕ, zero, suc, ◌+◌, ◌-◌, ◌/◌, ◌%◌, ◌^◌, Bool, true, false, ◌&&◌, ◌||◌, not, List, [], ◌∷◌, Option,
  none, some, if◌then◌else◌, ltb, leb, ◌==◌, length,
}
use bhcpp_hptool_kit.Base.Run.{Run, ok, fault, undefined, out_of_range, ◌>>=◌}
use bhcpp_hptool_kit.LinkedList.{
  Link, Node, Heap, Handle, new_handle, or_else, read_node, set_next, set_prev, link_prev, create,
  walk, append_node, prepend_node, erase_node, splice_before, recycle_all,
}

abbrev pub Cache : Type 0
Cache = List (ℕ × Link)

-- `_indexCache.find(index)`
unfoldable pub cached : Cache → ℕ → Option Link
cached [] index = none
cached (entry ∷ cache) index = if entry.0 == index then some entry.1 else cached cache index

-- `_indexCache.erase(index)`
unfoldable pub uncache : Cache → ℕ → Cache
uncache [] index = []
uncache (entry ∷ cache) index =
    let rest = uncache cache index in if entry.0 == index then rest else entry ∷ rest

-- `_indexCache[index] = p`
unfoldable pub cache_node : Cache → ℕ → Link → Cache
cache_node cache index p = (index, p) ∷ uncache cache index

unfoldable pub delete_cache_upper_than : Cache → ℕ → Cache
delete_cache_upper_than [] index = []
delete_cache_upper_than (entry ∷ cache) index =
    let rest = delete_cache_upper_than cache index in
    if leb index entry.0 then rest else entry ∷ rest

pub record HashList : Type 0 where
  pub list : Handle
  pub index_cache : Cache
  pub cache_max_size : ℕ

-- What `push_back` does to the cache, for a node that gets the index `size`.
unfoldable pub cache_pushed : Cache → ℕ → ℕ → Link → Cache
cache_pushed cache cache_max_size size p =
    if ltb (length cache) cache_max_size
    then if ltb size 4096
      then if size % 64 == 0 then cache_node cache size p else cache
      else if size % 256 == 0
      then cache
      else cache_node cache size p
    else cache

-- The distance of two indices.
unfoldable pub index_distance : ℕ → ℕ → ℕ
index_distance start index = if ltb start index then index - start else start - index

-- A node to start the walk from, with its index and its distance.
pub record Start : Type 0 where
  pub node : Link
  pub at_index : ℕ
  pub distance : ℕ

-- the search of `nodeAt` for a nearer node in the cache
unfoldable pub nearest : Cache → ℕ → Start → Start
nearest [] index best = best
nearest (entry ∷ cache) index best =
    let d = index_distance entry.0 index in
    let here : Start = record { node = entry.1; at_index = entry.0; distance = d } in
    let further = nearest cache index here in
    let rest = nearest cache index best in
    if ltb d best.distance then (if ltb d 64 then here else further) else rest

-- where the walk of `nodeAt` starts
unfoldable pub end_start : Handle → ℕ → Start
end_start l index =
    if ltb (l.size / 2) index
    then record {
      node = l.tail;
      at_index = l.size - 1;
      distance = index_distance (l.size - 1) index;
    }
    else record { node = l.head; at_index = 0; distance = index_distance 0 index }

unfoldable pub choose_start : HashList → ℕ → Start
choose_start l index =
    let start = end_start l.list index in
    if ltb 0 (length l.index_cache) && ltb 64 start.distance
    then nearest l.index_cache index start
    else start

-- `++_size`
unfoldable pub count_up : HashList → HashList
count_up l = record l { list = record (l.list) { size = l.list.size + 1 } }

module _ {ℓ} {A : Type ℓ} where
  -- the end of `nodeAt`, for an index that is not in the cache
  unfoldable pub walk_and_cache : Heap A → HashList → ℕ → Start → Run (Link × HashList)
  walk_and_cache heap l index start = do
    cur ← walk heap start.node start.at_index start.distance index
    let size = length l.index_cache
    ok (
      cur,
      (if ltb size l.cache_max_size || ltb size (l.list.size / 128)
          then record l { index_cache = cache_node l.index_cache index cur }
          else l),
    )

  -- `nodeAt`, by what the cache has for the index
  unfoldable pub node_cached_at : Option Link → Heap A → HashList → ℕ → Run (Link × HashList)
  node_cached_at (some p) heap l index = ok (p, l)
  node_cached_at none heap l index = walk_and_cache heap l index (choose_start l index)

  unfoldable pub node_at : Heap A → HashList → ℕ → Run (Link × HashList)
  node_at heap l index =
      if leb l.list.size index
      then ok (none, l)
      else node_cached_at (cached l.index_cache index) heap l index

  -- `operator[]` and `at`
  unfoldable pub at : Heap A → HashList → ℕ → Run (A × HashList)
  at heap l index = do r ← node_at heap l index; n ← read_node heap r.0; ok (n.value, r.1)

  unfoldable pub push_back : Heap A → HashList → ℕ → A → Run (Heap A × HashList)
  push_back heap l a value = do
    r ← append_node l.list.head (create heap a value) l.list a
    ok (
      r.0,
      record l {
        list = r.1;
        index_cache = cache_pushed l.index_cache l.cache_max_size l.list.size (some a);
      },
    )

  unfoldable pub push_front : Heap A → HashList → ℕ → A → Run (Heap A × HashList)
  push_front heap l a value = do
    r ← prepend_node l.list.head (create heap a value) l.list a
    ok (r.0, record l { list = r.1; index_cache = [] })

  -- `insert` in front of the node `cur`
  unfoldable pub insert_before : Heap A → HashList → ℕ → Link → ℕ → A → Run (Heap A × HashList)
  insert_before heap l pos cur a value = do
    c ← read_node heap cur
    h1 ← set_next (create heap a value) c.prev (some a)
    h2 ← set_prev h1 (some a) c.prev
    h3 ← set_next h2 (some a) cur
    h4 ← set_prev h3 cur (some a)
    let kept = delete_cache_upper_than l.index_cache pos
    ok (
      h4,
      record l {
        index_cache =
            if ltb 16 pos || ltb 16 (l.list.size - pos) then cache_node kept pos (some a) else kept;
      },
    )

  unfoldable pub insert_value : Heap A → HashList → ℕ → ℕ → A → Run (Heap A × HashList)
  insert_value heap l pos a value =
      if pos == 0
      then push_front heap l a value
      else if pos == l.list.size
      then push_back heap l a value
      else do r ← node_at heap l pos; insert_before heap r.1 pos r.0 a value

  -- `insert`, which counts the value up once more after `push_front` or `push_back`
  unfoldable pub insert : Heap A → HashList → ℕ → ℕ → A → Run (Heap A × HashList)
  insert heap l pos a value =
      if ltb l.list.size pos
      then fault out_of_range
      else do r ← insert_value heap l pos a value; ok (r.0, count_up r.1)

  -- the cases of `insert_list`, for another list that has elements, before the sizes are added
  unfoldable pub splice : Heap A → HashList → ℕ → Handle → Run (Heap A × HashList)
  splice heap l pos other =
      if pos == 0
      then (do
        h1 ← set_next heap other.tail l.list.head
        h2 ← link_prev h1 l.list.head other.tail
        ok (
          h2,
          record l {
            list = record (l.list) { head = other.head; tail = or_else l.list.tail other.tail };
          },
        ))
      else if pos == l.list.size
      then (do
        h1 ← set_next heap l.list.tail other.head
        h2 ← set_prev h1 other.head l.list.tail
        ok (h2, record l { list = record (l.list) { tail = other.tail }; index_cache = [] }))
      else do
        r ← node_at heap l pos
        h ← splice_before heap r.0 other
        let front = cache_node (delete_cache_upper_than r.1.index_cache pos) pos other.head
        ok (
          h,
          record (r.1) {
            index_cache =
                if ltb 64 (other.size - 1)
                then cache_node front (pos + (other.size - 1)) other.tail
                else front;
          },
        )

  -- `insert_list`: both lists after it
  unfoldable pub insert_list : Heap A → HashList → ℕ → HashList → Run (Heap A × HashList × HashList)
  insert_list heap l pos other =
      if ltb l.list.size pos
      then fault out_of_range
      else if other.list.size == 0
      then ok (heap, l, other)
      else do
        r ← splice heap l pos other.list
        ok (
          r.0,
          record (r.1) { list = record (r.1.list) { size = l.list.size + other.list.size } },
          record other { list = new_handle; index_cache = [] },
        )

  -- `erase` of a node, which is the one of `PooledList`
  unfoldable pub erase_link : Heap A → HashList → Link → Run (Heap A × HashList)
  erase_link heap l p = do r ← erase_node heap l.list p; ok (r.0, record l { list = r.1 })

  unfoldable pub pop_front : Heap A → HashList → Run (Heap A × HashList)
  pop_front heap l = do
    r ← erase_link heap l l.list.head
    ok (r.0, record (r.1) { index_cache = [] })

  unfoldable pub pop_back : Heap A → HashList → Run (Heap A × HashList)
  pop_back heap l =
      erase_link heap
        (record l { index_cache = uncache l.index_cache ((l.list.size + 2 ^ 64 - 1) % 2 ^ 64) })
        l.list.tail

  -- `erase` of an index inside
  unfoldable pub erase_inside : Heap A → HashList → ℕ → Run (Heap A × HashList)
  erase_inside heap l index = do
    r ← node_at heap l index
    c ← read_node heap r.0
    e ← erase_link heap r.1 r.0
    let kept = delete_cache_upper_than e.1.index_cache index
    ok (
      e.0,
      record (e.1) {
        index_cache = elim c.next [ none ↦ kept | some q ↦ cache_node kept index (some q) ];
      },
    )

  unfoldable pub erase : Heap A → HashList → ℕ → Run (Heap A × HashList)
  erase heap l index =
      if index == 0
      then pop_front heap l
      else if (index + 1) % 2 ^ 64 == l.list.size
      then pop_back heap l
      else erase_inside heap l index

  -- `clear` keeps the cache.
  unfoldable pub clear : Heap A → HashList → Run (Heap A × HashList)
  clear heap l = do
    h ← recycle_all (l.list.size + 1) heap l.list.head
    ok (h, record l { list = new_handle })
