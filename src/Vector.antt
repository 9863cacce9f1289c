-- ===== src/Vector.antt =====
-- HPContainer/PooledVector.hpp: a dynamic array in a block of the pool. Taking a value by move or by
-- copy is the same here, and constructors of the elements do not throw.
pub mod Cells
pub mod Grow
pub mod Refine
pub mod Emplace
mod Examples
use bhcpp_hptool_kit.Base.{
  ℕ, zero, suc, ◌+◌, ◌-◌, ◌*◌, ◌/◌, ◌%◌, ◌^◌, max, Bool, true, false, List, [], ◌∷◌, ◌++◌, Option,
  none, some, if◌then◌else◌, ltb, leb, ◌==◌, get_elem?, set, replicate, length,
}
use bhcpp_hptool_kit.Base.Run.{Run, ok, fault, undefined, out_of_range, ◌>>=◌}
use bhcpp_hptool_kit.BlockPool.Sizes.{byte_capacity}

-- Storage without an object, or an object with its value.
pub data Cell {ℓ} (A : Type ℓ) : Type ℓ where
  raw : Cell A
  holds : A → Cell A

-- `_capacity` is the length of `data`.
pub record Vector {ℓ} (A : Type ℓ) : Type ℓ where
  pub data_cells : List (Cell A)
  pub size : ℕ

module _ {ℓ} {A : Type ℓ} where
  abbrev pub capacity : Vector A → ℕ
  capacity v = length v.data_cells

  -- `_data[i]`
  unfoldable pub read_cell : List (Cell A) → ℕ → Run A
  read_cell cells i = elim (get_elem? cells i) [ some (holds a) ↦ ok a | _ ↦ fault undefined ]

  -- placement new at `_data + i`
  unfoldable pub construct : List (Cell A) → ℕ → A → Run (List (Cell A))
  construct cells i a = elim (get_elem? cells i) [
    | none ↦ fault undefined
    | some _ ↦ ok (set cells i (holds a))
  ]

  -- `_data[i] = a`, which needs an object there
  unfoldable pub assign_cell : List (Cell A) → ℕ → A → Run (List (Cell A))
  assign_cell cells i a = elim (get_elem? cells i) [
    | some (holds _) ↦ ok (set cells i (holds a))
    | _ ↦ fault undefined
  ]

  -- `_data[i].~T()`
  unfoldable pub destroy_cell : List (Cell A) → ℕ → Run (List (Cell A))
  destroy_cell cells i = elim (get_elem? cells i) [
    | some (holds _) ↦ ok (set cells i raw)
    | _ ↦ fault undefined
  ]

  -- `destroy_elements` from `from` on, `count` of them
  unfoldable pub destroy_elements : ℕ → ℕ → List (Cell A) → Run (List (Cell A))
  destroy_elements zero from cells = ok cells
  destroy_elements (suc count) from cells = do
    cells' ← destroy_cell cells from
    destroy_elements count (from + 1) cells'

  -- the loop of `reserve` and `shrink_to_fit` from index `i` on
  unfoldable pub move_elements : ℕ → ℕ → List (Cell A) → List (Cell A) → Run (List (Cell A))
  move_elements zero i old new = ok new
  move_elements (suc count) i old new = do
    a ← read_cell old i
    new' ← construct new i a
    move_elements count (i + 1) old new'

  unfoldable pub new_vector : Vector A
  new_vector = record { data_cells = []; size = 0 }

  unfoldable pub at : Vector A → ℕ → Run A
  at v pos = if leb v.size pos then fault out_of_range else read_cell v.data_cells pos

  unfoldable pub front : Vector A → Run A
  front v = read_cell v.data_cells 0

  unfoldable pub back : Vector A → Run A
  back v = read_cell v.data_cells ((v.size + 2 ^ 64 - 1) % 2 ^ 64)

  unfoldable pub clear : Vector A → Run (Vector A)
  clear v = do
    cells ← destroy_elements v.size 0 v.data_cells
    ok (record { data_cells = cells; size = 0 })

  unfoldable pub pop_back : Vector A → Run (Vector A)
  pop_back v = if v.size == 0 then ok v else do
    cells ← destroy_cell v.data_cells (v.size - 1)
    ok (record { data_cells = cells; size = v.size - 1 })

  -- the loop of `emplace`: `_data[i] = _data[i - 1]` for `i` from `index + count` down
  unfoldable pub shift_up : ℕ → ℕ → List (Cell A) → Run (List (Cell A))
  shift_up zero index cells = ok cells
  shift_up (suc count) index cells = do
    a ← read_cell cells (index + count)
    cells' ← assign_cell cells (index + suc count) a
    shift_up count index cells'

  -- the loop of `erase`, with `count` elements left behind `i`
  unfoldable pub shift_down : ℕ → ℕ → List (Cell A) → Run (List (Cell A))
  shift_down zero i cells = ok cells
  shift_down (suc count) i cells = do
    a ← read_cell cells (i + 1)
    moved ← construct cells i a
    rest ← destroy_cell moved (i + 1)
    shift_down count (i + 1) rest

  -- `index` is `pos - cbegin()`.
  unfoldable pub erase : Vector A → ℕ → Run (ℕ × Vector A)
  erase v index = if leb v.size index then ok (v.size, v) else do
    opened ← destroy_cell v.data_cells index
    cells ← shift_down (v.size - 1 - index) index opened
    ok (index, record { data_cells = cells; size = v.size - 1 })

  -- The constructor from a vector that is moved: both vectors after it.
  unfoldable pub move : Vector A → Vector A × Vector A
  move other = (other, new_vector)

  -- `operator=` from another vector that is moved: both vectors after it
  unfoldable pub assign_move : Vector A → Vector A → Run (Vector A × Vector A)
  assign_move v other = do _ ← destroy_elements v.size 0 v.data_cells; ok (other, new_vector)

-- `value_size` is `sizeof(T)`.
module _ {ℓ} (value_size : ℕ) {A : Type ℓ} where
  unfoldable pub reserve : Vector A → ℕ → Run (Vector A)
  reserve v new_capacity = if leb new_capacity (capacity v) then ok v else do
    let bytes = byte_capacity (max ((value_size * new_capacity) % 2 ^ 64) value_size)
    cells ← move_elements v.size 0 v.data_cells (replicate (bytes / value_size) raw)
    _ ← destroy_elements v.size 0 v.data_cells
    ok (record v { data_cells = cells })

  -- The new capacity is the size, whatever the block holds.
  unfoldable pub shrink_to_fit : Vector A → Run (Vector A)
  shrink_to_fit v = if v.size == capacity v then ok v else if v.size == 0 then ok new_vector else do
    cells ← move_elements v.size 0 v.data_cells (replicate v.size raw)
    _ ← destroy_elements v.size 0 v.data_cells
    ok (record v { data_cells = cells })

  unfoldable pub ensure_capacity_for_one_more : Vector A → Run (Vector A)
  ensure_capacity_for_one_more v =
      if ltb v.size (capacity v)
      then ok v
      else reserve v (if capacity v == 0 then 1 else (capacity v * 2) % 2 ^ 64)

  -- The value is not an element of the vector.
  unfoldable pub emplace_back : Vector A → A → Run (Vector A)
  emplace_back v a = do
    grown ← ensure_capacity_for_one_more v
    cells ← construct grown.data_cells grown.size a
    ok (record { data_cells = cells; size = grown.size + 1 })

  -- `v.push_back(v[i])`: the reference leads into the block that `reserve` gives back.
  unfoldable pub push_back_own : Vector A → ℕ → Run (Vector A)
  push_back_own v i = do
    grown ← ensure_capacity_for_one_more v
    a ← (if ltb v.size (capacity v) then read_cell v.data_cells i else fault undefined)
    cells ← construct grown.data_cells grown.size a
    ok (record { data_cells = cells; size = grown.size + 1 })

  -- the end of `emplace` in front of an element
  unfoldable pub emplace_before : Vector A → ℕ → A → Run (Vector A)
  emplace_before v index a = do
    last ← read_cell v.data_cells (v.size - 1)
    longer ← construct v.data_cells v.size last
    shifted ← shift_up (v.size - 1 - index) index longer
    opened ← destroy_cell shifted index
    cells ← construct opened index a
    ok (record { data_cells = cells; size = v.size + 1 })

  unfoldable pub emplace : Vector A → ℕ → A → Run (ℕ × Vector A)
  emplace v index a = do
    grown ← ensure_capacity_for_one_more v
    r ← (if index == grown.size then emplace_back grown a else emplace_before grown index a)
    ok (index, r)

  -- `while (_size < count) emplace_back(value);`
  unfoldable pub fill : ℕ → Vector A → A → Run (Vector A)
  fill zero v a = ok v
  fill (suc count) v a = do v' ← emplace_back v a; fill count v' a

  unfoldable pub resize : Vector A → ℕ → A → Run (Vector A)
  resize v count a =
      if ltb count v.size
      then (do
        cells ← destroy_elements (v.size - count) count v.data_cells
        ok (record { data_cells = cells; size = count }))
      else do grown ← reserve v count; fill (count - grown.size) grown a

  -- the loop of the constructors from a sequence
  unfoldable pub append_values : List A → Vector A → Run (Vector A)
  append_values [] v = ok v
  append_values (a ∷ values) v = do v' ← emplace_back v a; append_values values v'

  unfoldable pub from_list : List A → Run (Vector A)
  from_list init = do v ← reserve new_vector (length init); append_values init v

  -- `other` holds the values `values`.
  unfoldable pub assign : Vector A → List A → Run (Vector A)
  assign v values = do
    cleared ← clear v
    ready ← reserve cleared (length values)
    append_values values ready
