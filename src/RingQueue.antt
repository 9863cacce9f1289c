-- ===== src/RingQueue.antt =====
-- HPContainer/RWRingQueue.hpp. Each public method runs under the queue's lock from its first line
-- to its last, so it is one step on the state. Taking a value by move or by copy is the same here.
pub mod Window
pub mod Slots
pub mod Refine
pub mod Pop
pub mod Batch
pub mod Storage
mod Examples
use bhcpp_hptool_kit.Base.{
  ℕ, zero, suc, ◌+◌, ◌-◌, ◌*◌, ◌/◌, ◌%◌, ◌^◌, Bool, true, false, List, [], ◌∷◌, ◌++◌, Option, none,
  some, if◌then◌else◌, ltb, leb, ◌==◌, get_elem?, set, replicate, length,
}
use bhcpp_hptool_kit.Base.Run.{Run, ok, fault, undefined, diverges, invalid_argument, ◌>>=◌}
use bhcpp_hptool_kit.BlockPool.Sizes.{byte_capacity}

-- A slot of the block: bytes that were never initialised, a slot with `occupied == false`, or one
-- that holds a value.
pub data Slot {ℓ} (A : Type ℓ) : Type ℓ where
  raw : Slot A
  vacant : Slot A
  holds : A → Slot A

-- `capacity()` is the length of `buffer`.
pub record Queue {ℓ} (A : Type ℓ) : Type ℓ where
  pub buffer : List (Slot A)
  pub head : ℕ
  pub tail : ℕ
  pub size : ℕ
  pub overwrite_when_full : Bool
  pub auto_expand : Bool

-- `std::size_t` addition and multiplication
abbrev pub add_size : ℕ → ℕ → ℕ
add_size a b = (a + b) % 2 ^ 64

abbrev pub mul_size : ℕ → ℕ → ℕ
mul_size a b = (a * b) % 2 ^ 64

module _ {ℓ} {A : Type ℓ} where
  abbrev pub capacity : Queue A → ℕ
  capacity q = length q.buffer

  abbrev pub next_index : Queue A → ℕ → ℕ
  next_index q index = add_size index 1 % capacity q

  -- `*_buffer[index].value_ptr()`
  unfoldable pub read_slot : List (Slot A) → ℕ → Run A
  read_slot buffer index = elim (get_elem? buffer index) [
    | some (holds v) ↦ ok v
    | _ ↦ fault undefined
  ]

  -- placement new, and `occupied` of the slot set
  unfoldable pub write_slot : List (Slot A) → ℕ → Slot A → Run (List (Slot A))
  write_slot buffer index s = elim (get_elem? buffer index) [
    | none ↦ fault undefined
    | some _ ↦ ok (set buffer index s)
  ]

  -- The test of `occupied` reads the slot.
  unfoldable pub destroy_slot : List (Slot A) → ℕ → Run (List (Slot A))
  destroy_slot buffer index = elim (get_elem? buffer index) [
    | some vacant ↦ ok buffer
    | some (holds _) ↦ ok (set buffer index vacant)
    | _ ↦ fault undefined
  ]

  -- `for (i = from; i < from + count; ++i) new (slots + i) Slot();`
  unfoldable pub initialize_slots : ℕ → ℕ → List (Slot A) → Run (List (Slot A))
  initialize_slots zero i slots = ok slots
  initialize_slots (suc count) i slots = do
    slots' ← write_slot slots i vacant
    initialize_slots count (i + 1) slots'

-- `while (newCapacity < minCapacity) newCapacity *= 2;` From 1 on, 64 doublings pass every size
-- up to `2 ^ 63`; above, the product wraps to 0 and the loop does not end.
unfoldable pub double_until : ℕ → ℕ → ℕ → Run ℕ
double_until zero min_capacity c = if ltb c min_capacity then fault diverges else ok c
double_until (suc fuel) min_capacity c =
    let rest = double_until fuel min_capacity (mul_size c 2) in
    if ltb c min_capacity then rest else ok c

module _ {ℓ} {A : Type ℓ} where
  -- the loop of `ensureCapacity` that moves the values, with `count` rounds left
  unfoldable pub move_slots :
      ℕ → ℕ → ℕ → List (Slot A) → List (Slot A) → Run (List (Slot A) × List (Slot A))
  move_slots zero i head old new = ok (old, new)
  move_slots (suc count) i head old new = do
    let old_index = add_size head i % length old
    v ← read_slot old old_index
    new' ← write_slot new i (holds v)
    old' ← destroy_slot old old_index
    move_slots count (i + 1) head old' new'

  -- the loop of `clear`
  unfoldable pub destroy_slots : ℕ → ℕ → List (Slot A) → Run (List (Slot A))
  destroy_slots zero i buffer = ok buffer
  destroy_slots (suc count) i buffer = do
    buffer' ← destroy_slot buffer i
    destroy_slots count (i + 1) buffer'

module _ {ℓ} {A : Type ℓ} where
  -- the last lines of `pushValue`: room is left
  unfoldable pub append_value : Queue A → A → Run (Bool × Queue A)
  append_value q value = do
    buffer ← write_slot q.buffer q.tail (holds value)
    ok (true, record q { buffer = buffer; tail = next_index q q.tail; size = add_size q.size 1 })

  -- the branch of `pushValue` that drops the oldest value
  unfoldable pub overwrite_value : Queue A → A → Run (Bool × Queue A)
  overwrite_value q value = do
    cleared ← destroy_slot q.buffer q.tail
    buffer ← write_slot cleared q.tail (holds value)
    let tail = next_index q q.tail
    ok (true, record q { buffer = buffer; tail = tail; head = tail })

-- `slot_size` is `sizeof(Slot)`.
module _ {ℓ} (slot_size : ℕ) {A : Type ℓ} where
  -- `allocate(sizeof(Slot) * slotCount, true)` and `initializeSlots`: the block may be larger than
  -- what was asked for, and the slots past `slotCount` stay as they are.
  unfoldable pub allocate_slots : ℕ → Run (List (Slot A))
  allocate_slots slot_count =
      initialize_slots slot_count 0
        (replicate (byte_capacity (mul_size slot_size slot_count) / slot_size) raw)

  -- The constructor throws before it initialises a slot.
  unfoldable pub new : ℕ → Bool → Bool → Run (Queue A)
  new slot_count overwrite_when_full auto_expand =
      if slot_count == 0 then fault invalid_argument else do
        buffer ← allocate_slots slot_count
        ok (record {
          buffer = buffer;
          head = 0;
          tail = 0;
          size = 0;
          overwrite_when_full = overwrite_when_full;
          auto_expand = auto_expand;
        })

  unfoldable pub ensure_capacity : Queue A → ℕ → Run (Queue A)
  ensure_capacity q min_capacity = if leb min_capacity (capacity q) then ok q else do
    new_capacity ← double_until 64 min_capacity (if capacity q == 0 then 1 else capacity q)
    fresh ← allocate_slots new_capacity
    (old, new_buffer) ← move_slots q.size 0 q.head q.buffer fresh
    ok (record q { buffer = new_buffer; head = 0; tail = q.size })

  -- the branch that makes room first
  unfoldable pub expand_value : Queue A → A → Run (Bool × Queue A)
  expand_value q value = do
    grown ← ensure_capacity q (add_size (capacity q) 1)
    append_value grown value

  -- `pushValue`, which `try_push` calls.
  unfoldable pub try_push : Queue A → A → Run (Bool × Queue A)
  try_push q value =
      if q.size == capacity q
      then if q.auto_expand
        then expand_value q value
        else if q.overwrite_when_full
        then overwrite_value q value
        else ok (false, q)
      else append_value q value

  -- `emplace` builds the value from its arguments first.
  unfoldable pub emplace : Queue A → A → Run (Bool × Queue A)
  emplace q value =
      if q.size == capacity q
      then if q.auto_expand
        then expand_value q value
        else if q.overwrite_when_full
        then overwrite_value q value
        else ok (false, q)
      else append_value q value

  unfoldable pub reserve : Queue A → ℕ → Run (Queue A)
  reserve q requested_capacity = ensure_capacity q requested_capacity

module _ {ℓ} {A : Type ℓ} where
  -- `none` is the return value `false`.
  unfoldable pub try_pop : Queue A → Run (Option A × Queue A)
  try_pop q = if q.size == 0 then ok (none, q) else do
    value ← read_slot q.buffer q.head
    buffer ← destroy_slot q.buffer q.head
    ok (some value, record q { buffer = buffer; head = next_index q q.head; size = q.size - 1 })

  unfoldable pub front_copy : Queue A → Run (Option A)
  front_copy q =
      if q.size == 0 then ok none else do value ← read_slot q.buffer q.head; ok (some value)

  -- the loop of `pop_batch`, which returns the vector, the buffer and `_head`
  unfoldable pub pop_values : ℕ → Queue A → List A → Run (List A × Queue A)
  pop_values zero q out = ok (out, q)
  pop_values (suc count) q out = do
    value ← read_slot q.buffer q.head
    buffer ← destroy_slot q.buffer q.head
    pop_values count (record q { buffer = buffer; head = next_index q q.head }) (out ++ value ∷ [])

  -- The vector `out` is the list of its values.
  unfoldable pub pop_batch : Queue A → List A → ℕ → Run (ℕ × List A × Queue A)
  pop_batch q out max_count = do
    let actual_count = if ltb q.size max_count then q.size else max_count
    (out', q') ← pop_values actual_count q out
    ok (actual_count, out', record q' { size = q.size - actual_count })

  unfoldable pub copy_values : ℕ → ℕ → Queue A → List A → Run (List A)
  copy_values zero index q result = ok result
  copy_values (suc count) index q result = do
    value ← read_slot q.buffer index
    copy_values count (next_index q index) q (result ++ value ∷ [])

  unfoldable pub snapshot : Queue A → Run (List A)
  snapshot q = copy_values q.size q.head q []

  unfoldable pub clear : Queue A → Run (Queue A)
  clear q = do
    buffer ← destroy_slots (capacity q) 0 q.buffer
    ok (record q { buffer = buffer; head = 0; tail = 0; size = 0 })

  unfoldable pub set_overwrite_when_full : Queue A → Bool → Queue A
  set_overwrite_when_full q overwrite = record q { overwrite_when_full = overwrite }

  unfoldable pub set_auto_expand : Queue A → Bool → Queue A
  set_auto_expand q auto_expand = record q { auto_expand = auto_expand }

  unfoldable pub full : Queue A → Bool
  full q = q.size == capacity q

  unfoldable pub empty : Queue A → Bool
  empty q = q.size == 0
