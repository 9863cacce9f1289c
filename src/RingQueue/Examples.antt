-- ===== src/RingQueue/Examples.antt =====
-- The queue on concrete values.
use bhcpp_hptool_kit.Base.{
  ℕ, ◌*◌, ◌/◌, ◌≤◌, ◌<◌, ◌≡◌, inl, inr, refl, arith, true, false, [], ◌∷◌, some, zero, suc,
}
use bhcpp_hptool_kit.Base.Run.{ok, fault, undefined, invalid_argument, ◌>>=◌, Returns}
use bhcpp_hptool_kit.MathBits.{is_power_of_two, round_up_power_of_two}
use bhcpp_hptool_kit.BlockPool.Sizes.{byte_capacity, choose_bucket_size, normalize_min_block_size}
use bhcpp_hptool_kit.RingQueue.{
  vacant, holds, Queue, capacity, new, try_push, try_pop, front_copy, pop_batch, snapshot, clear,
  reserve, ensure_capacity, append_value, overwrite_value, expand_value, read_slot, write_slot,
  destroy_slot, initialize_slots, destroy_slots, double_until, move_slots, allocate_slots,
  pop_values, copy_values,
}
use bhcpp_hptool_kit.RingQueue.Refine.{Repr, bounded_push, ensure_capacity-Repr, try_push_lem}
use bhcpp_hptool_kit.RingQueue.Pop.{try_pop_lem}
use bhcpp_hptool_kit.RingQueue.Storage.{IsInitialised, clear-new}

program : Unit {0}
unfolding is_power_of_two round_up_power_of_two byte_capacity choose_bucket_size
    normalize_min_block_size new try_push try_pop front_copy pop_batch snapshot clear reserve
    ensure_capacity append_value overwrite_value expand_value read_slot write_slot destroy_slot
    initialize_slots destroy_slots double_until move_slots allocate_slots pop_values copy_values
program = tt

-- 8, then 9, round the end of the block
abbrev wrapped : Queue ℕ
wrapped = record {
  buffer = holds 9 ∷ vacant ∷ holds 8 ∷ [];
  head = 2;
  tail = 1;
  size = 2;
  overwrite_when_full = true;
  auto_expand = false;
}

abbrev crowded : Queue ℕ
crowded = record {
  buffer = holds 9 ∷ holds 7 ∷ holds 8 ∷ [];
  head = 2;
  tail = 2;
  size = 3;
  overwrite_when_full = true;
  auto_expand = false;
}

wrapped-Repr : Repr wrapped (8 ∷ 9 ∷ [])
wrapped-Repr = record {
  small = omega arith;
  head_in = omega arith;
  fits = omega arith;
  sized = refl;
  tail_at = refl;
  window = (refl, (refl, tt));
}

crowded-Repr : Repr crowded (8 ∷ 9 ∷ 7 ∷ [])
crowded-Repr = record {
  small = omega arith;
  head_in = omega arith;
  fits = omega arith;
  sized = refl;
  tail_at = refl;
  window = (refl, (refl, (refl, tt)));
}

-- A full queue that expands moves its values to the front of a larger block.
push_expands :
    (do (_, q) ← try_push 16 (record crowded { auto_expand = true }) 6; snapshot q)
    ≡ ok (8 ∷ 9 ∷ 7 ∷ 6 ∷ [])
unfolding program
push_expands = refl

new_no_capacity : new 16 {A = ℕ} 0 false true ≡ fault invalid_argument
unfolding program
new_no_capacity = refl

ensure_capacity-Repr_example : Returns (ensure_capacity 16 wrapped 5) λ r.
    Repr r (8 ∷ 9 ∷ [])
    × (5 ≤ capacity r)
    × (3 ≤ capacity r)
    × (r.auto_expand ≡ false)
    × (r.overwrite_when_full ≡ true)
ensure_capacity-Repr_example =
    ensure_capacity-Repr 16 wrapped (8 ∷ 9 ∷ []) 5 (omega arith) (omega arith) wrapped-Repr

try_push_lem_example : Returns (try_push 16 crowded 6) λ r.
    (r.0 ≡ (bounded_push {A = ℕ} 3 false true (8 ∷ 9 ∷ 7 ∷ []) 6).0)
    × Repr r.1 (bounded_push {A = ℕ} 3 false true (8 ∷ 9 ∷ 7 ∷ []) 6).1
try_push_lem_example =
    try_push_lem 16 crowded (8 ∷ 9 ∷ 7 ∷ []) 6 (omega arith) (omega arith) crowded-Repr

try_pop_lem_example : Returns (try_pop wrapped) λ r. (r.0 ≡ some 8) × Repr r.1 (9 ∷ [])
try_pop_lem_example = try_pop_lem wrapped (8 ∷ 9 ∷ []) wrapped-Repr

wrapped-IsInitialised : IsInitialised 0 wrapped.buffer
wrapped-IsInitialised zero lo hi = inr (9, refl)
wrapped-IsInitialised (suc zero) lo hi = inl refl
wrapped-IsInitialised (suc (suc zero)) lo hi = inr (8, refl)
wrapped-IsInitialised (suc (suc (suc j))) lo hi = absurd (omega arith)

-- 128 slots of 40 bytes take a block of 8192 bytes, which holds 204.
larger_block : 128 < byte_capacity (40 * 128) / 40
unfolding program
larger_block = omega arith

clear-new_example : (new 40 {A = ℕ} 128 false true >>= clear) ≡ fault undefined
clear-new_example =
    clear-new 40 128 false true (omega arith) (omega arith) (omega arith) larger_block
