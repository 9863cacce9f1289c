-- ===== src/HashMap/Examples.antt =====
-- The hash map on concrete tables.
use bhcpp_hptool_kit.Base.{
  ℕ, zero, suc, ◌*◌, ◌≤◌, ◌<◌, ◌≡◌, inl, inr, refl, arith, Bool, true, false, [], ◌∷◌, Option, some,
  none, if◌then◌else◌, ltb, ◌==◌, Bool-cases, max,
}
use bhcpp_hptool_kit.Base.Run.{Run, ok, fault, undefined, out_of_range, ◌>>=◌, Returns}
use bhcpp_hptool_kit.MathBits.{is_power_of_two, round_up_power_of_two}
use bhcpp_hptool_kit.BlockPool.Sizes.{byte_capacity, choose_bucket_size, normalize_min_block_size}
use bhcpp_hptool_kit.HashMap.KeyOps.{Key}
use bhcpp_hptool_kit.HashMap.{
  Entry, empty, occupied, HashMap, read_entry, unallocated, matches, find_probe,
  find_existing_index, contains, find, mapped_at, at, slot_probe, find_slot_for_insert, slot_entry,
  insert_rehashed_value, reinsert, place_value, insert_in_place, new_entries, rehash,
  ensure_capacity_for_insert, insert_value, try_emplace, emplace, insert, assign, move,
  index_or_insert, reserve, insert_entries, new, copy, erase_at, erase, clear, skip_to_occupied,
  begin, advance, erase_position,
}
use bhcpp_hptool_kit.HashMap.Table.{At, Sound, Absent}
use bhcpp_hptool_kit.HashMap.Count.{Counted}
use bhcpp_hptool_kit.HashMap.Insert.{Holds}
use bhcpp_hptool_kit.HashMap.Rehash.{Rehashed, rehash_lem}
use bhcpp_hptool_kit.HashMap.Refine.{Repr, at_lem}
use bhcpp_hptool_kit.HashMap.Update.{without, erase_lem}
use bhcpp_hptool_kit.HashMap.Put.{try_put, insert_value_lem, index_or_insert_lem}
use bhcpp_hptool_kit.HashMap.Limits.{insert_value-full}

-- `std::hash` and `std::equal_to` on numbers
instance number_keys : Key ℕ
number_keys = record {
  hasher = λ k. k;
  equal = λ a b. a == b;
  equal_self = λ k. ground arith;
  equal_turn = λ a b e. ground arith;
  equal_join = λ a b c e e'. ground arith;
  hasher_respects = λ a b e. ground arith;
}

-- more than three quarters used
abbrev three_quarters : ℕ → ℕ → Bool
three_quarters used buckets = ltb (3 * buckets) (4 * used)

program : Unit {0}
unfolding is_power_of_two round_up_power_of_two byte_capacity choose_bucket_size
    normalize_min_block_size read_entry unallocated matches find_probe find_existing_index contains
    find mapped_at at slot_probe find_slot_for_insert slot_entry insert_rehashed_value reinsert
    place_value insert_in_place new_entries rehash ensure_capacity_for_insert insert_value
    try_emplace emplace insert assign move index_or_insert reserve insert_entries new copy erase_at
    erase clear skip_to_occupied begin advance erase_position
program = tt

-- Keys 1 and 9 share a bucket of 8; erasing the first keeps the second, and its slot is used again.
abbrev collision : Run (ℕ × ℕ × ℕ × Bool × ℕ × ℕ)
collision = do
  m ← new 24 three_quarters {K = ℕ} {V = ℕ} 8
  (_, m1) ← insert_value 24 three_quarters m 1 10
  (_, m2) ← insert_value 24 three_quarters m1 9 90
  (n, m3) ← erase m2 1
  v ← at m3 9
  ((i, fresh), m4) ← insert_value 24 three_quarters m3 17 170
  ok (n, v, i, fresh, m4.erased_count, m4.size)

collides : collision ≡ ok (1, 90, 1, true, 0, 2)
unfolding program number_keys
collides = refl

-- `rehash` to fewer buckets than there are pairs writes through a null pointer.
abbrev nine : HashMap ℕ ℕ
nine = record {
  entries =
      occupied 0 0 0
      ∷ occupied 1 1 1
      ∷ occupied 2 2 2
      ∷ occupied 3 3 3
      ∷ occupied 4 4 4
      ∷ occupied 5 5 5
      ∷ occupied 6 6 6
      ∷ occupied 7 7 7
      ∷ occupied 8 8 8
      ∷ empty
      ∷ empty
      ∷ empty
      ∷ empty
      ∷ empty
      ∷ empty
      ∷ empty
      ∷ [];
  size = 9;
  erased_count = 0;
}

rehash_too_small : rehash 24 three_quarters nine 1 ≡ fault undefined
unfolding program number_keys
rehash_too_small = refl

copies : (do m ← copy 24 three_quarters nine; at m 8) ≡ ok 8
unfolding program number_keys
copies = refl

abbrev eight : HashMap ℕ ℕ
eight = record {
  entries =
      occupied 0 0 0
      ∷ occupied 1 1 1
      ∷ occupied 2 2 2
      ∷ occupied 3 3 3
      ∷ occupied 4 4 4
      ∷ occupied 5 5 5
      ∷ occupied 6 6 6
      ∷ occupied 7 7 7
      ∷ [];
  size = 8;
  erased_count = 0;
}

abbrev below_eight : ℕ → Option ℕ
below_eight q = if ltb q 8 then some q else none

eight-At : (i : ℕ) (e : Entry ℕ ℕ) → At eight.entries i e → (e ≡ occupied i i i) × (i < 8)
eight-At zero e at = (cc at, omega arith)
eight-At (suc zero) e at = (cc at, omega arith)
eight-At (suc (suc zero)) e at = (cc at, omega arith)
eight-At (suc (suc (suc zero))) e at = (cc at, omega arith)
eight-At (suc (suc (suc (suc zero)))) e at = (cc at, omega arith)
eight-At (suc (suc (suc (suc (suc zero))))) e at = (cc at, omega arith)
eight-At (suc (suc (suc (suc (suc (suc zero)))))) e at = (cc at, omega arith)
eight-At (suc (suc (suc (suc (suc (suc (suc zero))))))) e at = (cc at, omega arith)
eight-At (suc (suc (suc (suc (suc (suc (suc (suc i)))))))) e at = cc at

At-eight : (i : ℕ) → i < 8 → At eight.entries i (occupied i i i)
At-eight zero lt = refl
At-eight (suc zero) lt = refl
At-eight (suc (suc zero)) lt = refl
At-eight (suc (suc (suc zero))) lt = refl
At-eight (suc (suc (suc (suc zero)))) lt = refl
At-eight (suc (suc (suc (suc (suc zero))))) lt = refl
At-eight (suc (suc (suc (suc (suc (suc zero)))))) lt = refl
At-eight (suc (suc (suc (suc (suc (suc (suc zero))))))) lt = refl
At-eight (suc (suc (suc (suc (suc (suc (suc (suc i)))))))) lt = absurd (omega arith)

eight-Sound : Sound eight.entries
unfolding number_keys
eight-Sound = record {
  hashed = λ i h k v at. cc ((eight-At i (occupied h k v) at).0);
  unique = λ i j h g a b v w at at' same.
      let left : a ≡ i = cc ((eight-At i (occupied h a v) at).0) in
      let right : b ≡ j = cc ((eight-At j (occupied g b w) at').0) in
      let same_number : a ≡ b = ground arith in cc (left, right, same_number);
}

eight-Counted : Counted eight
eight-Counted = record {
  valid = record {
    sound = eight-Sound;
    bits = 3;
    sized = refl;
    bounded = omega arith;
    reached = λ i h k v at.
        let (e, lt) = eight-At i (occupied h k v) at in
        let hash : h ≡ i = cc e in (0, omega arith, omega arith, λ d p. absurd (omega arith));
  };
  sized = refl;
  erasures = refl;
}

eight-Repr : Repr eight below_eight
unfolding number_keys
eight-Repr = record {
  counted = eight-Counted;
  agrees = λ q w. (
    λ known. elim (Bool-cases (ltb q 8)) [
      | inl e ↦
          let value : q ≡ w = some_value q w e known in
          (q, q, q, cc (At-eight q (ground arith), value), ground arith)
      | inr e ↦ no_value q w e known
    ],
    λ (i, h, a, at, same).
        let (e, lt) = eight-At i (occupied h a w) at in
        let key : a ≡ i = cc e in
        let value : w ≡ i = cc e in
        let equal : a ≡ q = ground arith in held q w (omega arith) (omega arith),
  );
}
  where
    some_value : (q w : ℕ) → ltb q 8 ≡ true → below_eight q ≡ some w → q ≡ w
    some_value q w e known = ground arith

    no_value : (q w : ℕ) → ltb q 8 ≡ false → below_eight q ≡ some w → Holds eight.entries q w
    no_value q w e known = absurd (ground arith)

    held : (q w : ℕ) → q < 8 → q ≡ w → below_eight q ≡ some w
    held q w lt e = ground arith

moderate : (used buckets : ℕ) → three_quarters used buckets ≡ false → used ≤ buckets
moderate used buckets e = ground arith

eight-Absent : Absent eight.entries 8
unfolding number_keys
eight-Absent i (h, a, v, at, same) =
    let (e, lt) = eight-At i (occupied h a v) at in
    let key : a ≡ i = cc e in let equal : a ≡ 8 = ground arith in omega arith

at_lem_example : at eight 8 ≡ fault out_of_range
at_lem_example = at_lem eight below_eight 8 eight-Repr

erase_lem_example : Returns (erase eight 5) λ r. (r.0 ≡ 1) × Repr r.1 (without below_eight 5)
erase_lem_example = erase_lem eight below_eight 5 eight-Repr

insert_value_lem_example : Returns (insert_value 24 three_quarters eight 8 80) λ r.
    Repr r.1 (try_put below_eight 8 80)
    × (r.0.1 ≡ true)
    × ((w : ℕ) × (try_put below_eight 8 80 8 ≡ some w) × (mapped_at r.1 r.0.0 ≡ ok w))
insert_value_lem_example =
    insert_value_lem 24 three_quarters eight below_eight 8 80 moderate (omega arith) (omega arith)
      eight-Repr

sixteen : round_up_power_of_two (max 16 8) ≡ 16
unfolding round_up_power_of_two
sixteen = refl

rehash_lem_example :
    Returns (rehash 24 three_quarters eight 16) λ r. Rehashed 24 three_quarters eight r 16
rehash_lem_example =
    rehash_lem 24 three_quarters eight 16 eight-Sound (omega arith) (omega arith)
      (rw sixteen (omega arith))

insert_value-full_example : insert_value 24 (λ used buckets. false) eight 8 80 ≡ fault undefined
insert_value-full_example =
    insert_value-full 24 (λ used buckets. false) eight below_eight 8 80 eight-Repr refl refl
      eight-Absent

index_or_insert_lem_example :
    Returns
      (index_or_insert 24 three_quarters eight 8 80)
      λ r. Repr r.1 (try_put below_eight 8 80) × (try_put below_eight 8 80 8 ≡ some r.0)
index_or_insert_lem_example =
    index_or_insert_lem 24 three_quarters eight below_eight 8 80 moderate (omega arith)
      (omega arith) eight-Repr
