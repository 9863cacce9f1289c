-- ===== src/RingQueue/Slots.antt =====
-- What the helpers on slots do where the slots hold what they expect.
use native.Mathlib.Nat.{
  mod-eq_of_lt, pow-suc, mod-add-mod, zero-add, mul_assoc, mul_comm, le-div_iff_mul-le, div-le_self,
}
use native.Mathlib.Decide.{ℕ_discrete}
use mathlib.Core.Path.{subst}
use mathlib.Core.List.{append-nil, append_assoc}
use bhcpp_hptool_kit.Base.{
  ℕ, zero, suc, ◌+◌, ◌*◌, ◌/◌, ◌%◌, ◌^◌, ◌≤◌, ◌<◌, ◌≡◌, ◌⊎◌, inl, inr, refl, sym, ◌∙◌, ap, arith,
  List, [], ◌∷◌, ◌++◌, some, get_elem?, set, length, length-set, get_elem?-set_self,
  get_elem?-set_ne, replicate, length-replicate, length-append, get_elem?-replicate,
  get_elem?_of_lt, Bool-cases, ltb, false,
}
use bhcpp_hptool_kit.Base.Run.{ok, Returns}
use bhcpp_hptool_kit.BlockPool.Sizes.{byte_capacity, byte_capacity_lem}
use bhcpp_hptool_kit.RingQueue.{
  Slot, raw, vacant, holds, read_slot, write_slot, destroy_slot, initialize_slots, double_until,
  move_slots, add_size, mul_size, allocate_slots,
}
use bhcpp_hptool_kit.RingQueue.Window.{Window, Window-set_first, Window-set_next, offset-lt}

module _ {ℓ} {A : Type ℓ} (buffer : List (Slot A)) (i : ℕ) where
  pub read_slot-holds : (x : A) → get_elem? buffer i ≡ some (holds x) → read_slot buffer i ≡ ok x
  unfolding read_slot
  read_slot-holds x e = rw (e, read_slot)

  pub write_slot-ok : (s : Slot A) → i < length buffer → write_slot buffer i s ≡ ok (set buffer i s)
  unfolding write_slot
  write_slot-ok s h = let (old, e) = get_elem?_of_lt buffer i h in rw (e, write_slot)

  pub destroy_slot-holds :
      (x : A)
      → get_elem? buffer i ≡ some (holds x)
      → destroy_slot buffer i ≡ ok (set buffer i vacant)
  unfolding destroy_slot
  destroy_slot-holds x e = rw (e, destroy_slot)

module _ {ℓ} {A : Type ℓ} where
  -- `initializeSlots` makes `count` slots vacant, if the block has so many.
  pub initialize_slots_lem :
      (count i : ℕ) (slots : List (Slot A))
      → i + count ≤ length slots
      → Returns (initialize_slots count i slots) λ r.
        (length r ≡ length slots)
        × ((j : ℕ) → i ≤ j → j < i + count → get_elem? r j ≡ some vacant)
        × ((j : ℕ) → (j < i) ⊎ (i + count ≤ j) → get_elem? r j ≡ get_elem? slots j)
  unfolding initialize_slots
  initialize_slots_lem zero i slots h =
      (slots, refl, (refl, λ j p q. absurd (omega arith), λ j p. refl))
  initialize_slots_lem (suc count) i slots h =
      let (r, run, (same, inside, outside)) =
        initialize_slots_lem count (i + 1) (set slots i vacant)
          (omega (arith, length-set slots i vacant)) in
      (
        r,
        rw (write_slot-ok slots i vacant (omega arith)) run,
        (
          same ∙ length-set slots i vacant,
          λ j p q. elim (ℕ_discrete i j) [
            | yes e ↦
                rw (← e)
                  (outside i (inl (omega arith)) ∙ get_elem?-set_self slots i vacant (omega arith))
            | no n ↦ inside j (omega arith) (omega arith)
          ],
          λ j p. outside j (omega arith) ∙ get_elem?-set_ne slots vacant (λ e. omega arith),
        ),
      )

  move_slots_step :
      (xs : List A) (x : A) (i h : ℕ) (old new : List (Slot A))
      → add_size h i ≡ h + i
      → get_elem? old ((h + i) % length old) ≡ some (holds x)
      → i < length new
      → move_slots (suc (length xs)) i h old new
        ≡ move_slots
            (length xs)
            (i + 1)
            h
            (set old ((h + i) % length old) vacant)
            (set new i (holds x))
  unfolding move_slots
  move_slots_step xs x i h old new e held lt = rw (
    e,
    read_slot-holds old _ x held,
    write_slot-ok new i (holds x) lt,
    destroy_slot-holds old _ x held,
  )

  -- Moving the values of a window to the slots from `i` on of a buffer whose first `i` slots hold
  -- the values that went before.
  pub move_slots_lem :
      (xs done : List A) (i h : ℕ) (old new : List (Slot A))
      → i ≡ length done
      → h < length old
      → length old ≤ 2 ^ 63
      → length done + length xs ≤ length old
      → length old ≤ length new
      → Window old ((h + i) % length old) xs
      → Window new 0 done
      → Returns (move_slots (length xs) i h old new) λ r.
        (length r.1 ≡ length new)
        × Window r.1 0 (done ++ xs)
        × ((j : ℕ) → length done + length xs ≤ j → get_elem? r.1 j ≡ get_elem? new j)
  unfolding move_slots
  move_slots_lem [] done i h old new e hh small fits room w d =
      ((old, new), refl, (refl, rw append-nil d, λ j p. refl))
  move_slots_lem (x ∷ xs) done i h old new e hh small fits room w d =
      let k = (h + i) % length old in
      let k-lt = offset-lt h i hh in
      let no_wrap : add_size h i ≡ h + i = omega arith in
      let next : (h + (i + 1)) % length old ≡ (k + 1) % length old =
        sym (rw mod-add-mod (ap (λ t. t % length old) (omega arith))) in
      let rest_window : Window (set old k vacant) ((h + (i + 1)) % length (set old k vacant)) xs =
        rw (length-set, next) (Window-set_first old k vacant xs k-lt (omega arith) w.1) in
      let here : i ≡ (0 + length done) % length new = sym (offset_of done new e (omega arith)) in
      let more = Window-set_next new 0 i done x (omega arith) (omega arith) here d in
      let (r, run, (len, win, rest)) =
        move_slots_lem xs (done ++ x ∷ []) (i + 1) h (set old k vacant) (set new i (holds x))
          (omega (arith, length-append done (x ∷ []))) (rw length-set hh) (rw length-set small)
          (rw (length-append, length-set) (omega arith))
          (rw (length-set old k vacant, length-set new i (holds x)) room) rest_window more in
      (
        r,
        move_slots_step xs x i h old new no_wrap w.0 (omega arith) ∙ run,
        (
          len ∙ length-set new i (holds x),
          subst (λ l. Window r.1 0 l) (append_assoc done (x ∷ []) xs) win,
          λ j p.
              rest j (rw length-append (omega arith))
              ∙ get_elem?-set_ne new (holds x) (λ same. omega arith),
        ),
      )
    where
      offset_of :
          (done : List A) (new : List (Slot A))
          → i ≡ length done
          → i < length new
          → (0 + length done) % length new ≡ i
      offset_of done new e lt = rw (← e) (rw zero-add (mod-eq_of_lt lt))

-- From a positive capacity the doubling loop ends, at a capacity that is large enough and less than
-- twice what is needed.
pub double_until_lem :
    (fuel min_capacity c : ℕ)
    → 0 < c
    → min_capacity ≤ c * 2 ^ fuel
    → min_capacity ≤ 2 ^ 63
    → Returns
        (double_until fuel min_capacity c)
        λ r. (min_capacity ≤ r) × (c ≤ r) × ((r ≡ c) ⊎ (r < 2 * min_capacity))
unfolding double_until
double_until_lem zero m c pos enough small =
    let e : ltb c m ≡ false = ground arith in (c, rw e, (omega arith, omega arith, inl refl))
double_until_lem (suc fuel) m c pos enough small = elim (Bool-cases (ltb c m)) [
  | inr stop ↦ (c, rw stop, (ground arith, omega arith, inl refl))
  | inl go ↦
      let lt : c < m = ground arith in
      let no_wrap : mul_size c 2 ≡ c * 2 = omega arith in
      let bound : m ≤ c * 2 * 2 ^ fuel =
        rw (mul_assoc c 2 (2 ^ fuel), mul_comm 2 (2 ^ fuel), ← pow-suc) enough in
      let step : double_until (suc fuel) m c ≡ double_until fuel m (c * 2) = rw (go, no_wrap) in
      let (r, run, (ge, le, bounds)) = double_until_lem fuel m (c * 2) (omega arith) bound small in
      (r, step ∙ run, (ge, omega arith, inr (omega arith)))
]

-- `allocate` and `initializeSlots`: the first `count` slots are vacant; the block may have more,
-- and those stay raw.
pub allocate_slots_lem {ℓ} :
    (A : Type ℓ) (slot_size count : ℕ)
    → 0 < slot_size
    → slot_size * count ≤ 2 ^ 63
    → Returns (allocate_slots slot_size {A = A} count) λ r.
      (length r ≡ byte_capacity (slot_size * count) / slot_size)
      × (count ≤ length r)
      × (length r ≤ 2 ^ 63)
      × ((j : ℕ) → j < count → get_elem? r j ≡ some vacant)
      × ((j : ℕ) → count ≤ j → j < length r → get_elem? r j ≡ some raw)
unfolding allocate_slots
allocate_slots_lem A slot_size count pos small =
    let no_wrap : mul_size slot_size count ≡ slot_size * count = omega arith in
    let bytes = byte_capacity (slot_size * count) in
    let (holds_all, bound) = byte_capacity_lem (slot_size * count) small in
    let room : count ≤ bytes / slot_size =
      (le-div_iff_mul-le pos).1 (rw (mul_comm count slot_size) holds_all) in
    let slots : List (Slot A) = replicate (bytes / slot_size) raw in
    let len : length slots ≡ bytes / slot_size = length-replicate (bytes / slot_size) raw in
    let (r, run, (same, inside, outside)) = initialize_slots_lem count 0 slots (omega arith) in
    (
      r,
      rw no_wrap run,
      (
        same ∙ len,
        omega arith,
        omega (arith, div-le_self bytes slot_size),
        λ j h. inside j (omega arith) (omega arith),
        λ j h lt.
            outside j (inr (omega arith))
            ∙ get_elem?-replicate (bytes / slot_size) j raw (omega arith),
      ),
    )
