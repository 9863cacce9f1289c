-- ===== src/RingQueue/Refine.antt =====
-- A queue in a ring of slots is the bounded queue of the values in its window.
use mathlib.Core.Path.{subst}
use native.Mathlib.Nat.{
  mul-le-mul_left, le_trans, le-mul_of_pos_right, mul_comm, mod-eq_of_lt, zero-add, mod-add-mod,
}
use bhcpp_hptool_kit.Base.{
  ℕ, ◌+◌, ◌*◌, ◌%◌, ◌^◌, ◌≤◌, ◌<◌, ◌≡◌, inl, inr, refl, sym, ◌∙◌, ap, arith, List, [], ◌∷◌, ◌++◌,
  set, length, length-set, Bool, Bool-cases, leb, ◌==◌, true, false, if◌then◌else◌, length-append,
  drop,
}
use bhcpp_hptool_kit.Base.Run.{Returns, Returns-bind}
use bhcpp_hptool_kit.RingQueue.{
  Slot, vacant, holds, Queue, capacity, next_index, move_slots, add_size, ensure_capacity,
  append_value, overwrite_value, expand_value, try_push,
}
use bhcpp_hptool_kit.RingQueue.Window.{
  Window, Window-set_first, Window-set_next, wrap_cases, offset-lt, offset_zero, offset_shift,
}
use bhcpp_hptool_kit.RingQueue.Slots.{
  write_slot-ok, destroy_slot-holds, move_slots_lem, double_until_lem, allocate_slots_lem,
}

-- The queue holds `xs`, oldest first.
pub record Repr {ℓ} {A : Type ℓ} (q : Queue A) (xs : List A) : Type ℓ where
  pub small : length q.buffer ≤ 2 ^ 63
  pub head_in : q.head < length q.buffer
  pub fits : q.size ≤ length q.buffer
  pub sized : q.size ≡ length xs
  pub tail_at : q.tail ≡ (q.head + q.size) % length q.buffer
  pub window : Window q.buffer q.head xs

-- What a bounded queue does with a new value: whether it is taken, and the values after.
unfoldable pub bounded_push {ℓ} : {A : Type ℓ} → ℕ → Bool → Bool → List A → A → Bool × List A
bounded_push cap auto_expand overwrite xs x =
    if length xs == cap
    then if auto_expand
      then (true, xs ++ x ∷ [])
      else if overwrite
      then (true, drop 1 xs ++ x ∷ [])
      else (false, xs)
    else (true, xs ++ x ∷ [])

module _ {ℓ} {A : Type ℓ} where
  moved :
      (q : Queue A) (xs : List A) (fresh : List (Slot A))
      → Repr q xs
      → length q.buffer ≤ length fresh
      → Returns
          (move_slots q.size 0 q.head q.buffer fresh)
          λ r. (length r.1 ≡ length fresh) × Window r.1 0 xs
  moved q xs fresh v room =
      let first : Window q.buffer ((q.head + 0) % length q.buffer) xs =
        rw (offset_zero q.head v.head_in) v.window in
      let (r, run, (len, win, _)) =
        move_slots_lem xs [] 0 q.head q.buffer fresh refl v.head_in v.small
          (omega (arith, v.fits, v.sized)) room first tt in
      (r, ap (λ k. move_slots k 0 q.head q.buffer fresh) v.sized ∙ run, (len, win))

  -- When twice the capacity asked for stays within `2 ^ 63` bytes, `ensureCapacity` terminates, keeps
  -- the values, their order and the flags, and reaches that capacity and loses none.
  pub ensure_capacity-Repr :
      (slot_size : ℕ) (q : Queue A) (xs : List A) (min_capacity : ℕ)
      → 0 < slot_size
      → slot_size * (2 * min_capacity) ≤ 2 ^ 63
      → Repr q xs
      → Returns (ensure_capacity slot_size q min_capacity) λ r.
        Repr r xs
        × (min_capacity ≤ capacity r)
        × (capacity q ≤ capacity r)
        × (r.auto_expand ≡ q.auto_expand)
        × (r.overwrite_when_full ≡ q.overwrite_when_full)
  unfolding ensure_capacity
  ensure_capacity-Repr slot_size q xs m pos bytes v = elim (Bool-cases (leb m (capacity q))) [
    | inl enough ↦ (q, rw enough, (v, ground arith, omega arith, refl, refl))
    | inr short ↦
        let more : capacity q < m = ground arith in
        let m-small : 2 * m ≤ 2 ^ 63 =
          le_trans (le-mul_of_pos_right (2 * m) pos) (rw (mul_comm (2 * m) slot_size) bytes) in
        let start : (if capacity q == 0 then 1 else capacity q) ≡ capacity q =
          ground (arith, v.head_in) in
        rw (short, start)
          (Returns-bind
            (double_until_lem 64 m (capacity q) (omega (arith, v.head_in))
              (omega (arith, v.head_in)) (omega arith))
            λ c cp.
              Returns-bind
                (allocate_slots_lem A slot_size c pos
                  (le_trans (mul-le-mul_left slot_size (omega (arith, cp.2))) bytes))
                λ fresh fp. Returns-bind (moved q xs fresh v (omega (arith, cp.1, fp.1))) λ r rp. (
                  record q { buffer = r.1; head = 0; tail = q.size },
                  refl,
                  (
                    record {
                      small = omega (arith, rp.0, fp.2);
                      head_in = omega (arith, rp.0, fp.1, cp.0);
                      fits = omega (arith, v.fits, rp.0, fp.1, cp.1);
                      sized = v.sized;
                      tail_at =
                          rw zero-add
                            (sym (mod-eq_of_lt (omega (arith, v.fits, rp.0, fp.1, cp.0))));
                      window = rp.1;
                    },
                    omega (arith, rp.0, fp.1, cp.0),
                    omega (arith, rp.0, fp.1, cp.1),
                    refl,
                    refl,
                  ),
                ))
  ]

  -- The wrap of `std::size_t` does not show in an index.
  pub next_index_lem :
      (q : Queue A) (i : ℕ)
      → length q.buffer ≤ 2 ^ 63
      → i < length q.buffer
      → next_index q i ≡ (i + 1) % length q.buffer
  next_index_lem q i small lt = ap (λ t. t % length q.buffer) (omega arith)

  append_value-Repr :
      (q : Queue A) (xs : List A) (x : A)
      → Repr q xs
      → q.size < capacity q
      → Returns (append_value q x) λ r. (r.0 ≡ true) × Repr r.1 (xs ++ x ∷ [])
  unfolding append_value
  append_value-Repr q xs x v room =
      let tail-lt : q.tail < length q.buffer = rw v.tail_at (offset-lt q.head q.size v.head_in) in
      let len = length-set q.buffer q.tail (holds x) in
      let one : add_size q.size 1 ≡ q.size + 1 = omega (arith, v.small) in
      let at : q.tail ≡ (q.head + length xs) % length q.buffer = rw (← v.sized) v.tail_at in
      let turn : next_index q q.tail ≡ (q.head + add_size q.size 1) % length q.buffer =
        rw (next_index_lem q q.tail v.small tail-lt, one, v.tail_at, mod-add-mod)
          (ap (λ t. t % length q.buffer) (omega arith)) in
      (
        (
          true,
          record q {
            buffer = set q.buffer q.tail (holds x);
            tail = next_index q q.tail;
            size = add_size q.size 1;
          },
        ),
        rw (write_slot-ok q.buffer q.tail (holds x) tail-lt),
        (
          refl,
          record {
            small = omega (arith, v.small);
            head_in = omega (arith, v.head_in);
            fits = omega arith;
            sized = omega (arith, length-append xs (x ∷ []), v.sized);
            tail_at = rw len turn;
            window =
                Window-set_next q.buffer q.head q.tail xs x v.head_in (omega (arith, v.sized)) at
                  v.window;
          },
        ),
      )

  overwrite_value-Repr :
      (q : Queue A) (xs : List A) (x : A)
      → Repr q xs
      → q.size ≡ capacity q
      → Returns (overwrite_value q x) λ r. (r.0 ≡ true) × Repr r.1 (drop 1 xs ++ x ∷ [])
  unfolding overwrite_value
  overwrite_value-Repr q [] x v e = absurd (omega (arith, v.sized, v.head_in))
  overwrite_value-Repr q (y ∷ xs) x v e =
      let n = length q.buffer in
      let full_turn : (q.head + q.size) % n ≡ q.head =
        omega (arith, wrap_cases q.head q.size v.head_in (omega (arith, v.fits))) in
      let at : q.tail ≡ q.head = v.tail_at ∙ full_turn in
      let cleared = set q.buffer q.head vacant in
      let len = length-set q.buffer q.head vacant in
      let next = (q.head + 1) % n in
      let last : q.head ≡ (next + length xs) % length cleared =
        rw (len, offset_shift q.head (length xs) n)
          (sym full_turn ∙ ap (λ t. (q.head + t) % n) v.sized) in
      let rest =
        Window-set_first q.buffer q.head vacant xs v.head_in (omega (arith, v.fits, v.sized))
          v.window.1 in
      let len2 = length-set cleared q.head (holds x) ∙ len in
      let turn : next_index q q.tail ≡ next = rw at (next_index_lem q q.head v.small v.head_in) in
      let w =
        Window-set_next cleared next q.head xs x (rw len (omega (arith, v.head_in)))
          (omega (arith, v.fits, v.sized)) last rest in
      (
        (
          true,
          record q {
            buffer = set cleared q.head (holds x);
            tail = next_index q q.tail;
            head = next_index q q.tail;
          },
        ),
        rw (
          at,
          destroy_slot-holds q.buffer q.head y v.window.0,
          write_slot-ok cleared q.head (holds x) (rw len v.head_in),
        ),
        (
          refl,
          subst
              (λ t.
                Repr (record q { buffer = set cleared q.head (holds x); tail = t; head = t })
                  (xs ++ x ∷ []))
              (sym turn)
              (record {
                small = omega (arith, v.small);
                head_in = omega (arith, v.head_in);
                fits = omega (arith, v.fits);
                sized = omega (arith, length-append xs (x ∷ []), v.sized);
                tail_at =
                    rw (len2, e)
                      (sym (
                        omega
                          (arith, wrap_cases next n (offset-lt q.head 1 v.head_in) (omega arith))));
                window = w;
              }),
        ),
      )

  -- While doubling the capacity stays within `2 ^ 63` bytes, `try_push` returns what the bounded queue
  -- returns and leaves its values: a queue with room takes the value, a full one grows, drops its
  -- oldest value or refuses, by its two flags.
  pub try_push_lem :
      (slot_size : ℕ) (q : Queue A) (xs : List A) (x : A)
      → 0 < slot_size
      → slot_size * (2 * (capacity q + 1)) ≤ 2 ^ 63
      → Repr q xs
      → Returns (try_push slot_size q x) λ r.
        (r.0 ≡ (bounded_push (capacity q) q.auto_expand q.overwrite_when_full xs x).0)
        × Repr r.1 (bounded_push (capacity q) q.auto_expand q.overwrite_when_full xs x).1
  unfolding try_push bounded_push expand_value
  try_push_lem slot_size q xs x pos bytes v = elim (Bool-cases (q.size == capacity q)) [
    | inr room ↦ rw (← v.sized, room) (append_value-Repr q xs x v (ground (arith, v.fits)))
    | inl at_cap ↦
        let e : q.size ≡ capacity q = ground arith in
        elim (Bool-cases q.auto_expand) [
          | inl grows ↦
              simp (← v.sized, at_cap, grows)
                (Returns-bind
                  (ensure_capacity-Repr slot_size q xs (add_size (capacity q) 1) pos
                    (rw (no_wrap q v) bytes) v)
                  λ g gp.
                    append_value-Repr g xs x gp.0
                      (omega (arith, gp.0.sized, v.sized, gp.1, no_wrap q v)))
          | inr stays ↦ elim (Bool-cases q.overwrite_when_full) [
            | inl drops ↦ simp (← v.sized, at_cap, stays, drops) (overwrite_value-Repr q xs x v e)
            | inr keeps ↦ simp (← v.sized, at_cap, stays, keeps) ((false, q), refl, (refl, v))
          ]
        ]
  ]
    where
      no_wrap : (q : Queue A) → Repr q xs → add_size (capacity q) 1 ≡ capacity q + 1
      no_wrap q v = omega (arith, v.small)
