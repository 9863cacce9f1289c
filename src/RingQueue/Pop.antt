-- ===== src/RingQueue/Pop.antt =====
-- `try_pop` and `front_copy` of the ring are those of the bounded queue.
use mathlib.Core.List.{head?}
use bhcpp_hptool_kit.Base.{
  ◌+◌, ◌-◌, ◌%◌, ◌≡◌, refl, sym, ◌∙◌, ap, arith, List, [], ◌∷◌, some, none, set, length, length-set,
  ◌==◌, true, false, drop,
}
use bhcpp_hptool_kit.Base.Run.{ok, Returns}
use bhcpp_hptool_kit.RingQueue.{vacant, Queue, next_index, try_pop, front_copy}
use bhcpp_hptool_kit.RingQueue.Window.{Window-set_first, offset_shift}
use bhcpp_hptool_kit.RingQueue.Slots.{read_slot-holds, destroy_slot-holds}
use bhcpp_hptool_kit.RingQueue.Refine.{Repr, next_index_lem}

module _ {ℓ} {A : Type ℓ} where
  -- `try_pop` gives the oldest value and leaves the others; an empty queue gives none and stays.
  pub try_pop_lem :
      (q : Queue A) (xs : List A)
      → Repr q xs
      → Returns (try_pop q) λ r. (r.0 ≡ head? xs) × Repr r.1 (drop 1 xs)
  unfolding try_pop
  try_pop_lem q [] v =
      let e : (q.size == 0) ≡ true = ground (arith, v.sized) in rw e ((none, q), refl, (refl, v))
  try_pop_lem q (x ∷ xs) v =
      let e : (q.size == 0) ≡ false = ground (arith, v.sized) in
      let len = length-set q.buffer q.head vacant in
      (
        (
          some x,
          record q {
            buffer = set q.buffer q.head vacant;
            head = next_index q q.head;
            size = q.size - 1;
          },
        ),
        rw (
          e,
          read_slot-holds q.buffer q.head x v.window.0,
          destroy_slot-holds q.buffer q.head x v.window.0,
        ),
        (refl, popped q x xs v),
      )
    where
      popped :
          (q : Queue A) (x : A) (xs : List A)
          → Repr q (x ∷ xs)
          → Repr
              (record q {
                buffer = set q.buffer q.head vacant;
                head = next_index q q.head;
                size = q.size - 1;
              })
              xs
      popped q x xs v =
          let n = length q.buffer in
          let turn = next_index_lem q q.head v.small v.head_in in
          let len = length-set q.buffer q.head vacant in
          let shift : ((q.head + 1) % n + (q.size - 1)) % n ≡ (q.head + q.size) % n =
            offset_shift q.head (q.size - 1) n
            ∙ ap (λ t. (q.head + t) % n) (omega (arith, v.sized)) in
          record {
            small = omega (arith, v.small);
            head_in = rw (len, turn) (omega (arith, v.head_in));
            fits = omega (arith, v.fits);
            sized = omega (arith, v.sized);
            tail_at = rw (len, turn) (v.tail_at ∙ sym shift);
            window = rw turn (
                Window-set_first q.buffer q.head vacant xs v.head_in
                  (omega (arith, v.fits, v.sized)) v.window.1);
          }

  -- `front_copy` gives the oldest value and changes nothing.
  pub front_copy_lem : (q : Queue A) (xs : List A) → Repr q xs → front_copy q ≡ ok (head? xs)
  unfolding front_copy
  front_copy_lem q [] v = let e : (q.size == 0) ≡ true = ground (arith, v.sized) in rw e
  front_copy_lem q (x ∷ xs) v =
      let e : (q.size == 0) ≡ false = ground (arith, v.sized) in
      rw (e, read_slot-holds q.buffer q.head x v.window.0)
