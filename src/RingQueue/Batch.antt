-- ===== src/RingQueue/Batch.antt =====
-- The operations on many slots: `pop_batch` and `snapshot`.
use mathlib.Core.List.{append-nil, append_assoc}
use native.Mathlib.Nat.{mod-add-mod}
use bhcpp_hptool_kit.Base.{
  ℕ, zero, suc, ◌+◌, ◌-◌, ◌%◌, ◌^◌, ◌≤◌, ◌<◌, min, ◌≡◌, refl, sym, ◌∙◌, ap, arith, List, [], ◌∷◌,
  ◌++◌, set, length, length-set, ltb, if◌then◌else◌, take, drop, length-drop,
}
use bhcpp_hptool_kit.Base.Run.{ok, Returns, Returns-bind}
use bhcpp_hptool_kit.RingQueue.{
  vacant, Queue, next_index, pop_values, copy_values, pop_batch, snapshot,
}
use bhcpp_hptool_kit.RingQueue.Window.{Window, Window-set_first, offset_zero, offset_shift}
use bhcpp_hptool_kit.RingQueue.Slots.{read_slot-holds, destroy_slot-holds}
use bhcpp_hptool_kit.RingQueue.Refine.{Repr, next_index_lem}

module _ {ℓ} {A : Type ℓ} where
  -- The queue `r` after `count` rounds of the loop of `pop_batch` on `q`.
  record Popped (q : Queue A) (count : ℕ) (xs : List A) (r : Queue A) : Type ℓ where
    width : length r.buffer ≡ length q.buffer
    moved : r.head ≡ (q.head + count) % length q.buffer
    tail : r.tail ≡ q.tail
    window : Window r.buffer r.head (drop count xs)

  pop_values_lem :
      (count : ℕ) (q : Queue A) (xs out : List A)
      → count ≤ length xs
      → length xs ≤ length q.buffer
      → length q.buffer ≤ 2 ^ 63
      → q.head < length q.buffer
      → Window q.buffer q.head xs
      → Returns (pop_values count q out) λ r. (r.0 ≡ out ++ take count xs) × Popped q count xs r.1
  unfolding pop_values
  pop_values_lem zero q xs out h fits small hh w = (
    (out, q),
    refl,
    (
      sym (append-nil out),
      record { width = refl; moved = sym (offset_zero q.head hh); tail = refl; window = w },
    ),
  )
  pop_values_lem (suc count) q [] out h fits small hh w = absurd (omega arith)
  pop_values_lem (suc count) q (x ∷ xs) out h fits small hh w =
      let n = length q.buffer in
      let turn = next_index_lem q q.head small hh in
      let len = length-set q.buffer q.head vacant in
      let q' = record q { buffer = set q.buffer q.head vacant; head = next_index q q.head } in
      let rest = Window-set_first q.buffer q.head vacant xs hh (omega arith) w.1 in
      let step : pop_values (suc count) q out ≡ pop_values count q' (out ++ x ∷ []) =
        rw (read_slot-holds q.buffer q.head x w.0, destroy_slot-holds q.buffer q.head x w.0) in
      let (r, run, (outs, p)) =
        pop_values_lem count q' xs (out ++ x ∷ []) (omega arith) (omega arith) (omega arith)
          (rw (turn, len) (omega arith)) (rw turn rest) in
      (
        r,
        step ∙ run,
        (
          outs ∙ append_assoc out (x ∷ []) (take count xs),
          record {
            width = p.width ∙ len;
            moved = p.moved ∙ rw (len, turn) (offset_shift q.head count n);
            tail = p.tail;
            window = p.window;
          },
        ),
      )

  Popped-Repr :
      (q r : Queue A) (xs : List A) (c : ℕ)
      → c ≤ length xs
      → Repr q xs
      → Popped q c xs r
      → Repr (record r { size = q.size - c }) (drop c xs)
  Popped-Repr q r xs c h v p = record {
    small = omega (arith, p.width, v.small);
    head_in = rw (p.width, p.moved) (omega (arith, v.head_in));
    fits = omega (arith, p.width, v.fits);
    sized = omega (arith, length-drop c xs, v.sized);
    tail_at =
        p.tail
        ∙ v.tail_at
        ∙ rw (p.width, p.moved, mod-add-mod)
            (ap (λ t. t % length q.buffer) (omega (arith, v.sized)));
    window = p.window;
  }

  -- `pop_batch` appends the oldest values to `out`, as many as there are up to `max_count`, returns
  -- their number, and leaves the others.
  pub pop_batch_lem :
      (q : Queue A) (xs out : List A) (max_count : ℕ)
      → Repr q xs
      → Returns (pop_batch q out max_count) λ r.
        (r.0 ≡ min (length xs) max_count)
        × (r.1 ≡ out ++ take (min (length xs) max_count) xs)
        × Repr r.2 (drop (min (length xs) max_count) xs)
  unfolding pop_batch
  pop_batch_lem q xs out max_count v =
      let c = min (length xs) max_count in
      let count : (if ltb q.size max_count then q.size else max_count) ≡ c =
        ground (arith, v.sized) in
      rw count (
        Returns-bind
          (pop_values_lem c q xs out (omega arith) (omega (arith, v.fits, v.sized)) v.small
            v.head_in v.window)
          λ r rp. (_, refl, (refl, rp.0, Popped-Repr q r.1 xs c (omega arith) v rp.1)))

  copy_values_lem :
      (q : Queue A) (xs : List A) (index : ℕ) (out : List A)
      → length q.buffer ≤ 2 ^ 63
      → index < length q.buffer
      → Window q.buffer index xs
      → copy_values (length xs) index q out ≡ ok (out ++ xs)
  unfolding copy_values
  copy_values_lem q [] index out small lt w = ap ok (sym (append-nil out))
  copy_values_lem q (x ∷ xs) index out small lt w =
      let turn = next_index_lem q index small lt in
      let step : copy_values (suc (length xs)) index q out
          ≡ copy_values (length xs) (next_index q index) q (out ++ x ∷ []) =
        rw (read_slot-holds q.buffer index x w.0) in
      step
      ∙ copy_values_lem q xs (next_index q index) (out ++ x ∷ []) small (rw turn (omega arith))
          (rw turn w.1)
      ∙ ap ok (append_assoc out (x ∷ []) xs)

  -- `snapshot` gives all the values, oldest first.
  pub snapshot_lem : (q : Queue A) (xs : List A) → Repr q xs → snapshot q ≡ ok xs
  unfolding snapshot
  snapshot_lem q xs v =
      ap (λ k. copy_values k q.head q []) v.sized
      ∙ copy_values_lem q xs q.head [] v.small v.head_in v.window
