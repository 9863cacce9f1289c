-- ===== src/Vector/Refine.antt =====
-- PooledVector.hpp, the edits in the middle and at the end, on the values that the vector stands for.
use native.Mathlib.Decide.{ℕ_discrete, dec_lt}
use mathlib.Core.List.{append-nil}
use mathlib.Core.Path.{fun_ext}
use bhcpp_hptool_kit.Base.{
  ℕ, zero, suc, ◌+◌, ◌-◌, ◌*◌, ◌^◌, ◌≤◌, ◌<◌, ◌≡◌, ◌≢◌, inl, inr, refl, sym, ◌∙◌, ap, arith, List,
  [], ◌∷◌, ◌++◌, Option, some, get_elem?, set, length, length-set, get_elem?-set_self,
  get_elem?-set_ne, get_elem?_past, take, length-take, replicate, length-replicate, leb, ltb, ◌==◌,
  Bool-cases, true, false, min,
}
use bhcpp_hptool_kit.Base.Run.{
  Run, ok, fault, undefined, out_of_range, Returns, Returns-bind, ◌>>=◌,
}
use bhcpp_hptool_kit.Base.Edit.{
  remove_at, length-remove_at, get_elem?-remove_before, get_elem?-remove_after, remove_at-past,
  get_elem?-take,
}
use bhcpp_hptool_kit.Vector.{
  Cell, raw, Vector, capacity, destroy_elements, at, clear, pop_back, erase, push_back_own,
  emplace_back, append_values, fill, resize, assign,
}
use bhcpp_hptool_kit.Vector.Cells.{
  destroy_elements_lem, destroy_cell-ok, read_cell-At, shift_down_lem,
}
use bhcpp_hptool_kit.Vector.Grow.{
  cell_of, Repr, Repr-Full, ensure_capacity_for_one_more_lem, reserve_lem, append_values_lem,
}

module _ {ℓ} {A : Type ℓ} where
  get_elem?-lt : (xs : List A) (i : ℕ) (a : A) → get_elem? xs i ≡ some a → i < length xs
  get_elem?-lt [] i a e = cc e
  get_elem?-lt (x ∷ xs) zero a e = omega arith
  get_elem?-lt (x ∷ xs) (suc i) a e = omega (arith, get_elem?-lt xs i a e)

  pub value : {o o' : Option A} → o ≡ o' → some (cell_of o) ≡ some (cell_of o')
  value e = ap (λ o. some (cell_of o)) e

  pub raw_past : (xs : List A) (j : ℕ) → length xs ≤ j → some raw ≡ some (cell_of (get_elem? xs j))
  raw_past xs j h = sym (ap (λ o. some (cell_of o)) (get_elem?_past xs j h))

  -- `at` returns the value at an index below the size, and throws `std::out_of_range` at any other.
  pub at-Repr :
      (v : Vector A) (xs : List A) (i : ℕ)
      → Repr v xs
      → ((a : A) → get_elem? xs i ≡ some a → at v i ≡ ok a)
        × (length xs ≤ i → at v i ≡ fault out_of_range)
  unfolding at
  at-Repr v xs i (size, room, cells) = (
    λ a e.
        let lt = get_elem?-lt xs i a e in
        let inside : leb v.size i ≡ false = ground arith in
        rw inside
          (read_cell-At v.data_cells i a (cells i (omega arith) ∙ ap (λ o. some (cell_of o)) e)),
    λ h. let outside : leb v.size i ≡ true = ground arith in rw outside,
  )

  -- The first `n` values stay when the others are destroyed.
  destroy_tail :
      (v : Vector A) (xs : List A) (count n : ℕ)
      → Repr v xs
      → count + n ≡ v.size
      → Returns (destroy_elements count n v.data_cells) λ cells.
        Repr (record { data_cells = cells; size = n }) (take n xs) × (length cells ≡ capacity v)
  destroy_tail v xs count n (size, room, cells) all =
      let full = Repr-Full v xs (size, room, cells) in
      let (r, run, (same, inside, outside)) =
        destroy_elements_lem count n v.data_cells (λ j p q. full j (omega arith)) in
      let len : length (take n xs) ≡ n = omega (arith, length-take n xs) in
      let kept : (j : ℕ) → j < n → get_elem? r j ≡ some (cell_of (get_elem? (take n xs) j)) = λ j p.
        outside j (inl p)
        ∙ (cells j (omega arith) ∙ sym (ap (λ o. some (cell_of o)) (get_elem?-take n xs j p))) in
      let gone : (j : ℕ) → n ≤ j → j < capacity v → get_elem? r j ≡ some raw = λ j p h.
        elim (dec_lt j v.size) [
          | yes q ↦ inside j p (omega arith)
          | no q ↦ outside j (inr (omega arith)) ∙ (cells j h ∙ sym (raw_past xs j (omega arith)))
        ] in
      (
        r,
        run,
        (
          (
            sym len,
            omega arith,
            λ j lt. elim (dec_lt j n) [
              | yes p ↦ kept j p
              | no p ↦ gone j (omega arith) (omega arith) ∙ raw_past (take n xs) j (omega arith)
            ],
          ),
          same,
        ),
      )

  pub clear_lem :
      (v : Vector A) (xs : List A)
      → Repr v xs
      → Returns (clear v) λ r. Repr r [] × (capacity r ≡ capacity v)
  unfolding clear
  clear_lem v xs rep =
      let (cells, run, p) = destroy_tail v xs v.size 0 rep (omega arith) in
      (record { data_cells = cells; size = 0 }, rw run, p)

  -- `erase` of an index below the size removes that value and closes the gap; the iterator it returns has the same
  -- index. At the size or behind it nothing happens, and the iterator is the end.
  pub erase-Repr :
      (v : Vector A) (xs : List A) (i : ℕ)
      → Repr v xs
      → Returns (erase v i) λ r. (r.0 ≡ min i (length xs)) × Repr r.1 (remove_at i xs)
  unfolding erase
  erase-Repr v xs i rep = elim (Bool-cases (leb v.size i)) [
    | inl past ↦ (
      (v.size, v),
      rw past,
      (ground (arith, rep.0), rw (remove_at-past i xs (ground (arith, rep.0))) rep),
    )
    | inr within ↦
        let (size, room, cells) = rep in
        let lt : i < v.size = ground arith in
        let full = Repr-Full v xs rep in
        let opened = set v.data_cells i raw in
        let len = length-set v.data_cells i raw in
        let old : (j : ℕ) → i ≢ j → get_elem? opened j ≡ get_elem? v.data_cells j =
          λ j p. get_elem?-set_ne v.data_cells raw p in
        let (r, run, (same, inside, end, outside)) =
          shift_down_lem (v.size - 1 - i) i opened
            (λ j p q. let (b, e) = full j (omega arith) in (b, old j (omega arith) ∙ e))
            (get_elem?-set_self v.data_cells i raw (omega arith)) in
        let shorter = length-remove_at i xs (omega arith) in
        (
          (i, record { data_cells = r; size = v.size - 1 }),
          rw (within, destroy_cell-ok v.data_cells i (full i (omega arith)), run),
          (
            omega arith,
            (
              omega arith,
              omega arith,
              λ j h. elim (dec_lt j i) [
                | yes p ↦
                    outside j (inl p)
                    ∙ (old j (omega arith)
                        ∙ (cells j (omega arith)
                            ∙ ap (λ o. some (cell_of o)) (sym (get_elem?-remove_before i xs j p))))
                | no p ↦ elim (dec_lt j (v.size - 1)) [
                  | yes q ↦
                      inside j (omega arith) (omega arith)
                      ∙ (old (suc j) (omega arith)
                          ∙ (cells (suc j) (omega arith)
                              ∙ ap (λ o. some (cell_of o))
                                  (sym (get_elem?-remove_after i xs j (omega arith)))))
                  | no q ↦ elim (ℕ_discrete j (v.size - 1)) [
                    | yes e ↦
                        ap (get_elem? r) (omega arith)
                        ∙ (end ∙ raw_past (remove_at i xs) j (omega arith))
                    | no e ↦
                        outside j (inr (omega arith))
                        ∙ (old j (omega arith)
                            ∙ (cells j (omega arith)
                                ∙ (sym (raw_past xs j (omega arith))
                                    ∙ raw_past (remove_at i xs) j (omega arith))))
                  ]
                ]
              ],
            ),
          ),
        )
  ]

  bind-ok : (m : Run (List (Cell A))) (r : List (Cell A)) → (m >>= λ c. ok c) ≡ ok r → m ≡ ok r
  bind-ok (ok c) r e = e
  bind-ok (fault reason) r e = cc e

  take_all : (n : ℕ) (xs : List A) → length xs ≤ n → take n xs ≡ xs
  take_all zero [] h = refl
  take_all zero (x ∷ xs) h = absurd (omega arith)
  take_all (suc n) [] h = refl
  take_all (suc n) (x ∷ xs) h = ap (◌∷◌ x) (take_all n xs (omega arith))

  take_of_empty : (xs : List A) → length xs ≡ 0 → take (length xs - 1) xs ≡ xs
  take_of_empty [] e = refl
  take_of_empty (x ∷ xs) e = absurd (omega arith)

  -- `pop_back` removes the last value, and does nothing to an empty vector.
  pub pop_back_lem :
      (v : Vector A) (xs : List A)
      → Repr v xs
      → Returns (pop_back v) λ r. Repr r (take (length xs - 1) xs)
  unfolding pop_back destroy_elements
  pop_back_lem v xs rep = elim (Bool-cases (v.size == 0)) [
    | inl empty ↦ (v, rw empty, rw (take_of_empty xs (ground (arith, rep.0))) rep)
    | inr more ↦
        let (cells, run, p) = destroy_tail v xs 1 (v.size - 1) rep (ground (arith, rep.0)) in
        (
          record { data_cells = cells; size = v.size - 1 },
          rw (more, bind-ok _ cells run),
          rw (← rep.0) p.0,
        )
  ]

module _ {ℓ} (value_size : ℕ) (pos : 0 < value_size) (one : value_size ≤ 2 ^ 63) {A : Type ℓ} where
  -- On a full vector `v.push_back(v[i])` reads the element after its block is given back. An element
  -- takes at least one byte and at most `2 ^ 63`, and twice the capacity takes at most `2 ^ 63`.
  pub push_back_own-full :
      (v : Vector A) (xs : List A) (i : ℕ)
      → Repr v xs
      → v.size ≡ capacity v
      → value_size * (capacity v * 2) ≤ 2 ^ 63
      → push_back_own value_size v i ≡ fault undefined
  unfolding push_back_own
  push_back_own-full v xs i rep full twice =
      let (grown, run, _) = ensure_capacity_for_one_more_lem value_size pos v xs rep one twice in
      let tight : ltb v.size (capacity v) ≡ false = ground arith in rw (run, tight)

  -- Copy assignment: afterwards the values are the other vector's.
  pub assign_lem :
      (v : Vector A) (xs values : List A)
      → Repr v xs
      → value_size * length values ≤ 2 ^ 63
      → Returns (assign value_size v values) λ r. Repr r values
  unfolding assign
  assign_lem v xs values rep small = Returns-bind (clear_lem v xs rep) λ cleared (p, _).
      Returns-bind (reserve_lem value_size pos cleared [] (length values) p small)
        λ ready (q, room). append_values_lem value_size pos values ready [] q (omega arith)

  fill-append_values :
      (count : ℕ) (v : Vector A) (a : A)
      → fill value_size count v a ≡ append_values value_size (replicate count a) v
  unfolding fill append_values
  fill-append_values zero v a = refl
  fill-append_values (suc count) v a =
      ap (λ k. emplace_back value_size v a >>= k) (fun_ext (λ v'. fill-append_values count v' a))

  -- `resize` drops the values behind the first `count`, or adds copies of `a` up to that number.
  pub resize_lem :
      (v : Vector A) (xs : List A) (count : ℕ) (a : A)
      → Repr v xs
      → value_size * count ≤ 2 ^ 63
      → Returns
          (resize value_size v count a)
          λ r. Repr r (take count xs ++ replicate (count - length xs) a)
  unfolding resize
  resize_lem v xs count a rep small = elim (Bool-cases (ltb count v.size)) [
    | inl fewer ↦
        let (cells, run, p) = destroy_tail v xs (v.size - count) count rep (ground arith) in
        let none_added : count - length xs ≡ 0 = ground (arith, rep.0) in
        (
          record { data_cells = cells; size = count },
          rw (fewer, run),
          rw (none_added, append-nil) p.0,
        )
    | inr more ↦
        let (grown, run, (p, room)) = reserve_lem value_size pos v xs count rep small in
        let n = count - length xs in
        let len = length-replicate n a in
        let (r, filled, q) =
          append_values_lem value_size pos (replicate n a) grown xs p (ground (arith, p.1)) in
        let size : count - grown.size ≡ n = omega (arith, p.0) in
        (
          r,
          rw (more, run, size, fill-append_values n grown a) filled,
          rw (take_all count xs (ground (arith, rep.0))) q,
        )
  ]
