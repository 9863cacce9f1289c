-- ===== src/Vector/Emplace.antt =====
-- PooledVector.hpp, `emplace` in front of an element: the loop that makes the gap.
use native.Mathlib.Decide.{ℕ_discrete, dec_lt}
use bhcpp_hptool_kit.Base.{
  ℕ, suc, ◌+◌, ◌-◌, ◌*◌, ◌^◌, ◌≤◌, ◌<◌, ◌≡◌, ◌≢◌, inl, inr, refl, sym, ◌∙◌, ap, arith, List, some,
  get_elem?, set, length, length-set, get_elem?-set_self, get_elem?-set_ne, ◌==◌, Bool-cases,
}
use bhcpp_hptool_kit.Base.Run.{ok, Returns, Returns-bind}
use bhcpp_hptool_kit.Base.Edit.{
  insert_at, length-insert_at, insert_at-end, get_elem?-insert_before, get_elem?-insert_here,
  get_elem?-insert_after,
}
use bhcpp_hptool_kit.Vector.{
  shift_up, Cell, raw, holds, Vector, capacity, read_cell, construct, shift_up, emplace,
  emplace_before,
}
use bhcpp_hptool_kit.Vector.Cells.{At, construct-ok, destroy_cell-ok, read_cell-At, shift_up_lem}
use bhcpp_hptool_kit.Vector.Grow.{
  cell_of, Repr, Repr-Full, ensure_capacity_for_one_more_lem, emplace_back-room,
}
use bhcpp_hptool_kit.Vector.Refine.{raw_past, value}

module _ {ℓ} (value_size : ℕ) {A : Type ℓ} (v : Vector A) (xs : List A) (index : ℕ) (a : A)
    (rep : Repr v xs) (within : index < length xs) (room : length xs < capacity v) where
  -- The first part of `emplace`: the elements from `index` on have moved up by one.
  make_gap :
      (last : A) × (longer : List (Cell A)) × (shifted : List (Cell A)) × (read_cell v.data_cells
          (v.size - 1)
        ≡ ok last)
      × (construct v.data_cells v.size last ≡ ok longer)
      × (shift_up (v.size - 1 - index) index longer ≡ ok shifted)
      × (length shifted ≡ capacity v)
      × ((j : ℕ) → j ≤ index → get_elem? shifted j ≡ get_elem? v.data_cells j)
      × ((j : ℕ) → index ≤ j → j < v.size → get_elem? shifted (suc j) ≡ get_elem? v.data_cells j)
      × ((j : ℕ) → v.size < j → get_elem? shifted j ≡ get_elem? v.data_cells j)
  make_gap =
      let size = rep.0 in
      let full = Repr-Full v xs rep in
      let (last, top) = full (v.size - 1) (omega arith) in
      let longer = set v.data_cells v.size (holds last) in
      let same_size = length-set v.data_cells v.size (holds last) in
      let end : At longer v.size (holds last) =
        get_elem?-set_self v.data_cells v.size (holds last) (omega arith) in
      let others : (j : ℕ) → v.size ≢ j → get_elem? longer j ≡ get_elem? v.data_cells j =
        λ j p. get_elem?-set_ne v.data_cells (holds last) p in
      let (shifted, run, (same, inside, outside)) =
        shift_up_lem (v.size - 1 - index) index longer
          (λ j p q. let (b, e) = full j (omega arith) in (b, others j (omega arith) ∙ e)) in
      (
        last,
        longer,
        shifted,
        read_cell-At v.data_cells (v.size - 1) last top,
        construct-ok v.data_cells v.size last (omega arith),
        run,
        same ∙ same_size,
        λ j p. outside j (inl p) ∙ others j (omega arith),
        λ j p q. elim (ℕ_discrete j (v.size - 1)) [
          | yes e ↦
              outside (suc j) (inr (omega arith))
              ∙ (ap (get_elem? longer) (omega arith)
                  ∙ (end ∙ (sym top ∙ ap (get_elem? v.data_cells) (sym e))))
          | no e ↦ inside j p (omega arith) ∙ others j (omega arith)
        ],
        λ j p. outside j (inr (omega arith)) ∙ others j (omega arith),
      )

  -- The values with the new one in the gap.
  fill_gap :
      (shifted r : List (Cell A))
      → length r ≡ capacity v
      → ((j : ℕ) → j ≤ index → get_elem? shifted j ≡ get_elem? v.data_cells j)
      → ((j : ℕ) → index ≤ j → j < v.size → get_elem? shifted (suc j) ≡ get_elem? v.data_cells j)
      → ((j : ℕ) → v.size < j → get_elem? shifted j ≡ get_elem? v.data_cells j)
      → At r index (holds a)
      → ((j : ℕ) → index ≢ j → get_elem? r j ≡ get_elem? shifted j)
      → Repr (record { data_cells = r; size = v.size + 1 }) (insert_at index a xs)
  fill_gap shifted r len before between after here apart =
      let (size, _, cells) = rep in
      let grown = length-insert_at index a xs in
      let upper : (j : ℕ)
          → index ≤ j
          → suc j < capacity v
          → get_elem? shifted (suc j) ≡ some (cell_of (get_elem? xs j)) =
        λ j p h. elim (dec_lt j v.size) [
          | yes q ↦ between j p q ∙ cells j (omega arith)
          | no q ↦
              after (suc j) (omega arith)
              ∙ (cells (suc j) h
                  ∙ (sym (raw_past xs (suc j) (omega arith)) ∙ raw_past xs j (omega arith)))
        ] in
      (
        omega arith,
        omega arith,
        λ j h. elim (ℕ_discrete index j) [
          | yes e ↦
              ap (get_elem? r) (sym e)
              ∙ (here
                  ∙ value (
                      sym (get_elem?-insert_here index a xs (omega arith))
                      ∙ ap (get_elem? (insert_at index a xs)) e))
          | no e ↦ elim (dec_lt j index) [
            | yes p ↦
                apart j e
                ∙ (before j (omega arith)
                    ∙ (cells j (omega arith)
                        ∙ value (sym (get_elem?-insert_before index a xs j (omega arith) p))))
            | no p ↦
                let up : suc (j - 1) ≡ j = omega arith in
                apart j e
                ∙ (ap (get_elem? shifted) (sym up)
                    ∙ (upper (j - 1) (omega arith) (omega arith)
                        ∙ value (
                            sym (
                              get_elem?-insert_after index a xs (j - 1) (omega arith) (omega arith))
                            ∙ ap (get_elem? (insert_at index a xs)) up)))
          ]
        ],
      )

  emplace_before_lem :
      Returns (emplace_before value_size v index a) λ r. Repr r (insert_at index a xs)
  unfolding emplace_before
  emplace_before_lem =
      let (last, longer, shifted, read, made, run, same, before, between, after) = make_gap in
      let (b, held) = Repr-Full v xs rep index within in
      let opened = set shifted index raw in
      let r = set opened index (holds a) in
      let size = rep.0 in
      let room' = rep.1 in
      let len_opened = length-set shifted index raw in
      let len = length-set opened index (holds a) in
      (
        record { data_cells = r; size = v.size + 1 },
        rw (
          read,
          made,
          run,
          destroy_cell-ok shifted index (b, before index (omega arith) ∙ held),
          construct-ok opened index a (omega arith),
        ),
        fill_gap shifted r (len ∙ (len_opened ∙ same)) before between after
            (get_elem?-set_self opened index (holds a) (omega arith))
            (λ j p. get_elem?-set_ne opened (holds a) p ∙ get_elem?-set_ne shifted raw p),
      )

module _ {ℓ} (value_size : ℕ) (pos : 0 < value_size) (one : value_size ≤ 2 ^ 63) {A : Type ℓ} where
  -- `emplace` and `insert` of a value from elsewhere, at an index up to the size: the value is there
  -- afterwards, the later ones behind it, and the iterator returned has that index. An element takes
  -- at least one byte and at most `2 ^ 63`, and twice the capacity takes at most `2 ^ 63`.
  pub emplace-Repr :
      (v : Vector A) (xs : List A) (index : ℕ) (a : A)
      → Repr v xs
      → index ≤ length xs
      → value_size * (capacity v * 2) ≤ 2 ^ 63
      → Returns (emplace value_size v index a) λ r. (r.0 ≡ index) × Repr r.1 (insert_at index a xs)
  unfolding emplace
  emplace-Repr v xs index a rep le twice =
      Returns-bind (ensure_capacity_for_one_more_lem value_size pos v xs rep one twice)
        λ grown (p, room). elim (Bool-cases (index == grown.size)) [
          | inl at_end ↦
              let e : index ≡ length xs = ground (arith, p.0) in
              let (r, run, (q, _)) = emplace_back-room value_size pos grown xs a p room in
              ((index, r), rw (at_end, run), (refl, rw (e, insert_at-end a xs) q))
          | inr inside ↦
              let (r, run, q) =
                emplace_before_lem value_size grown xs index a p (ground (arith, p.0)) room in
              ((index, r), rw (inside, run), (refl, q))
        ]
