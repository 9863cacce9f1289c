-- ===== src/Vector/Grow.antt =====
-- PooledVector.hpp, the growth: `reserve`, `emplace_back` and what is built of them.
use native.Mathlib.Nat.{mul_comm, le-div_iff_mul-le}
use native.Mathlib.Decide.{ℕ_discrete, dec_lt}
use mathlib.Core.Path.{subst}
use mathlib.Core.List.{append-nil, append_assoc}
use bhcpp_hptool_kit.Base.{
  ℕ, zero, suc, ◌+◌, ◌*◌, ◌/◌, ◌%◌, ◌^◌, ◌≤◌, ◌<◌, ◌≡◌, inl, inr, refl, sym, ◌∙◌, ap, arith, List,
  [], ◌∷◌, ◌++◌, Option, none, some, get_elem?, set, length, length-set, get_elem?-set_self,
  get_elem?-set_ne, get_elem?_of_lt, get_elem?_past, get_elem?-replicate, replicate,
  length-replicate, length-append, max, leb, ltb, ◌==◌, Bool-cases, true,
}
use bhcpp_hptool_kit.Base.Run.{Returns, Returns-bind}
use bhcpp_hptool_kit.Base.Edit.{
  insert_at, length-insert_at, insert_at-end, get_elem?-insert_before, get_elem?-insert_here,
}
use bhcpp_hptool_kit.BlockPool.Sizes.{byte_capacity, byte_capacity_lem}
use bhcpp_hptool_kit.Vector.{
  Cell, raw, holds, Vector, capacity, construct, reserve, ensure_capacity_for_one_more,
  emplace_back, append_values, from_list, new_vector,
}
use bhcpp_hptool_kit.Vector.Cells.{At, Full, move_elements_lem, destroy_elements_lem, construct-ok}

module _ {ℓ} {A : Type ℓ} where
  abbrev pub cell_of : Option A → Cell A
  cell_of none = raw
  cell_of (some a) = holds a

  -- The vector stands for the values `xs`: they are in the first cells, and the others are raw.
  abbrev pub Repr : Vector A → List A → Type ℓ
  Repr v xs =
      (v.size ≡ length xs)
      × (length xs ≤ capacity v)
      × ((j : ℕ) → j < capacity v → At v.data_cells j (cell_of (get_elem? xs j)))

  pub Repr-Full :
      (v : Vector A) (xs : List A) → Repr v xs → (j : ℕ) → j < length xs → Full v.data_cells j
  Repr-Full v xs (_, room, cells) j lt =
      let (a, e) = get_elem?_of_lt xs j lt in
      (a, cells j (omega arith) ∙ ap (λ o. some (cell_of o)) e)

  pub new_vector-Repr : Repr new_vector []
  unfolding new_vector
  new_vector-Repr = (refl, omega arith, λ j lt. absurd (omega arith))

le-mul : (a n : ℕ) → 0 < n → a ≤ a * n
le-mul a zero h = absurd (omega arith)
le-mul a (suc n) h = omega arith

module _ {ℓ} (value_size : ℕ) (pos : 0 < value_size) {A : Type ℓ} where
  -- `reserve` keeps the values, keeps a block that is large enough, and otherwise has at least the capacity that
  -- was asked for.
  pub reserve_lem :
      (v : Vector A) (xs : List A) (n : ℕ)
      → Repr v xs
      → value_size * n ≤ 2 ^ 63
      → Returns (reserve value_size v n) λ r. Repr r xs × (max n (capacity v) ≤ capacity r)
  unfolding reserve
  reserve_lem v xs n (size, room, cells) small = elim (Bool-cases (leb n (capacity v))) [
    | inl keep ↦ (v, rw keep, ((size, room, cells), ground arith))
    | inr grow ↦
        let more : capacity v < n = ground arith in
        let le = le-mul value_size n (omega arith) in
        let asked = max ((value_size * n) % 2 ^ 64) value_size in
        let (fits, _) = byte_capacity_lem asked (omega arith) in
        let bytes = byte_capacity asked in
        let enough : n ≤ bytes / value_size =
          (le-div_iff_mul-le pos).1 (omega (arith, mul_comm n value_size)) in
        let block : List (Cell A) = replicate (bytes / value_size) raw in
        let len : length block ≡ bytes / value_size = length-replicate (bytes / value_size) raw in
        let full = Repr-Full v xs (size, room, cells) in
        let (r, run, (same, inside, outside)) =
          move_elements_lem v.size 0 v.data_cells block (λ j p q. full j (omega arith))
            (omega arith) in
        let (old, destroyed, _) =
          destroy_elements_lem v.size 0 v.data_cells (λ j p q. full j (omega arith)) in
        (
          record v { data_cells = r },
          rw (grow, run, destroyed),
          (
            (
              size,
              omega arith,
              λ j lt. elim (dec_lt j v.size) [
                | yes p ↦ inside j (omega arith) (omega arith) ∙ cells j (omega arith)
                | no p ↦
                    outside j (inr (omega arith))
                    ∙ (get_elem?-replicate (bytes / value_size) j raw (omega arith)
                        ∙ sym (ap (λ o. some (cell_of o)) (get_elem?_past xs j (omega arith))))
              ],
            ),
            omega arith,
          ),
        )
  ]

  pub ensure_capacity_for_one_more_lem :
      (v : Vector A) (xs : List A)
      → Repr v xs
      → value_size ≤ 2 ^ 63
      → value_size * (capacity v * 2) ≤ 2 ^ 63
      → Returns
          (ensure_capacity_for_one_more value_size v)
          λ r. Repr r xs × (length xs < capacity r)
  unfolding ensure_capacity_for_one_more
  ensure_capacity_for_one_more_lem v xs rep one twice =
      elim (Bool-cases (ltb v.size (capacity v))) [
        | inl room ↦ (v, rw room, (rep, ground (arith, rep.0)))
        | inr tight ↦ elim (Bool-cases (capacity v == 0)) [
          | inl empty ↦
              let (r, run, (p, q)) = reserve_lem v xs 1 rep (omega arith) in
              (r, rw (tight, empty) run, (p, ground (arith, rep.1)))
          | inr some_cells ↦
              let le : capacity v * 2 ≤ capacity v * 2 * value_size =
                le-mul (capacity v * 2) value_size pos in
              let comm = mul_comm value_size (capacity v * 2) in
              let no_wrap : (capacity v * 2) % 2 ^ 64 ≡ capacity v * 2 = omega arith in
              let (r, run, (p, q)) = reserve_lem v xs (capacity v * 2) rep twice in
              (r, rw (tight, some_cells, no_wrap) run, (p, ground (arith, rep.1)))
        ]
      ]

  -- A value behind the others, where the capacity has room for it.
  pub construct_end :
      (v : Vector A) (xs : List A) (a : A)
      → Repr v xs
      → length xs < capacity v
      → Returns (construct v.data_cells v.size a) λ cells.
        Repr (record { data_cells = cells; size = v.size + 1 }) (xs ++ a ∷ [])
        × (length cells ≡ capacity v)
  construct_end v xs a (size, room, cells) more =
      let len = length-set v.data_cells v.size (holds a) in
      let grown = length-insert_at (length xs) a xs in
      let shape : Repr
          (record { data_cells = set v.data_cells v.size (holds a); size = v.size + 1 })
          (insert_at (length xs) a xs) =
        (
          omega arith,
          omega arith,
          λ j lt. elim (ℕ_discrete v.size j) [
            | yes e ↦
                ap (get_elem? (set v.data_cells v.size (holds a))) (sym e)
                ∙ (get_elem?-set_self v.data_cells v.size (holds a) (omega arith)
                    ∙ sym (
                        ap (λ o. some (cell_of o))
                          (ap (get_elem? (insert_at (length xs) a xs)) (sym e ∙ size)
                            ∙ get_elem?-insert_here (length xs) a xs (omega arith))))
            | no p ↦ elim (dec_lt j v.size) [
              | yes before ↦
                  get_elem?-set_ne v.data_cells (holds a) p
                  ∙ (cells j (omega arith)
                      ∙ sym (
                          ap (λ o. some (cell_of o))
                            (get_elem?-insert_before (length xs) a xs j (omega arith)
                              (omega arith))))
              | no after ↦
                  get_elem?-set_ne v.data_cells (holds a) p
                  ∙ (cells j (omega arith)
                      ∙ ap (λ o. some (cell_of o))
                          (get_elem?_past xs j (omega arith)
                            ∙ sym (get_elem?_past (insert_at (length xs) a xs) j (omega arith))))
            ]
          ],
        ) in
      (
        set v.data_cells v.size (holds a),
        construct-ok v.data_cells v.size a (omega arith),
        (
          subst
              (Repr (record { data_cells = set v.data_cells v.size (holds a); size = v.size + 1 }))
              (insert_at-end a xs) shape,
          len,
        ),
      )

  pub emplace_back-room :
      (v : Vector A) (xs : List A) (a : A)
      → Repr v xs
      → length xs < capacity v
      → Returns (emplace_back value_size v a) λ r. Repr r (xs ++ a ∷ []) × (capacity r ≡ capacity v)
  unfolding emplace_back ensure_capacity_for_one_more
  emplace_back-room v xs a rep more =
      let room : ltb v.size (capacity v) ≡ true = ground (arith, rep.0) in
      let (cells, run, p) = construct_end v xs a rep more in
      (record { data_cells = cells; size = v.size + 1 }, rw (room, run), p)

  -- `emplace_back`, and `push_back` of a value from elsewhere: the values grow by one at the end,
  -- whether or not the vector has room, if the byte count of twice the capacity is at most `2 ^ 63`.
  pub emplace_back_lem :
      (v : Vector A) (xs : List A) (a : A)
      → Repr v xs
      → value_size ≤ 2 ^ 63
      → value_size * (capacity v * 2) ≤ 2 ^ 63
      → Returns (emplace_back value_size v a) λ r. Repr r (xs ++ a ∷ [])
  unfolding emplace_back
  emplace_back_lem v xs a rep one twice =
      Returns-bind (ensure_capacity_for_one_more_lem v xs rep one twice) λ grown (p, more).
        let (cells, run, q) = construct_end grown xs a p more in
        (record { data_cells = cells; size = grown.size + 1 }, rw run, q.0)

  pub append_values_lem :
      (values : List A) (v : Vector A) (xs : List A)
      → Repr v xs
      → length xs + length values ≤ capacity v
      → Returns (append_values value_size values v) λ r. Repr r (xs ++ values)
  unfolding append_values
  append_values_lem [] v xs rep room = (v, refl, rw append-nil rep)
  append_values_lem (a ∷ values) v xs rep room =
      Returns-bind (emplace_back-room v xs a rep (omega arith)) λ r (p, same).
        let (end, run, q) =
          append_values_lem values r (xs ++ a ∷ []) p (omega (arith, length-append xs (a ∷ []))) in
        (end, run, subst (Repr end) (append_assoc xs (a ∷ []) values) q)

  -- The constructors from a sequence: the vector has the sequence's values, in its order, if their
  -- byte count is at most `2 ^ 63`.
  pub from_list_lem :
      (init : List A)
      → value_size * length init ≤ 2 ^ 63
      → Returns (from_list value_size init) λ r. Repr r init
  unfolding from_list
  from_list_lem init small =
      Returns-bind (reserve_lem new_vector [] (length init) new_vector-Repr small)
        λ r (p, q). append_values_lem init r [] p (omega arith)
