-- ===== src/Vector/Cells.antt =====
-- What the loops over the cells of PooledVector do, index by index.
use native.Mathlib.Decide.{ℕ_discrete}
use bhcpp_hptool_kit.Base.{
  ℕ, zero, suc, ◌+◌, ◌≤◌, ◌<◌, ◌≡◌, ◌≢◌, ◌⊎◌, inl, inr, refl, sym, ◌∙◌, ap, arith, List, [], ◌∷◌,
  some, get_elem?, set, length, length-set, get_elem?-set_self, get_elem?-set_ne, get_elem?_of_lt,
}
use bhcpp_hptool_kit.Base.Run.{ok, Returns}
use bhcpp_hptool_kit.Vector.{
  Cell, raw, holds, read_cell, construct, assign_cell, destroy_cell, destroy_elements,
  move_elements, shift_up, shift_down,
}

module _ {ℓ} {A : Type ℓ} where
  abbrev pub At : List (Cell A) → ℕ → Cell A → Type ℓ
  At cells i c = get_elem? cells i ≡ some c

  abbrev pub Full : List (Cell A) → ℕ → Type ℓ
  Full cells i = (a : A) × At cells i (holds a)

  pub read_cell-At :
      (cells : List (Cell A)) (i : ℕ) (a : A) → At cells i (holds a) → read_cell cells i ≡ ok a
  unfolding read_cell
  read_cell-At cells i a at = rw (at, read_cell)

  pub construct-ok :
      (cells : List (Cell A)) (i : ℕ) (a : A)
      → i < length cells
      → construct cells i a ≡ ok (set cells i (holds a))
  unfolding construct
  construct-ok cells i a lt = let (c, at) = get_elem?_of_lt cells i lt in rw (at, construct)

  pub assign_cell-ok :
      (cells : List (Cell A)) (i : ℕ) (a : A)
      → Full cells i
      → assign_cell cells i a ≡ ok (set cells i (holds a))
  unfolding assign_cell
  assign_cell-ok cells i a (b, at) = rw (at, assign_cell)

  pub destroy_cell-ok :
      (cells : List (Cell A)) (i : ℕ) → Full cells i → destroy_cell cells i ≡ ok (set cells i raw)
  unfolding destroy_cell
  destroy_cell-ok cells i (b, at) = rw (at, destroy_cell)

  pub Full-lt : (cells : List (Cell A)) (i : ℕ) → Full cells i → i < length cells
  Full-lt [] i (a, at) = cc at
  Full-lt (c ∷ cells) zero (a, at) = omega arith
  Full-lt (c ∷ cells) (suc i) (a, at) = omega (arith, Full-lt cells i (a, at))

  pub Full-set :
      (cells : List (Cell A)) (i : ℕ) (c : Cell A) (j : ℕ)
      → i ≢ j
      → Full cells j
      → Full (set cells i c) j
  Full-set cells i c j apart (a, at) = (a, get_elem?-set_ne cells c apart ∙ at)

  pub move_elements_lem :
      (count i : ℕ) (old new : List (Cell A))
      → ((j : ℕ) → i ≤ j → j < i + count → Full old j)
      → i + count ≤ length new
      → Returns (move_elements count i old new) λ r.
        (length r ≡ length new)
        × ((j : ℕ) → i ≤ j → j < i + count → get_elem? r j ≡ get_elem? old j)
        × ((j : ℕ) → (j < i) ⊎ (i + count ≤ j) → get_elem? r j ≡ get_elem? new j)
  unfolding move_elements
  move_elements_lem zero i old new full room =
      (new, refl, (refl, λ j p q. absurd (omega arith), λ j p. refl))
  move_elements_lem (suc count) i old new full room =
      let (a, at) = full i (omega arith) (omega arith) in
      let next = set new i (holds a) in
      let len = length-set new i (holds a) in
      let (r, run, (same, inside, outside)) =
        move_elements_lem count (i + 1) old next (λ j p q. full j (omega arith) (omega arith))
          (omega (arith, len)) in
      (
        r,
        rw (read_cell-At old i a at, construct-ok new i a (omega arith)) run,
        (
          same ∙ len,
          λ j p q. elim (ℕ_discrete i j) [
            | yes e ↦
                outside j (inl (omega arith))
                ∙ (ap (get_elem? next) (sym e)
                    ∙ (get_elem?-set_self new i (holds a) (omega arith)
                        ∙ (sym at ∙ ap (get_elem? old) e)))
            | no e ↦ inside j (omega arith) (omega arith)
          ],
          λ j p. outside j (omega arith) ∙ get_elem?-set_ne new (holds a) (omega arith),
        ),
      )

  pub destroy_elements_lem :
      (count i : ℕ) (cells : List (Cell A))
      → ((j : ℕ) → i ≤ j → j < i + count → Full cells j)
      → Returns (destroy_elements count i cells) λ r.
        (length r ≡ length cells)
        × ((j : ℕ) → i ≤ j → j < i + count → At r j raw)
        × ((j : ℕ) → (j < i) ⊎ (i + count ≤ j) → get_elem? r j ≡ get_elem? cells j)
  unfolding destroy_elements
  destroy_elements_lem zero i cells full =
      (cells, refl, (refl, λ j p q. absurd (omega arith), λ j p. refl))
  destroy_elements_lem (suc count) i cells full =
      let here = full i (omega arith) (omega arith) in
      let lt = Full-lt cells i here in
      let next = set cells i raw in
      let (r, run, (same, inside, outside)) =
        destroy_elements_lem count (i + 1) next
          (λ j p q. Full-set cells i raw j (omega arith) (full j (omega arith) (omega arith))) in
      (
        r,
        rw (destroy_cell-ok cells i here) run,
        (
          same ∙ length-set cells i raw,
          λ j p q. elim (ℕ_discrete i j) [
            | yes e ↦
                outside j (inl (omega arith))
                ∙ (ap (get_elem? next) (sym e) ∙ get_elem?-set_self cells i raw lt)
            | no e ↦ inside j (omega arith) (omega arith)
          ],
          λ j p. outside j (omega arith) ∙ get_elem?-set_ne cells raw (omega arith),
        ),
      )

  pub shift_up_lem :
      (count index : ℕ) (cells : List (Cell A))
      → ((j : ℕ) → index ≤ j → j ≤ index + count → Full cells j)
      → Returns (shift_up count index cells) λ r.
        (length r ≡ length cells)
        × ((j : ℕ) → index ≤ j → j < index + count → get_elem? r (suc j) ≡ get_elem? cells j)
        × ((j : ℕ) → (j ≤ index) ⊎ (index + count < j) → get_elem? r j ≡ get_elem? cells j)
  unfolding shift_up
  shift_up_lem zero index cells full =
      (cells, refl, (refl, λ j p q. absurd (omega arith), λ j p. refl))
  shift_up_lem (suc count) index cells full =
      let (a, at) = full (index + count) (omega arith) (omega arith) in
      let top = full (index + suc count) (omega arith) (omega arith) in
      let i = index + suc count in
      let next = set cells i (holds a) in
      let (r, run, (same, inside, outside)) =
        shift_up_lem count index next
          (λ j p q. Full-set cells i (holds a) j (omega arith) (full j p (omega arith))) in
      (
        r,
        rw (read_cell-At cells (index + count) a at, assign_cell-ok cells i a top) run,
        (
          same ∙ length-set cells i (holds a),
          λ j p q. elim (ℕ_discrete (index + count) j) [
            | yes e ↦
                let up : suc j ≡ i = omega arith in
                outside (suc j) (inr (omega arith))
                ∙ (ap (get_elem? next) up
                    ∙ (get_elem?-set_self cells i (holds a) (Full-lt cells i top)
                        ∙ (sym at ∙ ap (get_elem? cells) e)))
            | no e ↦ inside j p (omega arith) ∙ get_elem?-set_ne cells (holds a) (omega arith)
          ],
          λ j p. outside j (omega arith) ∙ get_elem?-set_ne cells (holds a) (omega arith),
        ),
      )

  pub shift_down_lem :
      (count i : ℕ) (cells : List (Cell A))
      → ((j : ℕ) → i < j → j ≤ i + count → Full cells j)
      → At cells i raw
      → Returns (shift_down count i cells) λ r.
        (length r ≡ length cells)
        × ((j : ℕ) → i ≤ j → j < i + count → get_elem? r j ≡ get_elem? cells (suc j))
        × At r (i + count) raw
        × ((j : ℕ) → (j < i) ⊎ (i + count < j) → get_elem? r j ≡ get_elem? cells j)
  unfolding shift_down
  shift_down_lem zero i cells full hole = (
    cells,
    refl,
    (refl, λ j p q. absurd (omega arith), ap (get_elem? cells) (omega arith) ∙ hole, λ j p. refl),
  )
  shift_down_lem (suc count) i cells full hole =
      let (a, at) = full (i + 1) (omega arith) (omega arith) in
      let lt = Full-lt cells (i + 1) (a, at) in
      let moved = set cells i (holds a) in
      let apart : i ≢ i + 1 = omega arith in
      let full_next : Full moved (i + 1) = Full-set cells i (holds a) (i + 1) apart (a, at) in
      let next = set moved (i + 1) raw in
      let len = length-set cells i (holds a) in
      let hole_next : At next (i + 1) raw = get_elem?-set_self moved (i + 1) raw (rw len lt) in
      let others : (j : ℕ) → i ≢ j → i + 1 ≢ j → get_elem? next j ≡ get_elem? cells j =
        λ j p q. get_elem?-set_ne moved raw q ∙ get_elem?-set_ne cells (holds a) p in
      let (r, run, (same, inside, end, outside)) =
        shift_down_lem count (i + 1) next
          (λ j p q.
            Full-set moved (i + 1) raw j (omega arith)
              (Full-set cells i (holds a) j (omega arith) (full j (omega arith) (omega arith))))
          hole_next in
      let here : get_elem? moved i ≡ some (holds a) =
        get_elem?-set_self cells i (holds a) (omega arith) in
      (
        r,
        rw
            (
              read_cell-At cells (i + 1) a at,
              construct-ok cells i a (omega arith),
              destroy_cell-ok moved (i + 1) full_next,
            )
            run,
        (
          same ∙ (length-set moved (i + 1) raw ∙ len),
          λ j p q. elim (ℕ_discrete i j) [
            | yes e ↦
                let up : i + 1 ≡ suc j = omega arith in
                outside j (inl (omega arith))
                ∙ (ap (get_elem? next) (sym e)
                    ∙ (get_elem?-set_ne moved raw (omega arith)
                        ∙ (here ∙ (sym at ∙ ap (get_elem? cells) up))))
            | no e ↦
                inside j (omega arith) (omega arith) ∙ others (suc j) (omega arith) (omega arith)
          ],
          ap (get_elem? r) (omega arith) ∙ end,
          λ j p. outside j (omega arith) ∙ others j (omega arith) (omega arith),
        ),
      )
