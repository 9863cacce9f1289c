-- ===== src/Vector/Examples.antt =====
-- PooledVector.hpp on concrete vectors of four-byte elements.
use bhcpp_hptool_kit.Base.{ℕ, zero, suc, ◌<◌, ◌≡◌, refl, arith, [], ◌∷◌, some, get_elem?, min}
use bhcpp_hptool_kit.Base.Run.{Returns}
use bhcpp_hptool_kit.Base.Edit.{insert_at, remove_at}
use bhcpp_hptool_kit.Vector.{Cell, holds, Vector, erase, emplace}
use bhcpp_hptool_kit.Vector.Grow.{cell_of, Repr}
use bhcpp_hptool_kit.Vector.Refine.{erase-Repr}
use bhcpp_hptool_kit.Vector.Emplace.{emplace-Repr}

abbrev two_values : Vector ℕ
two_values = record { data_cells = holds 7 ∷ holds 8 ∷ []; size = 2 }

two_values-Repr : Repr two_values (7 ∷ 8 ∷ [])
two_values-Repr = (refl, omega arith, λ j lt. at_index j lt)
  where
    at_index :
        (j : ℕ)
        → j < 2
        → get_elem? {A = Cell ℕ} (holds 7 ∷ holds 8 ∷ []) j
          ≡ some (cell_of (get_elem? {A = ℕ} (7 ∷ 8 ∷ []) j))
    at_index zero lt = refl
    at_index (suc zero) lt = refl
    at_index (suc (suc j)) lt = absurd (omega arith)

emplace-Repr_example :
    Returns (emplace 4 two_values 1 9) λ r. (r.0 ≡ 1) × Repr r.1 (insert_at 1 9 (7 ∷ 8 ∷ []))
emplace-Repr_example =
    emplace-Repr 4 (omega arith) (omega arith) two_values (7 ∷ 8 ∷ []) 1 9 two_values-Repr
      (omega arith) (omega arith)

erase-Repr_example :
    Returns (erase two_values 0) λ r. (r.0 ≡ min 0 2) × Repr r.1 (remove_at 0 (7 ∷ 8 ∷ []))
erase-Repr_example = erase-Repr two_values (7 ∷ 8 ∷ []) 0 two_values-Repr
