-- ===== src/RingQueue/Window.antt =====
-- The values in the slots of a ring from an index on, and writes inside and outside them.
use native.Mathlib.Nat.{mod-eq_of_lt, mod-eq-sub-mod, mod-add-mod, add-zero}
use native.Mathlib.Decide.{dec_lt}
use bhcpp_hptool_kit.Base.{
  ℕ, zero, suc, ◌+◌, ◌-◌, ◌%◌, ◌≤◌, ◌<◌, ◌≡◌, ◌≢◌, ◌⊎◌, inl, inr, sym, ◌∙◌, ap, arith, List, [],
  ◌∷◌, ◌++◌, some, get_elem?, set, length, length-set, get_elem?-set_self, get_elem?-set_ne,
}
use bhcpp_hptool_kit.RingQueue.{Slot, holds}

-- One turn round the ring at most.
pub wrap_cases :
    {n : ℕ} (h a : ℕ)
    → h < n
    → a ≤ n
    → ((h + a < n) × ((h + a) % n ≡ h + a)) ⊎ ((n ≤ h + a) × ((h + a) % n ≡ h + a - n))
wrap_cases {n} h a hh ha = elim (dec_lt (h + a) n) [
  | yes p ↦ inl (p, mod-eq_of_lt p)
  | no p ↦ inr (
    omega arith,
    omega (
      arith,
      mod-eq-sub-mod {n = h + a} {m = n} (omega arith),
      mod-eq_of_lt {n = h + a - n} {m = n} (omega arith),
    ),
  )
]

pub offset_zero : {n : ℕ} (h : ℕ) → h < n → (h + 0) % n ≡ h
offset_zero {n} h hh = rw add-zero (mod-eq_of_lt hh)

pub offset-lt : {n : ℕ} (h a : ℕ) → h < n → (h + a) % n < n
offset-lt h a hh = omega arith

-- Offsets below the size of the ring name different slots.
pub offset-ne : {n : ℕ} (h a b : ℕ) → h < n → a < b → b < n → (h + a) % n ≢ (h + b) % n
offset-ne h a b hh hab hb =
    omega (arith, wrap_cases h a hh (omega arith), wrap_cases h b hh (omega arith))

pub offset_shift : (h m n : ℕ) → ((h + 1) % n + m) % n ≡ (h + suc m) % n
offset_shift h m n = rw mod-add-mod (ap (λ k. k % n) (omega arith))

module _ {ℓ} {A : Type ℓ} where
  -- From index `i` on, round the ring, the slots hold `xs`.
  abbrev pub Window : List (Slot A) → ℕ → List A → Type ℓ
  Window buffer i [] = Unit
  Window buffer i (x ∷ xs) =
      (get_elem? buffer i ≡ some (holds x)) × Window buffer ((i + 1) % length buffer) xs

  -- A write to a slot outside the window leaves it.
  pub Window-set :
      (buffer : List (Slot A)) (i k : ℕ) (s : Slot A) (xs : List A)
      → i < length buffer
      → ((m : ℕ) → m < length xs → (i + m) % length buffer ≢ k)
      → Window buffer i xs
      → Window (set buffer k s) i xs
  Window-set buffer i k s [] hi apart w = tt
  Window-set buffer i k s (x ∷ xs) hi apart w =
      let here : i ≢ k = λ e. apart 0 (omega arith) (offset_zero i hi ∙ e) in
      (
        get_elem?-set_ne buffer s (λ e. here (sym e)) ∙ w.0,
        rw length-set (
            Window-set buffer ((i + 1) % length buffer) k s xs (omega arith)
              (λ m h e. apart (suc m) (omega arith) (sym (offset_shift i m (length buffer)) ∙ e))
              w.1),
      )

  -- One more value after the window.
  pub Window-append :
      (buffer : List (Slot A)) (i : ℕ) (xs : List A) (x : A)
      → i < length buffer
      → get_elem? buffer ((i + length xs) % length buffer) ≡ some (holds x)
      → Window buffer i xs
      → Window buffer i (xs ++ x ∷ [])
  Window-append buffer i [] x hi e w =
      let here : (i + 0) % length buffer ≡ i = offset_zero i hi in (rw here at e, tt)
  Window-append buffer i (y ∷ xs) x hi e w = (
    w.0,
    Window-append buffer ((i + 1) % length buffer) xs x (omega arith)
        (rw (offset_shift i (length xs) (length buffer)) e) w.1,
  )

  -- Every value of the window stands in its slot.
  pub Window-get :
      (buffer : List (Slot A)) (i : ℕ) (xs : List A) (m : ℕ) (x : A)
      → i < length buffer
      → Window buffer i xs
      → get_elem? xs m ≡ some x
      → get_elem? buffer ((i + m) % length buffer) ≡ some (holds x)
  Window-get buffer i [] m x hi w e = cc
  Window-get buffer i (y ∷ xs) zero x hi w e =
      let here : (i + 0) % length buffer ≡ i = offset_zero i hi in rw here (cc (w.0))
  Window-get buffer i (y ∷ xs) (suc m) x hi w e =
      rw (← offset_shift i m (length buffer))
        (Window-get buffer ((i + 1) % length buffer) xs m x (omega arith) w.1 e)

  -- Writing the first slot leaves the rest of the window.
  pub Window-set_first :
      (buffer : List (Slot A)) (k : ℕ) (s : Slot A) (xs : List A)
      → k < length buffer
      → length xs < length buffer
      → Window buffer ((k + 1) % length buffer) xs
      → Window (set buffer k s) ((k + 1) % length buffer) xs
  Window-set_first buffer k s xs hk room w =
      Window-set buffer ((k + 1) % length buffer) k s xs (omega arith)
        (λ m h e.
          offset-ne k 0 (suc m) hk (omega arith) (omega arith)
            (offset_zero k hk ∙ sym e ∙ offset_shift k m (length buffer)))
        w

  -- Writing a value just past a window that leaves room extends it.
  pub Window-set_next :
      (buffer : List (Slot A)) (h k : ℕ) (xs : List A) (x : A)
      → h < length buffer
      → length xs < length buffer
      → k ≡ (h + length xs) % length buffer
      → Window buffer h xs
      → Window (set buffer k (holds x)) h (xs ++ x ∷ [])
  Window-set_next buffer h k xs x hh room e w =
      Window-append (set buffer k (holds x)) h xs x (rw length-set hh)
        (rw (length-set, ← e)
          (get_elem?-set_self buffer k (holds x) (rw e (offset-lt h (length xs) hh))))
        (Window-set buffer h k (holds x) xs hh
          (λ m lt q. offset-ne h m (length xs) hh lt room (q ∙ e)) w)
