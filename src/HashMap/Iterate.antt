-- ===== src/HashMap/Iterate.antt =====
-- Iteration over PooledHashMap: the iterators stop at every occupied entry, in order.
use bhcpp_hptool_kit.Base.{
  ℕ, zero, suc, ◌+◌, ◌-◌, ◌≤◌, ◌<◌, ◌≡◌, ◌⊎◌, inl, inr, refl, sym, ◌∙◌, ap, arith, List, [], ◌∷◌,
  get_elem?, length, drop, length-drop,
}
use bhcpp_hptool_kit.HashMap.{
  Entry, empty, erased, occupied, HashMap, bucket_count, skip_to_occupied, begin, advance,
}
use bhcpp_hptool_kit.HashMap.Table.{At}

module _ {ℓ} {K V : Type ℓ} where
  -- The entry at `i` is occupied.
  abbrev pub Live : List (Entry K V) → ℕ → Type ℓ
  Live entries i = (h : ℕ) × (k : K) × (v : V) × At entries i (occupied h k v)

  -- `j` is the first occupied index from `i` on, or the end of the table.
  abbrev pub NextLive : List (Entry K V) → ℕ → ℕ → Type ℓ
  NextLive entries i j =
      (i ≤ j)
      × ((x : ℕ) → i ≤ x → x < j → ¬ Live entries x)
      × ((j ≡ length entries) ⊎ Live entries j)

  skip_one :
      (e : Entry K V) (entries : List (Entry K V)) (d : ℕ)
      → ¬ Live (e ∷ entries) 0
      → ((x : ℕ) → x < d → ¬ Live entries x)
      → (x : ℕ) → x < suc d
      → ¬ Live (e ∷ entries) x
  skip_one e entries d dead before zero below = dead
  skip_one e entries d dead before (suc x) below = before x (omega arith)

  skip_from :
      (entries : List (Entry K V)) (i : ℕ)
      → (d : ℕ) × (skip_to_occupied entries i ≡ i + d)
        × ((x : ℕ) → x < d → ¬ Live entries x)
        × ((d ≡ length entries) ⊎ Live entries d)
  unfolding skip_to_occupied
  skip_from [] i = (0, omega arith, λ x p. absurd (omega arith), inl refl)
  skip_from (occupied h k v ∷ entries) i =
      (0, omega arith, λ x p. absurd (omega arith), inr (h, k, v, refl))
  skip_from (empty ∷ entries) i =
      let (d, e, before, ends) = skip_from entries (i + 1) in
      (
        suc d,
        omega arith,
        skip_one empty entries d (λ (h, k, v, at). cc at) before,
        elim ends [ inl past ↦ inl (ap suc past) | inr live ↦ inr live ],
      )
  skip_from (erased ∷ entries) i =
      let (d, e, before, ends) = skip_from entries (i + 1) in
      (
        suc d,
        omega arith,
        skip_one erased entries d (λ (h, k, v, at). cc at) before,
        elim ends [ inl past ↦ inl (ap suc past) | inr live ↦ inr live ],
      )

  get_elem?-drop :
      (entries : List (Entry K V)) (n x : ℕ)
      → get_elem? (drop n entries) x ≡ get_elem? entries (n + x)
  get_elem?-drop entries zero x = ap (get_elem? entries) (omega arith)
  get_elem?-drop [] (suc n) x = refl
  get_elem?-drop (e ∷ entries) (suc n) x =
      let shift : suc n + x ≡ suc (n + x) = omega arith in rw shift (get_elem?-drop entries n x)

  -- `begin` is the first occupied index.
  pub begin_lem : (m : HashMap K V) → NextLive m.entries 0 (begin m)
  unfolding begin
  begin_lem m =
      let (d, e, before, ends) = skip_from m.entries 0 in
      let same : skip_to_occupied m.entries 0 ≡ d = omega arith in
      rw same (omega arith, λ x p q. before x q, ends)

  -- `++` on an iterator inside the table goes to the next occupied index, or to the end.
  pub advance_lem :
      (m : HashMap K V) (i : ℕ) → i < bucket_count m → NextLive m.entries (i + 1) (advance m i)
  unfolding advance
  advance_lem m i lt =
      let others = drop (i + 1) m.entries in
      let (d, e, before, ends) = skip_from others (i + 1) in
      let len = length-drop (i + 1) m.entries in
      rw e (
        omega arith,
        λ x p q (h, k, v, at).
            let here : i + 1 + (x - (i + 1)) ≡ x = omega arith in
            before (x - (i + 1)) (omega arith) (
              h,
              k,
              v,
              get_elem?-drop m.entries (i + 1) (x - (i + 1)) ∙ (ap (get_elem? m.entries) here ∙ at),
            ),
        elim ends [
          | inl past ↦ inl (omega arith)
          | inr (h, k, v, at) ↦ inr (h, k, v, sym (get_elem?-drop m.entries (i + 1) d) ∙ at)
        ],
      )
