-- ===== src/Base/Edit.antt =====
-- Insertion into a list and removal from it, by position.
use bhcpp_hptool_kit.Base.{
  ℕ, zero, suc, ◌≤◌, ◌<◌, ◌≡◌, refl, ap, arith, List, [], ◌∷◌, ◌++◌, some, get_elem?, length, take,
}

module _ {ℓ} {A : Type ℓ} where
  unfoldable pub insert_at : ℕ → A → List A → List A
  insert_at zero a xs = a ∷ xs
  insert_at (suc i) a [] = a ∷ []
  insert_at (suc i) a (x ∷ xs) = x ∷ insert_at i a xs

  unfoldable pub remove_at : ℕ → List A → List A
  remove_at i [] = []
  remove_at zero (x ∷ xs) = xs
  remove_at (suc i) (x ∷ xs) = x ∷ remove_at i xs

  pub length-insert_at : (i : ℕ) (a : A) (xs : List A) → length (insert_at i a xs) ≡ suc (length xs)
  unfolding insert_at
  length-insert_at zero a xs = refl
  length-insert_at (suc i) a [] = refl
  length-insert_at (suc i) a (x ∷ xs) = ap suc (length-insert_at i a xs)

  pub length-remove_at :
      (i : ℕ) (xs : List A) → i < length xs → suc (length (remove_at i xs)) ≡ length xs
  unfolding remove_at
  length-remove_at i [] h = absurd (omega arith)
  length-remove_at zero (x ∷ xs) h = refl
  length-remove_at (suc i) (x ∷ xs) h = ap suc (length-remove_at i xs (omega arith))

  pub get_elem?-insert_before :
      (i : ℕ) (a : A) (xs : List A) (j : ℕ)
      → i ≤ length xs
      → j < i
      → get_elem? (insert_at i a xs) j ≡ get_elem? xs j
  unfolding insert_at
  get_elem?-insert_before zero a xs j h lt = absurd (omega arith)
  get_elem?-insert_before (suc i) a [] j h lt = absurd (omega arith)
  get_elem?-insert_before (suc i) a (x ∷ xs) zero h lt = refl
  get_elem?-insert_before (suc i) a (x ∷ xs) (suc j) h lt =
      get_elem?-insert_before i a xs j (omega arith) (omega arith)

  pub get_elem?-insert_here :
      (i : ℕ) (a : A) (xs : List A) → i ≤ length xs → get_elem? (insert_at i a xs) i ≡ some a
  unfolding insert_at
  get_elem?-insert_here zero a xs h = refl
  get_elem?-insert_here (suc i) a [] h = absurd (omega arith)
  get_elem?-insert_here (suc i) a (x ∷ xs) h = get_elem?-insert_here i a xs (omega arith)

  pub get_elem?-insert_after :
      (i : ℕ) (a : A) (xs : List A) (j : ℕ)
      → i ≤ j
      → i ≤ length xs
      → get_elem? (insert_at i a xs) (suc j) ≡ get_elem? xs j
  unfolding insert_at
  get_elem?-insert_after zero a xs j h le = refl
  get_elem?-insert_after (suc i) a [] j h le = absurd (omega arith)
  get_elem?-insert_after (suc i) a (x ∷ xs) zero h le = absurd (omega arith)
  get_elem?-insert_after (suc i) a (x ∷ xs) (suc j) h le =
      get_elem?-insert_after i a xs j (omega arith) (omega arith)

  pub get_elem?-remove_before :
      (i : ℕ) (xs : List A) (j : ℕ) → j < i → get_elem? (remove_at i xs) j ≡ get_elem? xs j
  unfolding remove_at
  get_elem?-remove_before i [] j lt = refl
  get_elem?-remove_before zero (x ∷ xs) j lt = absurd (omega arith)
  get_elem?-remove_before (suc i) (x ∷ xs) zero lt = refl
  get_elem?-remove_before (suc i) (x ∷ xs) (suc j) lt = get_elem?-remove_before i xs j (omega arith)

  pub get_elem?-remove_after :
      (i : ℕ) (xs : List A) (j : ℕ) → i ≤ j → get_elem? (remove_at i xs) j ≡ get_elem? xs (suc j)
  unfolding remove_at
  get_elem?-remove_after i [] j le = refl
  get_elem?-remove_after zero (x ∷ xs) j le = refl
  get_elem?-remove_after (suc i) (x ∷ xs) zero le = absurd (omega arith)
  get_elem?-remove_after (suc i) (x ∷ xs) (suc j) le = get_elem?-remove_after i xs j (omega arith)

  pub insert_at-end : (a : A) (xs : List A) → insert_at (length xs) a xs ≡ xs ++ a ∷ []
  unfolding insert_at
  insert_at-end a [] = refl
  insert_at-end a (x ∷ xs) = ap (◌∷◌ x) (insert_at-end a xs)

  pub remove_at-past : (i : ℕ) (xs : List A) → length xs ≤ i → remove_at i xs ≡ xs
  unfolding remove_at
  remove_at-past i [] h = refl
  remove_at-past zero (x ∷ xs) h = absurd (omega arith)
  remove_at-past (suc i) (x ∷ xs) h = ap (◌∷◌ x) (remove_at-past i xs (omega arith))

  pub get_elem?-take :
      (n : ℕ) (xs : List A) (j : ℕ) → j < n → get_elem? (take n xs) j ≡ get_elem? xs j
  get_elem?-take zero xs j h = absurd (omega arith)
  get_elem?-take (suc n) [] j h = refl
  get_elem?-take (suc n) (x ∷ xs) zero h = refl
  get_elem?-take (suc n) (x ∷ xs) (suc j) h = get_elem?-take n xs j (omega arith)
