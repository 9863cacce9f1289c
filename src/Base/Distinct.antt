-- ===== src/Base/Distinct.antt =====
-- Membership in a list, and lists without repetition.
use bhcpp_hptool_kit.Base.{◌≡◌, ◌↔◌, sym, List, [], ◌∷◌, ◌++◌, map, ap}

module _ {ℓ} {A : Type ℓ} where
  pub data In (a : A) : List A → Type ℓ where
    here : {x : A} {xs : List A} → a ≡ x → In a (x ∷ xs)
    there : {x : A} {xs : List A} → In a xs → In a (x ∷ xs)

  abbrev pub Distinct : List A → Type ℓ
  Distinct [] = Unit
  Distinct (x ∷ xs) = (¬ In x xs) × Distinct xs

  pub In-left : (a : A) (xs ys : List A) → In a xs → In a (xs ++ ys)
  In-left a [] ys i = elim i [ ]
  In-left a (x ∷ xs) ys (here e) = here e
  In-left a (x ∷ xs) ys (there i) = there (In-left a xs ys i)

  pub In-right : (a : A) (xs ys : List A) → In a ys → In a (xs ++ ys)
  In-right a [] ys i = i
  In-right a (x ∷ xs) ys i = there (In-right a xs ys i)

  -- An element may stand before or between two lists.
  pub In-middle : (a x : A) (xs ys : List A) → In a (x ∷ xs ++ ys) ↔ In a (xs ++ x ∷ ys)
  In-middle a x [] ys = (λ i. i, λ i. i)
  In-middle a x (y ∷ xs) ys = (
    λ i. elim i [
      | here e ↦ there ((In-middle a x xs ys).0 (here e))
      | there (here e) ↦ here e
      | there (there j) ↦ there ((In-middle a x xs ys).0 (there j))
    ],
    λ i. elim i [
      | here e ↦ there (here e)
      | there j ↦ elim ((In-middle a x xs ys).1 j) [ here e ↦ here e | there k ↦ there (there k) ]
    ],
  )

  pub Distinct-middle : (x : A) (xs ys : List A) → Distinct (x ∷ xs ++ ys) → Distinct (xs ++ x ∷ ys)
  Distinct-middle x [] ys d = d
  Distinct-middle x (y ∷ xs) ys (out, (fresh, d)) = (
    λ i. elim ((In-middle y x xs ys).1 i) [ here e ↦ out (here (sym e)) | there j ↦ fresh j ],
    Distinct-middle x xs ys (λ i. out (there i), d),
  )

  pub Distinct-front : (x : A) (xs ys : List A) → Distinct (xs ++ x ∷ ys) → Distinct (x ∷ xs ++ ys)
  Distinct-front x [] ys d = d
  Distinct-front x (y ∷ xs) ys (fresh, d) =
      let (out, rest) = Distinct-front x xs ys d in
      (
        λ i. elim i [ here e ↦ fresh ((In-middle y x xs ys).0 (here (sym e))) | there j ↦ out j ],
        (λ i. fresh ((In-middle y x xs ys).0 (there i)), rest),
      )

module _ {ℓ κ} {A : Type ℓ} {B : Type κ} where
  pub In-map : (f : A → B) (a : A) (xs : List A) → In a xs → In (f a) (map f xs)
  In-map f a [] i = elim i [ ]
  In-map f a (x ∷ xs) (here e) = here (ap f e)
  In-map f a (x ∷ xs) (there i) = there (In-map f a xs i)
