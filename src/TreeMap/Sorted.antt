-- ===== src/TreeMap/Sorted.antt =====
-- PooledMap.hpp: the map as a sorted list of its nodes.
use mathlib.Core.Path.{◌≡◌}
use bhcpp_hptool_kit.Base.{
  ◌⊎◌, ◌∙◌, ap, refl, sym, inl, inr, Bool, true, false, List, [], ◌∷◌, ◌++◌, Option, none, some,
  if◌then◌else◌, Bool-cases, suc, length,
}
use bhcpp_hptool_kit.TreeMap.Shape.{Item}

-- What the map needs of the keys: `==` is equality, and `<` a strict total order.
pub record KeyOrder {ℓ} {K : Type ℓ} (equal less : K → K → Bool) : Type ℓ where
  pub equal_refl : (a : K) → equal a a ≡ true
  pub equal_eq : (a b : K) → equal a b ≡ true → a ≡ b
  pub less_irrefl : (a : K) → less a a ≡ false
  pub less_trans : (a b c : K) → less a b ≡ true → less b c ≡ true → less a c ≡ true
  pub less_total : (a b : K) → equal a b ≡ false → less a b ≡ false → less b a ≡ true

abbrev pub Each {ℓ κ} : {A : Type ℓ} → (A → Type κ) → List A → Type κ
Each P [] = Unit
Each P (x ∷ xs) = P x × Each P xs

module _ {ℓ κ} {A : Type ℓ} where
  pub append-Each : (P : A → Type κ) (xs ys : List A) → Each P (xs ++ ys) → Each P xs × Each P ys
  append-Each P [] ys e = (tt, e)
  append-Each P (x ∷ xs) ys (p, e) = let (a, b) = append-Each P xs ys e in ((p, a), b)

  pub Each-mono {μ} :
      {P : A → Type κ} {Q : A → Type μ} (xs : List A)
      → ((x : A) → P x → Q x)
      → Each P xs
      → Each Q xs
  Each-mono [] f e = tt
  Each-mono (x ∷ xs) f (p, e) = (f x p, Each-mono xs f e)

module _ {ℓ} {K : Type ℓ} (equal less : K → K → Bool) (order : KeyOrder equal less) where
  pub less_distinct : (a b : K) → less a b ≡ true → equal a b ≡ false
  less_distinct a b l = elim (Bool-cases (equal a b)) [
    | inl e ↦ cc (l, order.less_irrefl b, ap (λ x. less x b) (order.equal_eq a b e))
    | inr e ↦ e
  ]

  pub more_distinct : (a b : K) → less b a ≡ true → equal a b ≡ false
  more_distinct a b l = elim (Bool-cases (equal a b)) [
    | inl e ↦ cc (l, order.less_irrefl b, ap (λ x. less b x) (order.equal_eq a b e))
    | inr e ↦ e
  ]

  pub less_asym : (a b : K) → less b a ≡ true → less a b ≡ false
  less_asym a b l = elim (Bool-cases (less a b)) [
    | inl e ↦ cc (order.less_trans a b a e l, order.less_irrefl a)
    | inr e ↦ e
  ]

module _ {ℓ κ} {K : Type ℓ} {V : Type κ} (equal less : K → K → Bool) where
  -- The keys are in ascending order.
  abbrev pub Sorted : List (Item K V) → Type 0
  Sorted [] = Unit
  Sorted (i ∷ items) = Each (λ j. less i.key j.key ≡ true) items × Sorted items

  -- No node has the key.
  abbrev pub Absent : K → List (Item K V) → Type 0
  Absent key items = Each (λ j. equal key j.key ≡ false) items

  -- The node with the key.
  abbrev pub lookup : K → List (Item K V) → Option (Item K V)
  lookup key [] = none
  lookup key (i ∷ items) = if equal key i.key then some i else lookup key items

  -- The insertion of a node whose key is new.
  abbrev pub insert_item : Item K V → List (Item K V) → List (Item K V)
  insert_item x [] = x ∷ []
  insert_item x (i ∷ items) = if less x.key i.key then x ∷ i ∷ items else i ∷ insert_item x items

  pub Sorted-split :
      (xs : List (Item K V)) (y : Item K V) (ys : List (Item K V))
      → Sorted (xs ++ y ∷ ys)
      → Sorted xs
        × Each (λ x. less x.key y.key ≡ true) xs
        × Each (λ x. less y.key x.key ≡ true) ys
        × Sorted ys
  Sorted-split [] y ys (a, s) = (tt, tt, a, s)
  Sorted-split (x ∷ xs) y ys (a, s) =
      let (s1, b, c, s2) = Sorted-split xs y ys s in
      let (d, e) = append-Each (λ j. less x.key j.key ≡ true) xs (y ∷ ys) a in
      ((d, s1), (e.0, b), c, s2)

  pub lookup-left :
      (key : K) (xs ys : List (Item K V)) → Absent key ys → lookup key (xs ++ ys) ≡ lookup key xs
  lookup-left key [] [] a = refl
  lookup-left key [] (y ∷ ys) (e, a) = rw e (lookup-left key [] ys a)
  lookup-left key (x ∷ xs) ys a =
      ap (λ r. if equal key x.key then some x else r) (lookup-left key xs ys a)

  pub lookup-right :
      (key : K) (xs ys : List (Item K V)) → Absent key xs → lookup key (xs ++ ys) ≡ lookup key ys
  lookup-right key [] ys a = refl
  lookup-right key (x ∷ xs) ys (e, a) = rw e (lookup-right key xs ys a)

  pub insert_item-left :
      (x y : Item K V) (xs ys : List (Item K V))
      → less x.key y.key ≡ true
      → insert_item x (xs ++ y ∷ ys) ≡ insert_item x xs ++ y ∷ ys
  insert_item-left x y [] ys l = rw l refl
  insert_item-left x y (z ∷ xs) ys l = elim (Bool-cases (less x.key z.key)) [
    | inl e ↦ rw e refl
    | inr e ↦ rw e (ap (λ r. z ∷ r) (insert_item-left x y xs ys l))
  ]

  pub insert_item-right :
      (x : Item K V) (xs ys : List (Item K V))
      → Each (λ j. less x.key j.key ≡ false) xs
      → insert_item x (xs ++ ys) ≡ xs ++ insert_item x ys
  insert_item-right x [] ys a = refl
  insert_item-right x (z ∷ xs) ys (e, a) = rw e (ap (λ r. z ∷ r) (insert_item-right x xs ys a))

  pub lookup-Absent :
      (key : K) (items : List (Item K V)) → lookup key items ≡ none → Absent key items
  lookup-Absent key [] e = tt
  lookup-Absent key (i ∷ items) e = elim (Bool-cases (equal key i.key)) [
    | inl q ↦ cc (e, ap (λ b. if b then some i else lookup key items) q)
    | inr q ↦
        (q, lookup-Absent key items (sym (ap (λ b. if b then some i else lookup key items) q) ∙ e))
  ]

  module _ (order : KeyOrder equal less) where
    -- The keys on the other side of a node than the key.
    pub Absent-left :
        (key k : K) (items : List (Item K V))
        → less k key ≡ true ⊎ k ≡ key
        → Each (λ x. less x.key k ≡ true) items
        → Absent key items
    Absent-left key k items (inl l) e =
        Each-mono items
          (λ x a. more_distinct equal less order key x.key (order.less_trans x.key k key a l)) e
    Absent-left key k items (inr q) e =
        Each-mono items
          (λ x a. more_distinct equal less order key x.key (ap (λ y. less x.key y) (sym q) ∙ a)) e

    pub Absent-right :
        (key k : K) (items : List (Item K V))
        → less key k ≡ true ⊎ key ≡ k
        → Each (λ x. less k x.key ≡ true) items
        → Absent key items
    Absent-right key k items (inl l) e =
        Each-mono items
          (λ x a. less_distinct equal less order key x.key (order.less_trans key k x.key l a)) e
    Absent-right key k items (inr q) e =
        Each-mono items
          (λ x a. less_distinct equal less order key x.key (ap (λ y. less y x.key) q ∙ a)) e

    pub Each-insert_item {μ} :
        (P : Item K V → Type μ) (x : Item K V) (items : List (Item K V))
        → P x
        → Each P items
        → Each P (insert_item x items)
    Each-insert_item P x [] p e = (p, tt)
    Each-insert_item P x (i ∷ items) p (q, e) = elim (Bool-cases (less x.key i.key)) [
      | inl f ↦ rw f (p, (q, e))
      | inr f ↦ rw f (q, Each-insert_item P x items p e)
    ]

    pub Sorted-insert_item :
        (x : Item K V) (items : List (Item K V))
        → Sorted items
        → Absent x.key items
        → Sorted (insert_item x items)
    Sorted-insert_item x [] sorted absent = (tt, tt)
    Sorted-insert_item x (i ∷ items) (below, sorted) (other, absent) =
        elim (Bool-cases (less x.key i.key)) [
          | inl f ↦ rw f (
            (f, Each-mono items (λ j a. order.less_trans x.key i.key j.key f a) below),
            (below, sorted),
          )
          | inr f ↦ rw f (
            Each-insert_item (λ j. less i.key j.key ≡ true) x items
                (order.less_total x.key i.key other f) below,
            Sorted-insert_item x items sorted absent,
          )
        ]

    pub length-insert_item :
        (x : Item K V) (items : List (Item K V)) → length (insert_item x items) ≡ suc (length items)
    length-insert_item x [] = refl
    length-insert_item x (i ∷ items) = elim (Bool-cases (less x.key i.key)) [
      | inl f ↦ rw f refl
      | inr f ↦ rw f (ap (λ n. suc n) (length-insert_item x items))
    ]
