-- ===== src/LinkedList/Edit.antt =====
-- PooledList.hpp: `push_back`, `push_front`, `insert`, `insert_list` and `erase` on the list of nodes.
use bhcpp_hptool_kit.Base.{
  ℕ, ◌+◌, ◌≡◌, refl, sym, ◌∙◌, ap, arith, List, [], ◌∷◌, ◌++◌, none, some, drop, length,
  length-append, inl, inr,
}
use bhcpp_hptool_kit.Base.Distinct.{In, here, there, Distinct}
use bhcpp_hptool_kit.Base.Run.{ok, Returns}
use bhcpp_hptool_kit.LinkedList.{
  Link, Heap, Handle, set_next, set_prev, link_next, link_prev, create, append_node, push_back,
  prepend_node, push_front,
}
use bhcpp_hptool_kit.LinkedList.Chain.{
  addresses, first, last, Chain, Chain-frame, Chain-split, Repr,
}
use bhcpp_hptool_kit.LinkedList.Links.{
  write_node_self, write_node_ne, link_next-set_next, Apart, In-append, In-append_left,
  In-append_right, Apart-append, append-Apart, link_lem,
}

module _ {ℓ} {A : Type ℓ} where
  pub first-append :
      (xs ys : List (ℕ × A)) (after : Link) → first (xs ++ ys) after ≡ first xs (first ys after)
  first-append [] ys after = refl
  first-append (x ∷ xs) ys after = refl

  pub last-append :
      (before : Link) (xs ys : List (ℕ × A)) → last before (xs ++ ys) ≡ last (last before xs) ys
  last-append before [] ys = refl
  last-append before (x ∷ xs) ys = last-append (some x.0) xs ys

  pub drop-append : (xs ys : List (ℕ × A)) → drop (length xs) (xs ++ ys) ≡ ys
  drop-append [] ys = refl
  drop-append (x ∷ xs) ys = drop-append xs ys

  -- An address without a node is in no chain.
  pub unused-out :
      (heap : Heap A) (before : Link) (xs : List (ℕ × A)) (after : Link) (a : ℕ)
      → Chain heap before xs after
      → heap a ≡ none
      → ¬ In a (addresses xs)
  unfolding Chain
  unused-out heap before [] after a c e i = elim i [ ]
  unused-out heap before (x ∷ xs) after a (n, c) e (here same) = cc (n, e, same)
  unused-out heap before (x ∷ xs) after a (n, c) e (there i) =
      unused-out heap (some x.0) xs after a c e i

  -- A node just created is a chain of its own, and the others are as they were.
  pub create-Chain :
      (heap : Heap A) (a : ℕ) (v : A) → Chain (create heap a v) none ((a, v) ∷ []) none
  unfolding Chain create
  create-Chain heap a v = (write_node_self heap a _, tt)

  pub create-keeps :
      (heap : Heap A) (a : ℕ) (v : A) (xs : List (ℕ × A)) (before after : Link)
      → ¬ In a (addresses xs)
      → Chain heap before xs after
      → Chain (create heap a v) before xs after
  unfolding create
  create-keeps heap a v xs before after out c =
      Chain-frame heap (create heap a v) before xs after
        (λ b i. write_node_ne heap a _ b (λ same. out (rw same i))) c

  pub one-Apart :
      (xs : List (ℕ × A)) (a : ℕ) (v : A)
      → Distinct (addresses xs)
      → ¬ In a (addresses xs)
      → Apart xs ((a, v) ∷ [])
  one-Apart xs a v d out = (
    d,
    (λ i. elim i [ ], tt),
    λ b i j. elim j [ here e ↦ out (rw (← e) i) | there k ↦ elim k [ ] ],
  )

  pub one_front-Apart :
      (xs : List (ℕ × A)) (a : ℕ) (v : A)
      → Distinct (addresses xs)
      → ¬ In a (addresses xs)
      → Apart ((a, v) ∷ []) xs
  one_front-Apart xs a v d out = (
    (λ i. elim i [ ], tt),
    d,
    λ b j i. elim j [ here e ↦ out (rw (← e) i) | there k ↦ elim k [ ] ],
  )

  -- `push_back` adds a node at the end.
  pub push_back_lem :
      (heap : Heap A) (l : Handle) (xs : List (ℕ × A)) (a : ℕ) (v : A)
      → Repr heap l xs
      → heap a ≡ none
      → Returns (push_back heap l a v) λ r. Repr r.0 r.1 (xs ++ (a, v) ∷ [])
  unfolding push_back append_node link_prev
  push_back_lem heap l [] a v (head, tail, size, d, c) unused =
      let made = create heap a v in
      (
        (made, record { head = some a; tail = some a; size = l.size + 1 }),
        ap (λ h. append_node h made l a) head,
        (refl, refl, omega arith, (λ i. elim i [ ], tt), create-Chain heap a v),
      )
  push_back_lem heap l (x ∷ xs) a v (head, tail, size, d, c) unused =
      let made = create heap a v in
      let out = unused-out heap none (x ∷ xs) none a c unused in
      let apart = one-Apart (x ∷ xs) a v d out in
      let (h1, h2, run1, run2, chain, _) =
        link_lem made (x ∷ xs) ((a, v) ∷ []) none none apart
          (create-keeps heap a v (x ∷ xs) none none out c) (create-Chain heap a v) in
      let run1' : set_next made l.tail (some a) ≡ ok h1 =
        ap (λ t. set_next made t (some a)) tail
        ∙ (sym (link_next-set_next made x.0 xs (some a)) ∙ run1) in
      let run2' : set_prev h1 (some a) l.tail ≡ ok h2 = ap (set_prev h1 (some a)) tail ∙ run2 in
      (
        (h2, record l { tail = some a; size = l.size + 1 }),
        ap (λ h. append_node h made l a) head ∙ rw (run1', run2'),
        (
          head,
          sym (last-append none (x ∷ xs) ((a, v) ∷ [])),
          omega (arith, length-append (x ∷ xs) ((a, v) ∷ [])),
          Apart-append (x ∷ xs) ((a, v) ∷ []) apart,
          chain,
        ),
      )

  pub append_node_lem :
      (heap : Heap A) (l : Handle) (xs : List (ℕ × A)) (a : ℕ) (v : A)
      → Repr heap l xs
      → heap a ≡ none
      → Returns (append_node l.head (create heap a v) l a) λ r. Repr r.0 r.1 (xs ++ (a, v) ∷ [])
  unfolding push_back
  append_node_lem = push_back_lem

  -- `push_front` adds a node in front.
  pub push_front_lem :
      (heap : Heap A) (l : Handle) (xs : List (ℕ × A)) (a : ℕ) (v : A)
      → Repr heap l xs
      → heap a ≡ none
      → Returns (push_front heap l a v) λ r. Repr r.0 r.1 ((a, v) ∷ xs)
  unfolding push_front prepend_node link_next link_prev
  push_front_lem heap l [] a v (head, tail, size, d, c) unused =
      let made = create heap a v in
      (
        (made, record { head = some a; tail = some a; size = l.size + 1 }),
        ap (λ h. prepend_node h made l a) head,
        (refl, refl, omega arith, (λ i. elim i [ ], tt), create-Chain heap a v),
      )
  push_front_lem heap l (x ∷ xs) a v (head, tail, size, d, c) unused =
      let made = create heap a v in
      let out = unused-out heap none (x ∷ xs) none a c unused in
      let apart = one_front-Apart (x ∷ xs) a v d out in
      let (h1, h2, run1, run2, chain, _) =
        link_lem made ((a, v) ∷ []) (x ∷ xs) none none apart (create-Chain heap a v)
          (create-keeps heap a v (x ∷ xs) none none out c) in
      (
        (h2, record l { head = some a; size = l.size + 1 }),
        ap (λ h. prepend_node h made l a) head ∙ rw (run1, run2),
        (refl, tail, omega arith, Apart-append ((a, v) ∷ []) (x ∷ xs) apart, chain),
      )

  -- Three chains become one: the four writes of `insert` and of `insert_list` in the middle.
  pub splice_runs :
      (heap : Heap A) (y : ℕ × A) (ys : List (ℕ × A)) (o : ℕ × A) (os : List (ℕ × A)) (z : ℕ × A)
      (zs : List (ℕ × A))
      → Chain heap none ((y ∷ ys) ++ (z ∷ zs)) none
      → Chain heap none (o ∷ os) none
      → Distinct (addresses ((y ∷ ys) ++ (z ∷ zs)))
      → Distinct (addresses (o ∷ os))
      → ((a : ℕ) → In a (addresses (o ∷ os)) → ¬ In a (addresses ((y ∷ ys) ++ (z ∷ zs))))
      → (h1 : Heap A) × (h2 : Heap A) × (h3 : Heap A) × (h4 : Heap A) × (set_next heap
            (last none (y ∷ ys))
            (some o.0)
          ≡ ok h1)
        × (set_prev h1 (some o.0) (last none (y ∷ ys)) ≡ ok h2)
        × (set_next h2 (last none (o ∷ os)) (some z.0) ≡ ok h3)
        × (set_prev h3 (some z.0) (last none (o ∷ os)) ≡ ok h4)
        × Distinct (addresses ((y ∷ ys) ++ (o ∷ os) ++ (z ∷ zs)))
        × Chain h4 none ((y ∷ ys) ++ (o ∷ os) ++ (z ∷ zs)) none
  unfolding link_prev
  splice_runs heap y ys o os z zs c co d do' out =
      let (cy, cz) = Chain-split heap none (y ∷ ys) (z ∷ zs) none c in
      let (dy, dz, apart) = append-Apart (y ∷ ys) (z ∷ zs) d in
      let both : Apart (y ∷ ys) (o ∷ os) =
        (dy, do', λ a i j. out a j (In-append_left a (y ∷ ys) (z ∷ zs) i)) in
      let (h1, h2, run1, run2, front, keeps) =
        link_lem heap (y ∷ ys) (o ∷ os) (some z.0) none both cy co in
      let three : Apart ((y ∷ ys) ++ (o ∷ os)) (z ∷ zs) = (
        Apart-append (y ∷ ys) (o ∷ os) both,
        dz,
        λ a i j. elim (In-append a (y ∷ ys) (o ∷ os) i) [
          | inl k ↦ apart a k j
          | inr k ↦ out a k (In-append_right a (y ∷ ys) (z ∷ zs) j)
        ],
      ) in
      let cz2 =
        Chain-frame heap h2 (last none (y ∷ ys)) (z ∷ zs) none (λ a j. keeps a (λ i. three.2 a i j))
          cz in
      let end : last none ((y ∷ ys) ++ (o ∷ os)) ≡ last none (o ∷ os) =
        last-append none (y ∷ ys) (o ∷ os) in
      let (h3, h4, run3, run4, all, _) =
        link_lem h2 ((y ∷ ys) ++ (o ∷ os)) (z ∷ zs) none (last none (y ∷ ys)) three front cz2 in
      (
        h1,
        h2,
        h3,
        h4,
        sym (link_next-set_next heap y.0 ys (some o.0)) ∙ run1,
        run2,
        sym (link_next-set_next h2 o.0 os (some z.0))
            ∙ (ap (λ p. link_next h2 p (some z.0)) (sym end) ∙ run3),
        ap (set_prev h3 (some z.0)) (sym end) ∙ run4,
        Apart-append ((y ∷ ys) ++ (o ∷ os)) (z ∷ zs) three,
        all,
      )
