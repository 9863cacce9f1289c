-- ===== src/LinkedList/Links.antt =====
-- PooledList.hpp: what a write to a `next` or `prev` field at the end of a chain does.
use bhcpp_hptool_kit.Base.{
  ℕ, ◌≡◌, ◌≢◌, ◌⊎◌, inl, inr, refl, sym, ◌∙◌, arith, List, [], ◌∷◌, ◌++◌, Option, none, some,
}
use bhcpp_hptool_kit.Base.Distinct.{In, here, there, Distinct}
use bhcpp_hptool_kit.Base.Run.{ok, Returns}
use bhcpp_hptool_kit.LinkedList.{
  Link, Node, Heap, write_node, read_node, set_next, set_prev, link_next, link_prev,
}
use bhcpp_hptool_kit.LinkedList.Chain.{addresses, first, last, Chain, Chain-frame, Chain-join}

module _ {ℓ} {A : Type ℓ} where
  pub write_node_self :
      (heap : Heap A) (a : ℕ) (node : Option (Node A)) → write_node heap a node a ≡ node
  write_node_self heap a slot = ground arith

  pub write_node_ne :
      (heap : Heap A) (a : ℕ) (node : Option (Node A)) (b : ℕ)
      → a ≢ b
      → write_node heap a node b ≡ heap b
  write_node_ne heap a slot b apart = ground arith

  pub read_node-ok :
      (heap : Heap A) (a : ℕ) (node : Node A)
      → heap a ≡ some node
      → read_node heap (some a) ≡ ok node
  unfolding read_node
  read_node-ok heap a node e = rw (e, read_node)

  pub set_next-ok :
      (heap : Heap A) (a : ℕ) (node : Node A) (q : Link)
      → heap a ≡ some node
      → set_next heap (some a) q ≡ ok (write_node heap a (some (record node { next = q })))
  unfolding set_next
  set_next-ok heap a node q e = rw (read_node-ok heap a node e)

  pub set_prev-ok :
      (heap : Heap A) (a : ℕ) (node : Node A) (q : Link)
      → heap a ≡ some node
      → set_prev heap (some a) q ≡ ok (write_node heap a (some (record node { prev = q })))
  unfolding set_prev
  set_prev-ok heap a node q e = rw (read_node-ok heap a node e)

  -- Nodes outside `xs` are as they were.
  abbrev pub Keeps : Heap A → Heap A → List (ℕ × A) → Type ℓ
  Keeps heap heap' xs = (b : ℕ) → ¬ In b (addresses xs) → heap' b ≡ heap b

  -- `last->next = q`
  pub set_next-last :
      (heap : Heap A) (before : Link) (x : ℕ × A) (xs : List (ℕ × A)) (after q : Link)
      → Distinct (addresses (x ∷ xs))
      → Chain heap before (x ∷ xs) after
      → Returns
          (set_next heap (last (some x.0) xs) q)
          λ heap'. Chain heap' before (x ∷ xs) q × Keeps heap heap' (x ∷ xs)
  unfolding Chain
  set_next-last heap before x [] after q d (e, _) =
      let node : Node A = record { value = x.1; prev = before; next = q } in
      let heap' = write_node heap x.0 (some node) in
      (
        heap',
        set_next-ok heap x.0 _ q e,
        (
          (write_node_self heap x.0 (some node), tt),
          λ b out. write_node_ne heap x.0 (some node) b (λ same. out (here (sym same))),
        ),
      )
  set_next-last heap before x (y ∷ xs) after q (fresh, d) (e, c) =
      let (heap', run, (c', keeps)) = set_next-last heap (some x.0) y xs after q d c in
      (heap', run, ((keeps x.0 fresh ∙ e, c'), λ b out. keeps b (λ i. out (there i))))

  -- `first->prev = p`
  pub set_prev-first :
      (heap : Heap A) (before : Link) (x : ℕ × A) (xs : List (ℕ × A)) (after p : Link)
      → Distinct (addresses (x ∷ xs))
      → Chain heap before (x ∷ xs) after
      → Returns
          (set_prev heap (some x.0) p)
          λ heap'. Chain heap' p (x ∷ xs) after × Keeps heap heap' (x ∷ xs)
  unfolding Chain
  set_prev-first heap before x xs after p (fresh, d) (e, c) =
      let node : Node A = record { value = x.1; prev = p; next = first xs after } in
      let heap' = write_node heap x.0 (some node) in
      let others : (b : ℕ) → x.0 ≢ b → heap' b ≡ heap b =
        λ b apart. write_node_ne heap x.0 (some node) b apart in
      (
        heap',
        set_prev-ok heap x.0 _ p e,
        (
          (
            write_node_self heap x.0 (some node),
            Chain-frame heap heap' (some x.0) xs after (λ a i. others a (λ same. fresh (rw same i)))
                c,
          ),
          λ b out. others b (λ same. out (here (sym same))),
        ),
      )

  pub link_next-set_next :
      (heap : Heap A) (a : ℕ) (xs : List (ℕ × A)) (q : Link)
      → link_next heap (last (some a) xs) q ≡ set_next heap (last (some a) xs) q
  unfolding link_next
  link_next-set_next heap a [] q = refl
  link_next-set_next heap a (x ∷ xs) q = link_next-set_next heap x.0 xs q

  pub link_next_lem :
      (heap : Heap A) (xs : List (ℕ × A)) (after q : Link)
      → Distinct (addresses xs)
      → Chain heap none xs after
      → Returns
          (link_next heap (last none xs) q)
          λ heap'. Chain heap' none xs q × Keeps heap heap' xs
  unfolding link_next Chain
  link_next_lem heap [] after q d c = (heap, refl, (tt, λ b out. refl))
  link_next_lem heap (x ∷ xs) after q d c =
      let (heap', run, p) = set_next-last heap none x xs after q d c in
      (heap', link_next-set_next heap x.0 xs q ∙ run, p)

  pub link_prev_lem :
      (heap : Heap A) (before p : Link) (xs : List (ℕ × A))
      → Distinct (addresses xs)
      → Chain heap before xs none
      → Returns
          (link_prev heap (first xs none) p)
          λ heap'. Chain heap' p xs none × Keeps heap heap' xs
  unfolding link_prev Chain
  link_prev_lem heap before p [] d c = (heap, refl, (tt, λ b out. refl))
  link_prev_lem heap before p (x ∷ xs) d c = set_prev-first heap before x xs none p d c

  -- Two lists without an address in common.
  abbrev pub Apart : List (ℕ × A) → List (ℕ × A) → Type 0
  Apart xs ys =
      Distinct (addresses xs)
      × Distinct (addresses ys)
      × ((a : ℕ) → In a (addresses xs) → ¬ In a (addresses ys))

  pub In-append :
      (a : ℕ) (xs ys : List (ℕ × A))
      → In a (addresses (xs ++ ys))
      → In a (addresses xs) ⊎ In a (addresses ys)
  In-append a [] ys i = inr i
  In-append a (x ∷ xs) ys (here e) = inl (here e)
  In-append a (x ∷ xs) ys (there i) = elim (In-append a xs ys i) [
    | inl j ↦ inl (there j)
    | inr j ↦ inr j
  ]

  pub In-append_left :
      (a : ℕ) (xs ys : List (ℕ × A)) → In a (addresses xs) → In a (addresses (xs ++ ys))
  In-append_left a [] ys i = elim i [ ]
  In-append_left a (x ∷ xs) ys (here e) = here e
  In-append_left a (x ∷ xs) ys (there i) = there (In-append_left a xs ys i)

  pub In-append_right :
      (a : ℕ) (xs ys : List (ℕ × A)) → In a (addresses ys) → In a (addresses (xs ++ ys))
  In-append_right a [] ys i = i
  In-append_right a (x ∷ xs) ys i = there (In-append_right a xs ys i)

  pub Apart-append : (xs ys : List (ℕ × A)) → Apart xs ys → Distinct (addresses (xs ++ ys))
  Apart-append [] ys (_, d, _) = d
  Apart-append (x ∷ xs) ys ((fresh, dx), dy, apart) = (
    λ i. elim (In-append x.0 xs ys i) [ inl j ↦ fresh j | inr j ↦ apart x.0 (here refl) j ],
    Apart-append xs ys (dx, dy, λ a i. apart a (there i)),
  )

  pub append-Apart : (xs ys : List (ℕ × A)) → Distinct (addresses (xs ++ ys)) → Apart xs ys
  append-Apart [] ys d = (tt, d, λ a i. elim i [ ])
  append-Apart (x ∷ xs) ys (fresh, d) =
      let (dx, dy, apart) = append-Apart xs ys d in
      (
        (λ i. fresh (In-append_left x.0 xs ys i), dx),
        dy,
        λ a i j. elim i [
          | here e ↦ fresh (In-append_right x.0 xs ys (rw (← e) j))
          | there k ↦ apart a k j
        ],
      )

  -- `last->next = first; first->prev = last` for two chains makes them one.
  pub link_lem :
      (heap : Heap A) (xs ys : List (ℕ × A)) (after before : Link)
      → Apart xs ys
      → Chain heap none xs after
      → Chain heap before ys none
      → (h1 : Heap A) × (h2 : Heap A) × (link_next heap (last none xs) (first ys none) ≡ ok h1)
        × (link_prev h1 (first ys none) (last none xs) ≡ ok h2)
        × Chain h2 none (xs ++ ys) none
        × Keeps heap h2 (xs ++ ys)
  link_lem heap xs ys after before (dx, dy, apart) cx cy =
      let (h1, run1, (cx1, keeps1)) = link_next_lem heap xs after (first ys none) dx cx in
      let cy1 = Chain-frame heap h1 before ys none (λ a j. keeps1 a (λ i. apart a i j)) cy in
      let (h2, run2, (cy2, keeps2)) = link_prev_lem h1 before (last none xs) ys dy cy1 in
      let cx2 = Chain-frame h1 h2 none xs (first ys none) (λ a i. keeps2 a (apart a i)) cx1 in
      (
        h1,
        h2,
        run1,
        run2,
        Chain-join h2 none xs ys none cx2 cy2,
        λ b out.
            keeps2 b (λ j. out (In-append_right b xs ys j))
            ∙ keeps1 b (λ i. out (In-append_left b xs ys i)),
      )

  -- The same in the other order: `first->prev = last; last->next = first`.
  pub link_back_lem :
      (heap : Heap A) (xs ys : List (ℕ × A)) (after before : Link)
      → Apart xs ys
      → Chain heap none xs after
      → Chain heap before ys none
      → (h1 : Heap A) × (h2 : Heap A) × (link_prev heap (first ys none) (last none xs) ≡ ok h1)
        × (link_next h1 (last none xs) (first ys none) ≡ ok h2)
        × Chain h2 none (xs ++ ys) none
        × Keeps heap h2 (xs ++ ys)
  link_back_lem heap xs ys after before (dx, dy, apart) cx cy =
      let (h1, run1, (cy1, keeps1)) = link_prev_lem heap before (last none xs) ys dy cy in
      let cx1 = Chain-frame heap h1 none xs after (λ a i. keeps1 a (apart a i)) cx in
      let (h2, run2, (cx2, keeps2)) = link_next_lem h1 xs after (first ys none) dx cx1 in
      let cy2 = Chain-frame h1 h2 (last none xs) ys none (λ a j. keeps2 a (λ i. apart a i j)) cy1 in
      (
        h1,
        h2,
        run1,
        run2,
        Chain-join h2 none xs ys none cx2 cy2,
        λ b out.
            keeps2 b (λ i. out (In-append_left b xs ys i))
            ∙ keeps1 b (λ j. out (In-append_right b xs ys j)),
      )
