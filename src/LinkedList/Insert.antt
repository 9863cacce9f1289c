-- ===== src/LinkedList/Insert.antt =====
-- PooledList.hpp: `insert` and `insert_list`, at every position up to the size.
use mathlib.Core.Path.{subst}
use mathlib.Core.List.{append-nil, append_assoc}
use bhcpp_hptool_kit.Base.{
  ℕ, ◌+◌, ◌≡◌, refl, sym, ◌∙◌, ap, arith, List, [], ◌∷◌, ◌++◌, none, some, length, length-append,
  ltb, true, false, ◌==◌,
}
use bhcpp_hptool_kit.Base.Distinct.{In, here, there, Distinct}
use bhcpp_hptool_kit.Base.Run.{ok, Returns}
use bhcpp_hptool_kit.LinkedList.{
  Link, Heap, Handle, read_node, set_next, set_prev, link_next, link_prev, create, or_else,
  new_handle, insert_before, insert_node, insert, splice_before, splice, insert_list, node_at,
}
use bhcpp_hptool_kit.LinkedList.Chain.{addresses, first, last, Chain, Chain-split, Repr}
use bhcpp_hptool_kit.LinkedList.Links.{
  read_node-ok, link_next-set_next, Apart, In-append_left, Apart-append, link_lem, link_back_lem,
}
use bhcpp_hptool_kit.LinkedList.Walk.{node_at_lem}
use bhcpp_hptool_kit.LinkedList.Edit.{
  last-append, drop-append, unused-out, create-Chain, create-keeps, one-Apart, one_front-Apart,
  splice_runs,
}

module _ {ℓ} {A : Type ℓ} where
  last-or_else : (zs : List (ℕ × A)) (p : Link) → or_else (last none zs) p ≡ last p zs
  unfolding or_else
  last-or_else [] p = refl
  last-or_else (z ∷ zs) p = some_last z.0 zs
    where
      some_last : (b : ℕ) (zs : List (ℕ × A)) → or_else (last (some b) zs) p ≡ last (some b) zs
      some_last b [] = refl
      some_last b (z ∷ zs) = some_last z.0 zs

  -- The first node of the second part, and its `prev`.
  pub node_between :
      (heap : Heap A) (l : Handle) (ys : List (ℕ × A)) (z : ℕ × A) (zs : List (ℕ × A))
      → Repr heap l (ys ++ z ∷ zs)
      → (node_at heap l (length ys) ≡ ok (some z.0))
        × (read_node heap (some z.0)
            ≡ ok (record { value = z.1; prev = last none ys; next = first zs none }))
  unfolding Chain
  node_between heap l ys z zs rep =
      let (_, (n, _)) = Chain-split heap none ys (z ∷ zs) none rep.4 in
      (
        node_at_lem heap l (ys ++ z ∷ zs) (length ys) rep
            ∙ ap (λ r. ok (first r none)) (drop-append ys (z ∷ zs)),
        read_node-ok heap z.0 _ n,
      )

  -- `insert` of a value at a position up to the size: a new node, at an address that had none, stands
  -- there, in front of those that stood there and behind.
  pub insert_lem :
      (heap : Heap A) (l : Handle) (ys zs : List (ℕ × A)) (a : ℕ) (v : A)
      → Repr heap l (ys ++ zs)
      → heap a ≡ none
      → Returns (insert heap l (length ys) a v) λ r. Repr r.0 r.1 (ys ++ (a, v) ∷ zs)
  unfolding insert insert_node insert_before link_next link_prev
  insert_lem heap l [] zs a v (head, tail, size, d, c) unused =
      let made = create heap a v in
      let out = unused-out heap none zs none a c unused in
      let apart = one_front-Apart zs a v d out in
      let (h1, h2, run1, run2, chain, _) =
        link_lem made ((a, v) ∷ []) zs none none apart (create-Chain heap a v)
          (create-keeps heap a v zs none none out c) in
      let within : ltb l.size 0 ≡ false = ground arith in
      let run1' : set_next made (some a) l.head ≡ ok h1 = ap (set_next made (some a)) head ∙ run1 in
      let run2' : link_prev h1 l.head (some a) ≡ ok h2 =
        ap (λ p. link_prev h1 p (some a)) head ∙ run2 in
      (
        (h2, record { head = some a; tail = or_else l.tail (some a); size = l.size + 1 }),
        rw (within, run1', run2'),
        (
          refl,
          ap (λ t. or_else t (some a)) tail ∙ last-or_else zs (some a),
          omega arith,
          Apart-append ((a, v) ∷ []) zs apart,
          chain,
        ),
      )
  insert_lem heap l (y ∷ ys) [] a v (head, tail, size, d, c) unused =
      let made = create heap a v in
      let xs = y ∷ ys in
      let nil : xs ++ [] ≡ xs = append-nil xs in
      let dx = subst (λ w. Distinct (addresses w)) nil d in
      let cx = subst (λ w. Chain heap none w none) nil c in
      let out = unused-out heap none xs none a cx unused in
      let apart = one-Apart xs a v dx out in
      let (h1, h2, run1, run2, chain, _) =
        link_back_lem made xs ((a, v) ∷ []) none none apart
          (create-keeps heap a v xs none none out cx) (create-Chain heap a v) in
      let not_front : (length xs == 0) ≡ false = ground arith in
      let whole : l.size ≡ length xs = size ∙ ap length nil in
      let within : ltb l.size (length xs) ≡ false = ground arith in
      let at_end : (length xs == l.size) ≡ true = ground arith in
      let tail' : l.tail ≡ last none xs = tail ∙ ap (last none) nil in
      let run1' : set_prev made (some a) l.tail ≡ ok h1 =
        ap (set_prev made (some a)) tail' ∙ run1 in
      let run2' : link_next h1 l.tail (some a) ≡ ok h2 =
        ap (λ p. link_next h1 p (some a)) tail' ∙ run2 in
      (
        (h2, record l { tail = some a; size = l.size + 1 }),
        rw (within, not_front, at_end, run1', run2'),
        (
          head,
          sym (last-append none xs ((a, v) ∷ [])),
          omega (arith, length-append xs ((a, v) ∷ [])),
          Apart-append xs ((a, v) ∷ []) apart,
          chain,
        ),
      )
  insert_lem heap l (y ∷ ys) (z ∷ zs) a v (head, tail, size, d, c) unused =
      let made = create heap a v in
      let xs = (y ∷ ys) ++ z ∷ zs in
      let out = unused-out heap none xs none a c unused in
      let c' = create-keeps heap a v xs none none out c in
      let (found, read) = node_between made l (y ∷ ys) z zs (head, tail, size, d, c') in
      let (h1, h2, h3, h4, run1, run2, run3, run4, distinct, chain) =
        splice_runs made y ys (a, v) [] z zs c' (create-Chain heap a v) d ((λ i. elim i [ ]), tt)
          (λ b i. elim i [ here e ↦ rw e out | there k ↦ elim k [ ] ]) in
      let len = length-append (y ∷ ys) (z ∷ zs) in
      let within : ltb l.size (length (y ∷ ys)) ≡ false = ground (arith, len) in
      let not_front : (length (y ∷ ys) == 0) ≡ false = ground arith in
      let inside : (length (y ∷ ys) == l.size) ≡ false = ground (arith, len) in
      let assoc = append_assoc (y ∷ ys) ((a, v) ∷ []) (z ∷ zs) in
      (
        (h4, record l { size = l.size + 1 }),
        rw (within, not_front, inside, found, read, run1, run2, run3, run4),
        (
          head,
          tail
              ∙ (last-append none (y ∷ ys) (z ∷ zs)
                  ∙ sym (last-append none (y ∷ ys) ((a, v) ∷ z ∷ zs))),
          omega (arith, len, length-append (y ∷ ys) ((a, v) ∷ z ∷ zs)),
          subst (λ w. Distinct (addresses w)) assoc distinct,
          subst (λ w. Chain h4 none w none) assoc chain,
        ),
      )

  -- `insert_list` moves the other list's nodes to a position up to the size, in their order, and leaves
  -- the other list empty. The two lists share no node, and the other one is not empty.
  pub insert_list_lem :
      (heap : Heap A) (l other : Handle) (ys zs : List (ℕ × A)) (o : ℕ × A) (os : List (ℕ × A))
      → Repr heap l (ys ++ zs)
      → Repr heap other (o ∷ os)
      → ((a : ℕ) → In a (addresses (o ∷ os)) → ¬ In a (addresses (ys ++ zs)))
      → Returns
          (insert_list heap l (length ys) other)
          λ r. Repr r.0 r.1 (ys ++ (o ∷ os) ++ zs) × (r.2 ≡ new_handle)
  unfolding insert_list splice splice_before link_prev
  insert_list_lem heap l other [] zs o os (head, tail, size, d, c) (ohead, otail, osize, od, oc)
        out =
      let apart : Apart (o ∷ os) zs = (od, d, out) in
      let (h1, h2, run1, run2, chain, _) = link_lem heap (o ∷ os) zs none none apart oc c in
      let within : ltb l.size 0 ≡ false = ground arith in
      let more : (other.size == 0) ≡ false = ground arith in
      let run1' : set_next heap other.tail l.head ≡ ok h1 =
        ap (λ p. set_next heap p l.head) otail
        ∙ (ap (set_next heap (last none (o ∷ os))) head
            ∙ (sym (link_next-set_next heap o.0 os (first zs none)) ∙ run1)) in
      let run2' : link_prev h1 l.head other.tail ≡ ok h2 =
        ap (λ p. link_prev h1 p other.tail) head
        ∙ (ap (link_prev h1 (first zs none)) otail ∙ run2) in
      (
        (
          h2,
          record {
            head = other.head;
            tail = or_else l.tail other.tail;
            size = l.size + other.size;
          },
          new_handle,
        ),
        rw (within, more, run1', run2'),
        (
          (
            ohead,
            ap (λ t. or_else t other.tail) tail
                ∙ (last-or_else zs other.tail
                    ∙ (ap (λ p. last p zs) otail ∙ sym (last-append none (o ∷ os) zs))),
            omega (arith, length-append (o ∷ os) zs),
            Apart-append (o ∷ os) zs apart,
            chain,
          ),
          refl,
        ),
      )
  insert_list_lem heap l other (y ∷ ys) [] o os (head, tail, size, d, c)
        (ohead, otail, osize, od, oc) out =
      let xs = y ∷ ys in
      let nil : xs ++ [] ≡ xs = append-nil xs in
      let dx = subst (λ w. Distinct (addresses w)) nil d in
      let cx = subst (λ w. Chain heap none w none) nil c in
      let apart : Apart xs (o ∷ os) = (dx, od, λ a i j. out a j (In-append_left a xs [] i)) in
      let (h1, h2, run1, run2, chain, _) = link_lem heap xs (o ∷ os) none none apart cx oc in
      let not_front : (length xs == 0) ≡ false = ground arith in
      let whole : l.size ≡ length xs = size ∙ ap length nil in
      let within : ltb l.size (length xs) ≡ false = ground arith in
      let more : (other.size == 0) ≡ false = ground arith in
      let at_end : (length xs == l.size) ≡ true = ground arith in
      let tail' : l.tail ≡ last none xs = tail ∙ ap (last none) nil in
      let run1' : set_next heap l.tail other.head ≡ ok h1 =
        ap (λ p. set_next heap p other.head) tail'
        ∙ (ap (set_next heap (last none xs)) ohead
            ∙ (sym (link_next-set_next heap y.0 ys (some o.0)) ∙ run1)) in
      let run2' : set_prev h1 other.head l.tail ≡ ok h2 =
        ap (λ p. set_prev h1 p l.tail) ohead ∙ (ap (set_prev h1 (some o.0)) tail' ∙ run2) in
      (
        (h2, record l { tail = other.tail; size = l.size + other.size }, new_handle),
        rw (within, more, not_front, at_end, run1', run2'),
        (
          subst (Repr h2 (record l { tail = other.tail; size = l.size + other.size }))
              (sym (append-nil (xs ++ (o ∷ os))))
              (
                head,
                otail ∙ sym (last-append none xs (o ∷ os)),
                omega (arith, length-append xs (o ∷ os)),
                Apart-append xs (o ∷ os) apart,
                chain,
              ),
          refl,
        ),
      )
  insert_list_lem heap l other (y ∷ ys) (z ∷ zs) o os (head, tail, size, d, c)
        (ohead, otail, osize, od, oc) out =
      let (found, read) = node_between heap l (y ∷ ys) z zs (head, tail, size, d, c) in
      let (h1, h2, h3, h4, run1, run2, run3, run4, distinct, chain) =
        splice_runs heap y ys o os z zs c oc d od out in
      let len = length-append (y ∷ ys) (z ∷ zs) in
      let within : ltb l.size (length (y ∷ ys)) ≡ false = ground (arith, len) in
      let more : (other.size == 0) ≡ false = ground arith in
      let not_front : (length (y ∷ ys) == 0) ≡ false = ground arith in
      let inside : (length (y ∷ ys) == l.size) ≡ false = ground (arith, len) in
      let run1' = ap (set_next heap (last none (y ∷ ys))) ohead ∙ run1 in
      let run2' = ap (λ p. set_prev h1 p (last none (y ∷ ys))) ohead ∙ run2 in
      let run3' = ap (λ p. set_next h2 p (some z.0)) otail ∙ run3 in
      let run4' = ap (set_prev h3 (some z.0)) otail ∙ run4 in
      (
        (h4, record l { size = l.size + other.size }, new_handle),
        rw (within, more, not_front, inside, found, read, run1', run2', run3', run4'),
        (
          (
            head,
            tail
                ∙ (last-append none (y ∷ ys) (z ∷ zs)
                    ∙ sym (last-append none ((y ∷ ys) ++ (o ∷ os)) (z ∷ zs))),
            omega (
              arith,
              len,
              length-append ((y ∷ ys) ++ (o ∷ os)) (z ∷ zs),
              length-append (y ∷ ys) (o ∷ os),
            ),
            distinct,
            chain,
          ),
          refl,
        ),
      )
