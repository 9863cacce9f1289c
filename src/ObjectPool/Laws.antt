-- ===== src/ObjectPool/Laws.antt =====
-- The pool hands out every slot to one owner at a time.
use mathlib.Core.List.{append_assoc}
use mathlib.Core.Path.{subst}
use bhcpp_hptool_kit.Base.{
  ℕ, ◌+◌, ◌≤◌, ◌<◌, ◌≡◌, inl, inr, refl, sym, ◌∙◌, ap, arith, false, List, [], ◌∷◌, ◌++◌, map,
  length, length-append, ltb, ◌==◌, Bool-cases,
}
use bhcpp_hptool_kit.Base.Distinct.{
  In, here, there, Distinct, In-right, In-middle, Distinct-middle, Distinct-front, In-map,
}
use bhcpp_hptool_kit.ObjectPool.{
  Ptr, Segment, Pool, Config, fresh_segment, add_segment, take_slot, allocate_new_segment,
  allocate_from, allocate, deallocate, clear,
}

-- A slot below `next_uninit` of a segment.
abbrev pub Issued : List Segment → Ptr → Type 0
Issued segments p = (s : Segment) × In s segments × (s.data_block ≡ p.0) × (p.1 < s.next_uninit)

abbrev blocks_of : List Segment → List ℕ
blocks_of segments = map (λ (s : Segment). s.data_block) segments

-- The objects `live` are those handed out and not yet returned.
pub record Valid (pool : Pool) (live : List Ptr) : Type 0 where
  pub issued : (p : Ptr) → In p (pool.free_stack ++ live) → Issued pool.segments p
  pub distinct : Distinct (pool.free_stack ++ live)
  pub counted : pool.live_count ≡ length live
  pub named : (s : Segment) → In s pool.segments → s.data_block < pool.blocks
  pub apart : Distinct (blocks_of pool.segments)
  pub within : (s : Segment) → In s pool.segments → s.next_uninit ≤ s.capacity

-- The next slot of a segment is issued by no segment.
next_slot-fresh :
    (seg : Segment) (others : List Segment)
    → Distinct (blocks_of (seg ∷ others))
    → ¬ Issued (seg ∷ others) (seg.data_block, seg.next_uninit)
next_slot-fresh seg others apart (s, here e, block, below) =
    let same = ap (λ (t : Segment). t.next_uninit) e in omega arith
next_slot-fresh seg others (out, _) (s, there i, block, below) =
    out (
      subst (λ b. In b (blocks_of others)) block
        (In-map (λ (t : Segment). t.data_block) s others i))

Issued-grow :
    (seg : Segment) (others : List Segment) (p : Ptr)
    → Issued (seg ∷ others) p
    → Issued (record seg { next_uninit = seg.next_uninit + 1 } ∷ others) p
Issued-grow seg others p (s, there i, block, below) = (s, there i, block, below)
Issued-grow seg others p (s, here e, block, below) =
    let same_next = ap (λ (t : Segment). t.next_uninit) e in
    let same_block = ap (λ (t : Segment). t.data_block) e in
    (
      record seg { next_uninit = seg.next_uninit + 1 },
      here refl,
      sym same_block ∙ block,
      omega arith,
    )

take_slot-Valid :
    (seg : Segment) (others : List Segment) (pool : Pool) (live : List Ptr)
    → pool.segments ≡ seg ∷ others
    → seg.next_uninit < seg.capacity
    → Valid pool live
    → Valid (take_slot seg others pool).1 ((take_slot seg others pool).0 ∷ live)
unfolding take_slot
take_slot-Valid seg others pool live e room valid =
    let p : Ptr = (seg.data_block, seg.next_uninit) in
    let grown = record seg { next_uninit = seg.next_uninit + 1 } in
    let apart : Distinct (blocks_of (seg ∷ others)) =
      subst (λ t. Distinct (blocks_of t)) e valid.apart in
    let known : (q : Ptr) → In q (pool.free_stack ++ live) → Issued (seg ∷ others) q =
      λ q i. subst (λ t. Issued t q) e (valid.issued q i) in
    let fresh : ¬ In p (pool.free_stack ++ live) =
      λ i. next_slot-fresh seg others apart (known p i) in
    let old : (s : Segment) → In s (seg ∷ others) → In s pool.segments =
      λ s i. subst (In s) (sym e) i in
    record {
      issued = λ q i. elim ((In-middle q p pool.free_stack live).1 i) [
        | here same ↦ (
          grown,
          here refl,
          sym (ap (λ (r : Ptr). r.0) same),
          omega (arith, ap (λ (r : Ptr). r.1) same),
        )
        | there j ↦ Issued-grow seg others q (known q j)
      ];
      distinct = Distinct-middle p pool.free_stack live (fresh, valid.distinct);
      counted = omega (arith, valid.counted);
      named = λ s i. elim i [
        | here same ↦
            omega (
              arith,
              ap (λ (t : Segment). t.data_block) same,
              valid.named seg (old seg (here refl)),
            )
        | there j ↦ valid.named s (old s (there j))
      ];
      apart = apart;
      within = λ s i. elim i [
        | here same ↦
            omega (
              arith,
              ap (λ (t : Segment). t.next_uninit) same,
              ap (λ (t : Segment). t.capacity) same,
            )
        | there j ↦ valid.within s (old s (there j))
      ];
    }

add_segment-Valid :
    (grow : ℕ → ℕ) (config : Config) (pool : Pool) (live : List Ptr)
    → Valid pool live
    → Valid (add_segment grow config pool) live
unfolding add_segment fresh_segment
add_segment-Valid grow config pool live valid = record {
  issued = λ p i. let (s, j, block, below) = valid.issued p i in (s, there j, block, below);
  distinct = valid.distinct;
  counted = valid.counted;
  named = λ s i. elim i [
    | here e ↦ omega (arith, ap (λ (t : Segment). t.data_block) e)
    | there j ↦ omega (arith, valid.named s j)
  ];
  apart = (λ i. old_block pool.segments valid.named i, valid.apart);
  within = λ s i. elim i [
    | here e ↦ omega (arith, ap (λ (t : Segment). t.next_uninit) e)
    | there j ↦ valid.within s j
  ];
}
  where
    old_block :
        (segments : List Segment)
        → ((s : Segment) → In s segments → s.data_block < pool.blocks)
        → ¬ In pool.blocks (blocks_of segments)
    old_block [] named i = elim i [ ]
    old_block (s ∷ rest) named (here e) = omega (arith, named s (here refl))
    old_block (s ∷ rest) named (there i) = old_block rest (λ t j. named t (there j)) i

reuse-Valid :
    (pool : Pool) (live : List Ptr) (p : Ptr) (free : List Ptr)
    → pool.free_stack ≡ p ∷ free
    → Valid pool live
    → Valid (record pool { free_stack = free; live_count = pool.live_count + 1 }) (p ∷ live)
reuse-Valid pool live p free e valid = record {
  issued =
      λ q i. valid.issued q (subst (λ t. In q (t ++ live)) (sym e) ((In-middle q p free live).1 i));
  distinct = Distinct-middle p free live (subst (λ t. Distinct (t ++ live)) e valid.distinct);
  counted = omega (arith, valid.counted);
  named = valid.named;
  apart = valid.apart;
  within = valid.within;
}

allocate_new_segment-Valid :
    (grow : ℕ → ℕ) (config : Config) (pool : Pool) (live : List Ptr)
    → 0 < (fresh_segment grow config pool).capacity
    → Valid pool live
    → Valid
        (allocate_new_segment grow config pool).1
        ((allocate_new_segment grow config pool).0 ∷ live)
unfolding allocate_new_segment add_segment fresh_segment
allocate_new_segment-Valid grow config pool live room valid =
    take_slot-Valid (fresh_segment grow config pool) pool.segments (add_segment grow config pool)
      live refl room (add_segment-Valid grow config pool live valid)

allocate_from-Valid :
    (grow : ℕ → ℕ) (config : Config) (free : List Ptr) (segments : List Segment) (pool : Pool)
    (live : List Ptr)
    → pool.free_stack ≡ free
    → pool.segments ≡ segments
    → 0 < (fresh_segment grow config pool).capacity
    → Valid pool live
    → Valid
        (allocate_from grow config free segments pool).1
        ((allocate_from grow config free segments pool).0 ∷ live)
unfolding allocate_from
allocate_from-Valid grow config (p ∷ free) segments pool live e e' room valid =
    reuse-Valid pool live p free e valid
allocate_from-Valid grow config [] [] pool live e e' room valid =
    allocate_new_segment-Valid grow config pool live room valid
allocate_from-Valid grow config [] (seg ∷ others) pool live e e' room valid =
    elim (Bool-cases (ltb seg.next_uninit seg.capacity)) [
      | inl vacant ↦ rw vacant (take_slot-Valid seg others pool live e' (ground arith) valid)
      | inr full ↦ rw full (allocate_new_segment-Valid grow config pool live room valid)
    ]

-- In a valid pool whose next segment holds an object, `allocate` gives an object that was not live,
-- and the pool with it is valid: no two live objects share a slot.
pub allocate_lem :
    (grow : ℕ → ℕ) (config : Config) (pool : Pool) (live : List Ptr)
    → 0 < (fresh_segment grow config pool).capacity
    → Valid pool live
    → (¬ In (allocate grow config pool).0 live)
      × Valid (allocate grow config pool).1 ((allocate grow config pool).0 ∷ live)
unfolding allocate
allocate_lem grow config pool live room valid =
    let after =
      allocate_from-Valid grow config pool.free_stack pool.segments pool live refl refl room
        valid in
    let free = (allocate grow config pool).1.free_stack in
    let p = (allocate grow config pool).0 in
    (λ i. (Distinct-front p free live after.distinct).0 (In-right p free live i), after)

-- Returning a live object takes it from the live ones and keeps the pool valid.
pub deallocate_lem :
    (pool : Pool) (before after : List Ptr) (p : Ptr)
    → Valid pool (before ++ p ∷ after)
    → Valid (deallocate pool p) (before ++ after)
unfolding deallocate
deallocate_lem pool before after p valid =
    let free = pool.free_stack in
    let joined : free ++ (before ++ p ∷ after) ≡ (free ++ before) ++ p ∷ after =
      sym (append_assoc free before (p ∷ after)) in
    let apart = Distinct-front p (free ++ before) after (subst Distinct joined valid.distinct) in
    let assoc : (free ++ before) ++ after ≡ free ++ (before ++ after) =
      append_assoc free before after in
    let some_live : 0 < pool.live_count =
      omega (arith, valid.counted, length-append before (p ∷ after)) in
    let test : (pool.live_count == 0) ≡ false = ground arith in
    record {
      issued = λ q i. valid.issued q (
          subst (In q) (sym joined)
            ((In-middle q p (free ++ before) after).0 (subst (λ t. In q (p ∷ t)) (sym assoc) i)));
      distinct = subst (λ t. Distinct (p ∷ t)) assoc apart;
      counted = rw test (
          omega
            (arith, valid.counted, length-append before (p ∷ after), length-append before after));
      named = valid.named;
      apart = valid.apart;
      within = valid.within;
    }

-- After `clear` a returned object is handed out again, though the pool owns no block any more: the
-- object lies in memory that `clear` has given back.
pub allocate-clear :
    (grow : ℕ → ℕ) (config : Config) (pool : Pool) (p : Ptr) (free : List Ptr)
    → pool.free_stack ≡ p ∷ free
    → ((allocate grow config (clear config pool)).0 ≡ p)
      × ((allocate grow config (clear config pool)).1.segments ≡ [])
unfolding allocate allocate_from clear
allocate-clear grow config pool p free e = (rw e refl, rw e refl)
