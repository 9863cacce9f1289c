-- ===== src/ObjectPool/Examples.antt =====
-- The pool of objects and its handles on concrete values.
use bhcpp_hptool_kit.Base.{ℕ, ◌+◌, ◌^◌, ◌<◌, ◌≤◌, ◌≡◌, refl, arith, false, [], ◌∷◌}
use bhcpp_hptool_kit.Base.Distinct.{In, here, there}
use bhcpp_hptool_kit.ObjectPool.{
  Ptr, Segment, Pool, Config, new_pool, grown_pages, next_pages, fresh_segment, add_segment,
  take_slot, allocate_new_segment, allocate_from, allocate, deallocate, clear, capacity_total,
  sum_capacity,
}
use bhcpp_hptool_kit.ObjectPool.Laws.{Valid, allocate_lem}
use bhcpp_hptool_kit.ObjectPool.Shared.{Objects, add_ref, release_ref, make_shared, use_count}
use bhcpp_hptool_kit.ObjectPool.Shared.Counts.{handle_count, Counted, Released, release_ref_lem}

program : Unit {0}
unfolding new_pool grown_pages next_pages fresh_segment add_segment take_slot allocate_new_segment
    allocate_from allocate deallocate clear capacity_total sum_capacity add_ref release_ref
    make_shared use_count handle_count
program = tt

-- no growth beyond one base size more
abbrev same_pages : ℕ → ℕ
same_pages hint = hint

-- 128 slots of 32 bytes in a page
abbrev config : Config
config = record { page_size = 4096; slot_size = 32; pages_per_segment_base = 1 }

abbrev first : Ptr
first = (0, 0)

abbrev second : Ptr
second = (0, 1)

-- Slot 1 is live and slot 0 was returned.
abbrev used : Pool
used = record {
  free_stack = first ∷ [];
  segments = record { data_block = 0; capacity = 128; next_uninit = 2 } ∷ [];
  next_pages_hint = 1;
  live_count = 1;
  blocks = 1;
}

runs_to_used :
    deallocate
      (allocate same_pages config (allocate same_pages config new_pool).1).1
      (allocate same_pages config new_pool).0
    ≡ used
unfolding program
runs_to_used = refl

room : 0 < (fresh_segment same_pages config used).capacity
unfolding program
room = omega arith

used-Valid : Valid used (second ∷ [])
used-Valid = record {
  issued = λ p i. elim i [
    | here e ↦ (
      record { data_block = 0; capacity = 128; next_uninit = 2 },
      here refl,
      cc e,
      below p 0 e (omega arith),
    )
    | there (here e) ↦ (
      record { data_block = 0; capacity = 128; next_uninit = 2 },
      here refl,
      cc e,
      below p 1 e (omega arith),
    )
    | there (there j) ↦ elim j [ ]
  ];
  distinct = (λ i. apart i, (λ i. elim i [ ], tt));
  counted = refl;
  named = λ s i. elim i [ here e ↦ named s e | there j ↦ elim j [ ] ];
  apart = (λ i. elim i [ ], tt);
  within = λ s i. elim i [ here e ↦ within s e | there j ↦ elim j [ ] ];
}
  where
    below : (p : Ptr) (k : ℕ) → p ≡ (0, k) → k < 2 → p.1 < 2
    below p k e lt = let same : p.1 ≡ k = cc e in omega arith

    apart : ¬ In first (second ∷ [])
    apart (here e) = let same : ◌≡◌ {A = ℕ} 0 1 = cc e in omega arith
    apart (there j) = elim j [ ]

    named :
        (s : Segment)
        → s ≡ record { data_block = 0; capacity = 128; next_uninit = 2 }
        → s.data_block < 1
    named s e = let same : s.data_block ≡ 0 = cc e in omega arith

    within :
        (s : Segment)
        → s ≡ record { data_block = 0; capacity = 128; next_uninit = 2 }
        → s.next_uninit ≤ s.capacity
    within s e =
        let next : s.next_uninit ≡ 2 = cc e in let all : s.capacity ≡ 128 = cc e in omega arith

allocate_lem_example :
    (¬ In (allocate same_pages config used).0 (second ∷ []))
    × Valid (allocate same_pages config used).1 ((allocate same_pages config used).0 ∷ second ∷ [])
allocate_lem_example = allocate_lem same_pages config used (second ∷ []) room used-Valid

-- The second slot has two handles.
abbrev shared : Objects
shared = record { pool = used; ref_count = λ p. 2; recycled = λ p. false }

only_second : (p : Ptr) → In p (second ∷ []) → p ≡ second
only_second p (here e) = e
only_second p (there i) = elim i [ ]

shared-Counted : Counted shared (second ∷ []) (second ∷ second ∷ [])
unfolding program
shared-Counted = record {
  valid = used-Valid;
  counts = λ p i. rw (only_second p i) refl;
  owned =
      λ p i. elim i [ here e ↦ here e | there (here e) ↦ here e | there (there j) ↦ elim j [ ] ];
  needed = λ p i. rw (only_second p i) (omega arith);
}

one_handle : handle_count second (second ∷ []) + 1 < 2 ^ 32
unfolding program
one_handle = omega arith

release_ref_lem_example :
    Released shared (release_ref shared second) (second ∷ []) (second ∷ []) second
release_ref_lem_example =
    release_ref_lem shared (second ∷ []) (second ∷ []) second one_handle shared-Counted
