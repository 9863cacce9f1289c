-- ===== src/RingQueue/Storage.antt =====
-- The constructor and `clear`: which slots of the block were initialised.
use native.Mathlib.Decide.{dec_lt, ℕ_discrete}
use bhcpp_hptool_kit.Base.{
  ℕ, zero, suc, ◌+◌, ◌*◌, ◌/◌, ◌^◌, ◌≤◌, ◌<◌, ◌≡◌, ◌≢◌, ◌⊎◌, inl, inr, refl, sym, ◌∙◌, arith, List,
  [], Option, some, none, get_elem?, set, length, length-set, Bool, ◌==◌, false, get_elem?_past,
  get_elem?-set_ne, get_elem?-set_self,
}
use bhcpp_hptool_kit.Base.Run.{fault, undefined, ◌>>=◌, Returns, Returns-bind, Returns_mono}
use bhcpp_hptool_kit.BlockPool.Sizes.{byte_capacity}
use bhcpp_hptool_kit.RingQueue.{
  Slot, raw, vacant, holds, Queue, capacity, destroy_slot, destroy_slots, new, clear,
}
use bhcpp_hptool_kit.RingQueue.Window.{offset_zero}
use bhcpp_hptool_kit.RingQueue.Slots.{allocate_slots_lem}
use bhcpp_hptool_kit.RingQueue.Refine.{Repr}

module _ {ℓ} {A : Type ℓ} where
  -- Every slot from `i` on was initialised.
  abbrev pub IsInitialised : ℕ → List (Slot A) → Type ℓ
  IsInitialised i buffer =
      (j : ℕ)
      → i ≤ j
      → j < length buffer
      → (get_elem? buffer j ≡ some vacant) ⊎ ((x : A) × (get_elem? buffer j ≡ some (holds x)))

  -- What `destroySlot` may do to a slot, besides the fault.
  record Destroyed (buffer : List (Slot A)) (i : ℕ) (b : List (Slot A)) : Type ℓ where
    width : length b ≡ length buffer
    others : (j : ℕ) → i ≢ j → get_elem? b j ≡ get_elem? buffer j
    emptied : get_elem? b i ≡ some vacant
    not-raw : get_elem? buffer i ≢ some raw

  destroy_slot_cases :
      (buffer : List (Slot A)) (i : ℕ) (o : Option (Slot A))
      → get_elem? buffer i ≡ o
      → (destroy_slot buffer i ≡ fault undefined) × ((o ≡ none) ⊎ (o ≡ some raw))
        ⊎ Returns (destroy_slot buffer i) (Destroyed buffer i)
  unfolding destroy_slot
  destroy_slot_cases buffer i none e = inl (rw (e, destroy_slot), inl refl)
  destroy_slot_cases buffer i (some raw) e = inl (rw (e, destroy_slot), inr refl)
  destroy_slot_cases buffer i (some vacant) e = inr (
    buffer,
    rw (e, destroy_slot),
    record { width = refl; others = λ j n. refl; emptied = e; not-raw = λ r. cc },
  )
  destroy_slot_cases buffer i (some (holds x)) e = inr (
    set buffer i vacant,
    rw (e, destroy_slot),
    record {
      width = length-set buffer i vacant;
      others = λ j n. get_elem?-set_ne buffer vacant n;
      emptied = get_elem?-set_self buffer i vacant (lt_of_get buffer i (holds x) e);
      not-raw = λ r. cc;
    },
  )
    where
      lt_of_get :
          (buffer : List (Slot A)) (i : ℕ) (s : Slot A)
          → get_elem? buffer i ≡ some s
          → i < length buffer
      lt_of_get buffer i s e = elim (dec_lt i (length buffer)) [
        | yes p ↦ p
        | no n ↦ let past = get_elem?_past buffer i (omega arith) in cc
      ]

  destroy_slots_raw :
      (count i j : ℕ) (buffer : List (Slot A))
      → i ≤ j
      → j < i + count
      → get_elem? buffer j ≡ some raw
      → destroy_slots count i buffer ≡ fault undefined
  unfolding destroy_slots
  destroy_slots_raw zero i j buffer lo hi r = absurd (omega arith)
  destroy_slots_raw (suc count) i j buffer lo hi r = elim (destroy_slot_cases buffer i _ refl) [
    | inl f ↦ rw (f.0)
    | inr (b, e, d) ↦ elim (ℕ_discrete i j) [
      | yes p ↦ absurd (d.not-raw (rw p r))
      | no n ↦
          rw e (destroy_slots_raw count (i + 1) j b (omega arith) (omega arith) (d.others j n ∙ r))
    ]
  ]

  -- Where the slots from `i` on were initialised, destroying them leaves them vacant.
  destroy_slots_lem :
      (count i : ℕ) (buffer : List (Slot A))
      → i + count ≡ length buffer
      → IsInitialised i buffer
      → Returns (destroy_slots count i buffer) λ b.
        (length b ≡ length buffer)
        × ((j : ℕ) → j < i → get_elem? b j ≡ get_elem? buffer j)
        × ((j : ℕ) → i ≤ j → j < length buffer → get_elem? b j ≡ some vacant)
  unfolding destroy_slots
  destroy_slots_lem zero i buffer e h =
      (buffer, refl, (refl, λ j p. refl, λ j p q. absurd (omega arith)))
  destroy_slots_lem (suc count) i buffer e h = elim (destroy_slot_cases buffer i _ refl) [
    | inl f ↦ absurd (no_fault f.1 (h i (omega arith) (omega arith)))
    | inr d ↦ Returns-bind d λ b p.
        Returns_mono
          (destroy_slots_lem count (i + 1) b (omega (arith, p.width)) (λ j lo hi.
            rw (p.others j (λ q. omega arith)) (h j (omega arith) (omega (arith, p.width)))))
          λ r rp. (
            rp.0 ∙ p.width,
            λ j lt. rp.1 j (omega arith) ∙ p.others j (λ q. omega arith),
            λ j lo hi. elim (ℕ_discrete i j) [
              | yes same ↦ rw (← same) (rp.1 i (omega arith) ∙ p.emptied)
              | no n ↦ rp.2 j (omega arith) (omega (arith, p.width))
            ],
          )
  ]
    where
      no_fault :
          {o : Option (Slot A)}
          → (o ≡ none) ⊎ (o ≡ some raw)
          → (o ≡ some vacant) ⊎ ((x : A) × (o ≡ some (holds x)))
          → ⊥
      no_fault p q = ground arith

  -- `clear` empties an initialised queue: every slot is vacant after it.
  pub clear_lem :
      (q : Queue A) (xs : List A)
      → Repr q xs
      → IsInitialised 0 q.buffer
      → Returns (clear q) λ r.
        Repr r []
        × (capacity r ≡ capacity q)
        × ((j : ℕ) → j < capacity q → get_elem? r.buffer j ≡ some vacant)
  unfolding clear
  clear_lem q xs v h =
      Returns-bind (destroy_slots_lem (length q.buffer) 0 q.buffer (omega arith) h) λ b p. (
        record q { buffer = b; head = 0; tail = 0; size = 0 },
        refl,
        (
          record {
            small = omega (arith, p.0, v.small);
            head_in = omega (arith, p.0, v.head_in);
            fits = omega arith;
            sized = refl;
            tail_at = sym (offset_zero 0 (omega (arith, p.0, v.head_in)));
            window = tt;
          },
          p.0,
          λ j lt. p.2 j (omega arith) lt,
        ),
      )

  -- `clear` of a new queue, which its destructor calls, tests a slot that was never initialised if the
  -- block, of at most `2 ^ 63` bytes asked for, holds more slots than were asked for.
  pub clear-new :
      (slot_size count : ℕ) (overwrite auto_expand : Bool)
      → 0 < slot_size
      → 0 < count
      → slot_size * count ≤ 2 ^ 63
      → count < byte_capacity (slot_size * count) / slot_size
      → (new slot_size {A = A} count overwrite auto_expand >>= clear) ≡ fault undefined
  unfolding new clear
  clear-new slot_size count overwrite auto_expand pos some_slots bytes larger =
      let e : (count == 0) ≡ false = ground arith in
      let (b, run, (len, room, small, first, rest)) =
        allocate_slots_lem A slot_size count pos bytes in
      rw (e, run)
        (rw (
          destroy_slots_raw (length b) 0 count b (omega arith) (omega arith)
            (rest count (omega arith) (omega arith))))

  -- For a positive count whose slots take at most `2 ^ 63` bytes, the constructor makes an empty queue
  -- of at least that capacity.
  pub new_lem :
      (slot_size count : ℕ) (overwrite auto_expand : Bool)
      → 0 < slot_size
      → 0 < count
      → slot_size * count ≤ 2 ^ 63
      → Returns
          (new slot_size {A = A} count overwrite auto_expand)
          λ r. Repr r [] × (count ≤ capacity r)
  unfolding new
  new_lem slot_size count overwrite auto_expand pos some_slots bytes =
      let e : (count == 0) ≡ false = ground arith in
      rw e (
        Returns-bind (allocate_slots_lem A slot_size count pos bytes) λ b p. (
          _,
          refl,
          (
            record {
              small = p.2;
              head_in = omega (arith, p.1);
              fits = omega arith;
              sized = refl;
              tail_at = sym (offset_zero 0 (omega (arith, p.1)));
              window = tt;
            },
            p.1,
          ),
        ))
