-- ===== src/ObjectPool/Shared/Counts.antt =====
-- Every object counts its handles, and goes back to the pool with the last one.
use mathlib.Core.Path.{subst}
use bhcpp_hptool_kit.Base.{
  ℕ, ◌+◌, ◌-◌, ◌%◌, ◌^◌, ◌≤◌, ◌<◌, ◌≡◌, ◌⊎◌, inl, inr, refl, sym, ◌∙◌, ap, arith, Bool, true, false,
  List, [], ◌∷◌, ◌++◌, if◌then◌else◌, ◌==◌, Bool-cases,
}
use bhcpp_hptool_kit.Base.Distinct.{In, here, there, In-right, In-middle}
use bhcpp_hptool_kit.ObjectPool.{Ptr, Config, allocate, deallocate, fresh_segment}
use bhcpp_hptool_kit.ObjectPool.Laws.{Valid, allocate_lem, deallocate_lem}
use bhcpp_hptool_kit.ObjectPool.Shared.{
  Objects, same_ptr, set_at, add_ref, release_ref, make_shared,
}

pub same_ptr_cases :
    (p q : Ptr) → ((same_ptr p q ≡ true) × (p ≡ q)) ⊎ ((same_ptr p q ≡ false) × ¬ (p ≡ q))
same_ptr_cases (a, b) (c, d) = elim (Bool-cases (a == c)) [
  | inr e ↦ inr (rw e refl, λ same. let t : a ≡ c = ap (λ (r : Ptr). r.0) same in ground arith)
  | inl e ↦ elim (Bool-cases (b == d)) [
    | inr e' ↦
        inr (rw (e, e') refl, λ same. let t : b ≡ d = ap (λ (r : Ptr). r.1) same in ground arith)
    | inl e' ↦
        let left : a ≡ c = ground arith in
        let right : b ≡ d = ground arith in inl (rw (e, e') refl, cc (left, right))
  ]
]

-- the number of handles to an object
unfoldable pub handle_count : Ptr → List Ptr → ℕ
handle_count p [] = 0
handle_count p (q ∷ handles) = (if same_ptr p q then 1 else 0) + handle_count p handles

handle_count_self :
    (p : Ptr) (handles : List Ptr) → handle_count p (p ∷ handles) ≡ 1 + handle_count p handles
unfolding handle_count
handle_count_self p handles = elim (same_ptr_cases p p) [
  | inl (e, _) ↦ rw e refl
  | inr (_, other) ↦ absurd (other refl)
]

handle_count-other :
    (p q : Ptr) (handles : List Ptr)
    → ¬ (p ≡ q)
    → handle_count p (q ∷ handles) ≡ handle_count p handles
unfolding handle_count
handle_count-other p q handles other = elim (same_ptr_cases p q) [
  | inl (_, same) ↦ absurd (other same)
  | inr (e, _) ↦ rw e (omega arith)
]

In-count : (p : Ptr) (handles : List Ptr) → In p handles → 0 < handle_count p handles
unfolding handle_count
In-count p [] i = elim i [ ]
In-count p (q ∷ handles) i = elim (same_ptr_cases p q) [
  | inl (e, _) ↦ rw e (omega arith)
  | inr (e, other) ↦ elim i [
    | here same ↦ absurd (other same)
    | there j ↦ rw e (omega (arith, In-count p handles j))
  ]
]

handle_count-zero : (p : Ptr) (handles : List Ptr) → ¬ In p handles → handle_count p handles ≡ 0
unfolding handle_count
handle_count-zero p [] out = refl
handle_count-zero p (q ∷ handles) out =
    handle_count-other p q handles (λ e. out (here e))
    ∙ handle_count-zero p handles (λ i. out (there i))

-- A handle to `p` more.
handle_count-more :
    (p q : Ptr) (handles : List Ptr) → handle_count q handles ≤ handle_count q (p ∷ handles)
unfolding handle_count
handle_count-more p q handles = omega arith

set_at_self {ℓ} : {A : Type ℓ} (f : Ptr → A) (p : Ptr) (a : A) → set_at f p a p ≡ a
set_at_self f p a = elim (same_ptr_cases p p) [
  | inl (e, _) ↦ rw e refl
  | inr (_, other) ↦ absurd (other refl)
]

set_at-other {ℓ} :
    {A : Type ℓ} (f : Ptr → A) (p : Ptr) (a : A) (q : Ptr) → ¬ (p ≡ q) → set_at f p a q ≡ f q
set_at-other f p a q other = elim (same_ptr_cases p q) [
  | inl (_, same) ↦ absurd (other same)
  | inr (e, _) ↦ rw e refl
]

-- `live` are the live objects, and `handles` the handles to them.
pub record Counted (o : Objects) (live handles : List Ptr) : Type 0 where
  pub valid : Valid o.pool live
  pub counts : (p : Ptr) → In p live → o.ref_count p ≡ handle_count p handles
  pub owned : (p : Ptr) → In p handles → In p live
  pub needed : (p : Ptr) → In p live → 0 < handle_count p handles

-- `make_shared` gives a new object with one handle.
pub make_shared_lem :
    (grow : ℕ → ℕ) (config : Config) (o : Objects) (live handles : List Ptr)
    → 0 < (fresh_segment grow config o.pool).capacity
    → Counted o live handles
    → (¬ In (make_shared grow config o).0 live)
      × Counted
          (make_shared grow config o).1
          ((make_shared grow config o).0 ∷ live)
          ((make_shared grow config o).0 ∷ handles)
unfolding make_shared
make_shared_lem grow config o live handles room counted =
    let p = (allocate grow config o.pool).0 in
    let (fresh, valid) = allocate_lem grow config o.pool live room counted.valid in
    let apart : (q : Ptr) → In q live → ¬ (p ≡ q) =
      λ q i same. fresh (subst (λ t. In t live) (sym same) i) in
    let unheld : handle_count p handles ≡ 0 =
      handle_count-zero p handles (λ i. fresh (counted.owned p i)) in
    (
      fresh,
      record {
        valid = valid;
        counts = λ q i. elim i [
          | here e ↦
              subst (λ t. set_at o.ref_count p 1 t ≡ handle_count t (p ∷ handles)) (sym e)
                (set_at_self o.ref_count p 1 ∙ omega (arith, handle_count_self p handles, unheld))
          | there j ↦
              set_at-other o.ref_count p 1 q (apart q j)
              ∙ (counted.counts q j
                  ∙ sym (handle_count-other q p handles (λ same. apart q j (sym same))))
        ];
        owned = λ q i. elim i [ here e ↦ here e | there j ↦ there (counted.owned q j) ];
        needed = λ q i. elim i [
          | here e ↦
              subst (λ t. 0 < handle_count t (p ∷ handles)) (sym e)
                (omega (arith, handle_count_self p handles))
          | there j ↦ omega (
            arith,
            counted.needed q j,
            handle_count-other q p handles (λ same. apart q j (sym same)),
          )
        ];
      },
    )

-- A copy of a handle counts one more, as long as the counter does not wrap.
pub add_ref_lem :
    (o : Objects) (live handles : List Ptr) (p : Ptr)
    → In p live
    → handle_count p handles + 1 < 2 ^ 32
    → Counted o live handles
    → Counted (add_ref o p) live (p ∷ handles)
unfolding add_ref
add_ref_lem o live handles p i small counted = record {
  valid = counted.valid;
  counts = λ q j. elim (same_ptr_cases p q) [
    | inl (_, same) ↦
        subst
          (λ t.
            set_at o.ref_count p ((o.ref_count p + 1) % 2 ^ 32) t ≡ handle_count t (p ∷ handles))
          same
          (set_at_self o.ref_count p ((o.ref_count p + 1) % 2 ^ 32)
            ∙ omega (arith, counted.counts p i, handle_count_self p handles))
    | inr (_, other) ↦
        set_at-other o.ref_count p ((o.ref_count p + 1) % 2 ^ 32) q other
        ∙ (counted.counts q j ∙ sym (handle_count-other q p handles (λ e. other (sym e))))
  ];
  owned = λ q j. elim j [ here e ↦ subst (λ t. In t live) (sym e) i | there k ↦ counted.owned q k ];
  needed = λ q j. omega (arith, counted.needed q j, handle_count-more p q handles);
}

In-split :
    (p : Ptr) (xs : List Ptr)
    → In p xs
    → (before : List Ptr) × (after : List Ptr) × (xs ≡ before ++ p ∷ after)
In-split p [] i = elim i [ ]
In-split p (x ∷ xs) (here e) = ([], xs, ap (λ t. t ∷ xs) (sym e))
In-split p (x ∷ xs) (there i) =
    let (before, after, e) = In-split p xs i in (x ∷ before, after, ap (λ t. x ∷ t) e)

-- The counter after a handle to `p` is gone.
lower_count :
    (o : Objects) (live handles : List Ptr) (p q : Ptr)
    → handle_count p handles + 1 < 2 ^ 32
    → Counted o live (p ∷ handles)
    → In q live
    → set_at o.ref_count p ((o.ref_count p + 2 ^ 32 - 1) % 2 ^ 32) q ≡ handle_count q handles
lower_count o live handles p q small counted i = elim (same_ptr_cases p q) [
  | inl (_, same) ↦
      let count = counted.counts p (counted.owned p (here refl)) in
      subst
        (λ t.
          set_at o.ref_count p ((o.ref_count p + 2 ^ 32 - 1) % 2 ^ 32) t ≡ handle_count t handles)
        same
        (set_at_self o.ref_count p ((o.ref_count p + 2 ^ 32 - 1) % 2 ^ 32)
          ∙ omega (arith, count, handle_count_self p handles))
  | inr (_, other) ↦
      set_at-other o.ref_count p ((o.ref_count p + 2 ^ 32 - 1) % 2 ^ 32) q other
      ∙ (counted.counts q i ∙ handle_count-other q p handles (λ e. other (sym e)))
]

-- What is left of `o` after a handle to `p` is destroyed: the object lives on for the others and the
-- pool is as before, or it was the last one, the object is on the free stack, and the rest of the
-- pool is as before but for the number of live objects.
abbrev pub Released : Objects → Objects → List Ptr → List Ptr → Ptr → Type 0
Released o r live handles p =
    ((0 < handle_count p handles) × (r.pool ≡ o.pool) × Counted r live handles)
    ⊎ ((handle_count p handles ≡ 0)
        × (r.pool ≡ record o.pool {
          free_stack = p ∷ o.pool.free_stack;
          live_count = if o.pool.live_count == 0 then 2 ^ 64 - 1 else o.pool.live_count - 1;
        })
        × (r.recycled p ≡ true)
        × ((before : List Ptr) × (after : List Ptr) × (live ≡ before ++ p ∷ after)
            × Counted r (before ++ after) handles))

-- The objects that are left when the last handle to `p` is gone.
last_handle :
    (o : Objects) (handles before after : List Ptr) (p : Ptr) (recycled : Ptr → Bool)
    → handle_count p handles ≡ 0
    → Counted o (before ++ p ∷ after) (p ∷ handles)
    → Counted
        (record {
          pool = deallocate o.pool p;
          ref_count = set_at o.ref_count p ((o.ref_count p + 2 ^ 32 - 1) % 2 ^ 32);
          recycled = recycled;
        })
        (before ++ after)
        handles
unfolding deallocate
last_handle o handles before after p recycled none counted =
    let live = before ++ p ∷ after in
    let valid = deallocate_lem o.pool before after p counted.valid in
    let kept : (q : Ptr) → In q (before ++ after) → In q live =
      λ q j. (In-middle q p before after).0 (there j) in
    let other : (q : Ptr) → In q (before ++ after) → ¬ (p ≡ q) = λ q j same. valid.distinct.0 (
      In-right p o.pool.free_stack (before ++ after)
        (subst (λ t. In t (before ++ after)) (sym same) j)) in
    record {
      valid = valid;
      counts = λ q j. lower_count o live handles p q (omega arith) counted (kept q j);
      owned = λ q j. elim ((In-middle q p before after).1 (counted.owned q (there j))) [
        | here e ↦
            let held = In-count q handles j in
            let same : handle_count q handles ≡ handle_count p handles =
              ap (λ t. handle_count t handles) e in
            absurd (omega arith)
        | there k ↦ k
      ];
      needed = λ q j. omega (
        arith,
        counted.needed q (kept q j),
        handle_count-other q p handles (λ e. other q j (sym e)),
      );
    }

-- Destroying a handle, with fewer than `2 ^ 32 - 1` others, keeps the object and the pool while others
-- refer to the object; with the last one it pushes the object on the free stack of the pool, marks
-- it as recycled and takes it from the live objects. The counts agree with the handles in both cases.
pub release_ref_lem :
    (o : Objects) (live handles : List Ptr) (p : Ptr)
    → handle_count p handles + 1 < 2 ^ 32
    → Counted o live (p ∷ handles)
    → Released o (release_ref o p) live handles p
unfolding release_ref deallocate
release_ref_lem o live handles p small counted =
    let i = counted.owned p (here refl) in
    let count = counted.counts p i in
    let self = handle_count_self p handles in
    elim (Bool-cases (o.ref_count p == 1)) [
      | inr more ↦ rw more (
          inl (
            ground arith,
            refl,
            record {
              valid = counted.valid;
              counts = λ q j. lower_count o live handles p q small counted j;
              owned = λ q j. counted.owned q (there j);
              needed = λ q j. elim (same_ptr_cases p q) [
                | inl (_, same) ↦ subst (λ t. 0 < handle_count t handles) same (ground arith)
                | inr (_, other) ↦
                    omega (
                      arith,
                      counted.needed q j,
                      handle_count-other q p handles (λ e. other (sym e)),
                    )
              ];
            },
          ))
      | inl last ↦
          let (before, after, e) = In-split p live i in
          rw last (
            inr (
              unheld last count self,
              refl,
              set_at_self o.recycled p true,
              (
                before,
                after,
                e,
                last_handle o handles before after p (set_at o.recycled p true)
                    (unheld last count self) (subst (λ t. Counted o t (p ∷ handles)) e counted),
              ),
            ))
    ]
  where
    unheld :
        (o.ref_count p == 1) ≡ true
        → o.ref_count p ≡ handle_count p (p ∷ handles)
        → handle_count p (p ∷ handles) ≡ 1 + handle_count p handles
        → handle_count p handles ≡ 0
    unheld last count self = ground arith
