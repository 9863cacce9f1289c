-- ===== src/Sync/Recursive/Exclusion.antt =====
-- `RecursiveSmartLock` of MultiThreadAndMutex/BHSync.hpp: who is inside.
use bhcpp_hptool_kit.Base.{
  ℕ, ◌≡◌, ◌≢◌, inl, inr, refl, sym, ◌∙◌, ap, arith, Bool, true, false, Option, none, some, ◌==◌,
  Bool-cases,
}
use bhcpp_hptool_kit.Sync.Spin.{set_phase, set_phase_cases, set_phase_self}
use bhcpp_hptool_kit.Sync.Recursive.{
  Phase, idle, waiting, taken, inside, clearing, opening, RecursiveLock, new_lock, is_owner,
  move_to, lock_test, take_flag, set_owner, unlock_test, clear_owner, clear_flag, Step, locks,
  tries, fails, enters, unlocks, disowns, opens, Reachable, start, next,
}

-- The thread has set the flag and not cleared it yet.
unfoldable past : Phase → Bool
past idle = false
past waiting = false
past taken = true
past inside = true
past clearing = true
past opening = true

-- The thread has set the owner and not cleared it yet.
unfoldable owning : Phase → Bool
owning idle = false
owning waiting = false
owning taken = false
owning inside = true
owning clearing = true
owning opening = false

owning→past : (p : Phase) → owning p ≡ true → past p ≡ true
unfolding owning past
owning→past idle e = cc e
owning→past waiting e = cc e
owning→past taken e = refl
owning→past inside e = refl
owning→past clearing e = refl
owning→past opening e = refl

is_owner_yes : (o : Option ℕ) (t : ℕ) → is_owner o t ≡ true → o ≡ some t
unfolding is_owner
is_owner_yes none t e = cc e
is_owner_yes (some u) t e = let same : u ≡ t = ground arith in ap some same

is_owner_no : (o : Option ℕ) (t : ℕ) → is_owner o t ≡ false → o ≢ some t
unfolding is_owner
is_owner_no none t e same = cc same
is_owner_no (some u) t e same = let eq : u ≡ t = cc same in ground arith

-- One thread at most has the flag, and the owner is the thread that says so.
record Exclusive (s : RecursiveLock) : Type 0 where
  alone : (t u : ℕ) → past (s.phase t) ≡ true → past (s.phase u) ≡ true → t ≡ u
  up : (t : ℕ) → past (s.phase t) ≡ true → s.flag ≡ true
  owns : (t : ℕ) → owning (s.phase t) ≡ true → s.owner ≡ some t
  owned : (t : ℕ) → s.owner ≡ some t → owning (s.phase t) ≡ true

-- A thread that is not the owner goes where it has no flag.
outside-Exclusive :
    (s : RecursiveLock) (t : ℕ) (p : Phase)
    → past p ≡ false
    → s.owner ≢ some t
    → Exclusive s
    → Exclusive (move_to s t p)
outside-Exclusive s t p out stranger ex = record {
  alone = λ a b ha hb. ex.alone a b (before a ha) (before b hb);
  up = λ a ha. ex.up a (before a ha);
  owns = λ a ha. elim (set_phase_cases s.phase t p a) [
    | inl (_, e) ↦
        let here : past p ≡ true = owning→past p (sym (ap owning e) ∙ ha) in cc (here, out)
    | inr (_, e) ↦ ex.owns a (sym (ap owning e) ∙ ha)
  ];
  owned = λ a ha. elim (set_phase_cases s.phase t p a) [
    | inl (same, e) ↦ absurd (stranger (ha ∙ ap some (sym same)))
    | inr (_, e) ↦ ap owning e ∙ ex.owned a ha
  ];
}
  where
    before : (a : ℕ) → past (set_phase s.phase t p a) ≡ true → past (s.phase a) ≡ true
    before a ha = elim (set_phase_cases s.phase t p a) [
      | inl (_, e) ↦ let here : past p ≡ true = sym (ap past e) ∙ ha in cc (here, out)
      | inr (_, e) ↦ sym (ap past e) ∙ ha
    ]

-- While no other thread has the flag, a thread may change the flag and the owner.
sole-Exclusive :
    (s : RecursiveLock) (t : ℕ) (p : Phase) (flag : Bool) (owner : Option ℕ)
    → ((u : ℕ) → t ≢ u → past (s.phase u) ≢ true)
    → (past p ≡ true → flag ≡ true)
    → (owning p ≡ true → owner ≡ some t)
    → ((u : ℕ) → owner ≡ some u → (t ≡ u) × (owning p ≡ true))
    → Exclusive (record { flag = flag; owner = owner; phase = set_phase s.phase t p })
sole-Exclusive s t p flag owner sole at_flag at_owner of_owner = record {
  alone = λ a b ha hb. sym (only a ha).0 ∙ (only b hb).0;
  up = λ a ha. at_flag (only a ha).1;
  owns = λ a ha.
      let (same, here) = only a (owning→past (set_phase s.phase t p a) ha) in
      let e : set_phase s.phase t p a ≡ p =
        ap (set_phase s.phase t p) (sym same) ∙ set_phase_self s.phase t p in
      at_owner (sym (ap owning e) ∙ ha) ∙ ap some same;
  owned = λ a ha.
      let (same, here) = of_owner a ha in
      ap owning (ap (set_phase s.phase t p) (sym same) ∙ set_phase_self s.phase t p) ∙ here;
}
  where
    only : (a : ℕ) → past (set_phase s.phase t p a) ≡ true → (t ≡ a) × (past p ≡ true)
    only a ha = elim (set_phase_cases s.phase t p a) [
      | inl (same, e) ↦ (same, sym (ap past e) ∙ ha)
      | inr (other, e) ↦ absurd (sole a other (sym (ap past e) ∙ ha))
    ]

-- The other threads do not have the flag that `t` has.
no_other :
    (s : RecursiveLock) (t : ℕ)
    → Exclusive s
    → past (s.phase t) ≡ true
    → (u : ℕ) → t ≢ u
    → past (s.phase u) ≢ true
no_other s t ex held u other held_u = other (ex.alone t u held held_u)

-- The owner goes on to another phase of an owner.
owner-Exclusive :
    (s : RecursiveLock) (t : ℕ) (p : Phase)
    → owning p ≡ true
    → s.owner ≡ some t
    → Exclusive s
    → Exclusive (move_to s t p)
owner-Exclusive s t p here own ex =
    let held = owning→past (s.phase t) (ex.owned t own) in
    sole-Exclusive s t p s.flag s.owner (no_other s t ex held) (λ _. ex.up t held) (λ _. own)
      (λ u e. let same : some t ≡ some u = sym own ∙ e in (cc same, here))

Step-Exclusive : {s s' : RecursiveLock} → Step s s' → Exclusive s → Exclusive s'
unfolding lock_test take_flag set_owner unlock_test clear_owner clear_flag past owning
Step-Exclusive (locks s t free) ex = elim (Bool-cases (is_owner s.owner t)) [
  | inl own ↦ rw own (owner-Exclusive s t inside refl (is_owner_yes s.owner t own) ex)
  | inr not ↦ rw not (outside-Exclusive s t waiting refl (is_owner_no s.owner t not) ex)
]
Step-Exclusive (tries s t waits) ex = elim (Bool-cases s.flag) [
  | inl up ↦ simp up ex
  | inr down ↦
      let nobody : (u : ℕ) → past (s.phase u) ≢ true = λ u held. cc (ex.up u held, down) in
      simp down (
        sole-Exclusive s t taken true s.owner (λ u _. nobody u) (λ _. refl)
          (λ impossible. cc impossible)
          (λ u e. absurd (nobody u (owning→past (s.phase u) (ex.owned u e)))))
]
Step-Exclusive (fails s t waits) ex = ex
Step-Exclusive (enters s t at) ex =
    let held : past (s.phase t) ≡ true = ap past at in
    sole-Exclusive s t inside s.flag (some t) (no_other s t ex held) (λ _. ex.up t held) (λ _. refl)
      (λ u e. (cc e, refl))
Step-Exclusive (unlocks s t free) ex = elim (Bool-cases (is_owner s.owner t)) [
  | inl own ↦ rw own (owner-Exclusive s t clearing refl (is_owner_yes s.owner t own) ex)
  | inr not ↦ rw not (outside-Exclusive s t idle refl (is_owner_no s.owner t not) ex)
]
Step-Exclusive (disowns s t at) ex =
    let held : past (s.phase t) ≡ true = ap past at in
    sole-Exclusive s t opening s.flag none (no_other s t ex held) (λ _. ex.up t held)
      (λ impossible. cc impossible) (λ u e. cc e)
Step-Exclusive (opens s t at) ex =
    let held : past (s.phase t) ≡ true = ap past at in
    sole-Exclusive s t idle false s.owner (no_other s t ex held) (λ impossible. cc impossible)
      (λ impossible. cc impossible)
      (λ u e.
        let own : owning (s.phase u) ≡ true = ex.owned u e in
        let same : t ≡ u = ex.alone t u held (owning→past (s.phase u) own) in
        let there : owning (s.phase u) ≡ false =
          ap (λ v. owning (s.phase v)) (sym same) ∙ ap owning at in
        cc (own, there))

Reachable-Exclusive : {s : RecursiveLock} → Reachable s → Exclusive s
unfolding new_lock past owning
Reachable-Exclusive start = record {
  alone = λ t u impossible. cc impossible;
  up = λ t impossible. cc impossible;
  owns = λ t impossible. cc impossible;
  owned = λ t impossible. cc impossible;
}
Reachable-Exclusive (next s s' reached step) = Step-Exclusive step (Reachable-Exclusive reached)

-- In every reachable state, however the threads' accesses interleave, at most one thread is between
-- the return of a call of `lock` and its next call of `unlock`; the flag is up and that thread is the owner, so that
-- its `unlock` goes on to clear both.
pub recursive_exclusion :
    (s : RecursiveLock)
    → Reachable s
    → (t u : ℕ) → s.phase t ≡ inside
    → s.phase u ≡ inside
    → (t ≡ u) × (s.flag ≡ true) × (s.owner ≡ some t) × ((unlock_test s t).phase t ≡ clearing)
unfolding past owning unlock_test is_owner
recursive_exclusion s reached t u at_t at_u =
    let ex = Reachable-Exclusive reached in
    let own = ex.owns t (ap owning at_t) in
    let self : (t == t) ≡ true = ground arith in
    (
      ex.alone t u (ap past at_t) (ap past at_u),
      ex.up t (ap past at_t),
      own,
      rw (own, self) (set_phase_self s.phase t clearing),
    )
