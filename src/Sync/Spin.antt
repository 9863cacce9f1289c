-- ===== src/Sync/Spin.antt =====
-- `SpinLockBase` and `SmartLock` of MultiThreadAndMutex/BHSync.hpp: threads, named by numbers, take
-- turns in steps of one atomic operation. How long a thread spins, yields and sleeps between two
-- tries changes no shared state, so it is left out.
use bhcpp_hptool_kit.Base.{
  ℕ, ◌≡◌, ◌≢◌, ◌⊎◌, inl, inr, refl, sym, ◌∙◌, arith, Bool, true, false, if◌then◌else◌, ◌==◌,
  Bool-cases,
}

-- The phase `p` for thread `t`, and for every other what it was.
abbrev pub set_phase {ℓ} : {P : Type ℓ} → (ℕ → P) → ℕ → P → ℕ → P
set_phase phase t p u = if t == u then p else phase u

-- Outside, in the loop of `lock`, or between `lock` and `unlock`.
pub data Phase : Type 0 where
  idle waiting holding : Phase

pub record Lock : Type 0 where
  pub flag : Bool
  pub phase : ℕ → Phase

unfoldable pub new_lock : Lock
new_lock = record { flag = false; phase = λ t. idle }

-- One round of `spinLockLoop`: `compare_exchange_weak` from `false` to `true`.
unfoldable pub spin_round : Lock → ℕ → Lock
spin_round s t = if s.flag then s else record { flag = true; phase = set_phase s.phase t holding }

-- `unlock`
unfoldable pub unlock : Lock → ℕ → Lock
unlock s t = record { flag = false; phase = set_phase s.phase t idle }

-- A step of one thread. The exchange may fail for no reason; that step changes nothing.
pub data Step : Lock → Lock → Type 0 where
  enter :
      (s : Lock) (t : ℕ)
      → s.phase t ≡ idle
      → Step s (record s { phase = set_phase s.phase t waiting })
  round : (s : Lock) (t : ℕ) → s.phase t ≡ waiting → Step s (spin_round s t)
  fails : (s : Lock) (t : ℕ) → s.phase t ≡ waiting → Step s s
  leave : (s : Lock) (t : ℕ) → s.phase t ≡ holding → Step s (unlock s t)

pub data Reachable : Lock → Type 0 where
  start : Reachable new_lock
  next : (s s' : Lock) → Reachable s → Step s s' → Reachable s'

-- Who holds the lock is alone, and the flag is up.
abbrev Exclusive : Lock → Type 0
Exclusive s =
    ((t u : ℕ) → s.phase t ≡ holding → s.phase u ≡ holding → t ≡ u)
    × ((t : ℕ) → s.phase t ≡ holding → s.flag ≡ true)

-- A thread that holds after a change of phase is the changed one, or held before.
pub set_phase_cases {ℓ} :
    {P : Type ℓ} (phase : ℕ → P) (t : ℕ) (p : P) (u : ℕ)
    → ((t ≡ u) × (set_phase phase t p u ≡ p)) ⊎ ((t ≢ u) × (set_phase phase t p u ≡ phase u))
set_phase_cases phase t p u = elim (Bool-cases (t == u)) [
  | inl e ↦ inl (ground arith, rw e refl)
  | inr e ↦ inr (ground arith, rw e refl)
]

pub set_phase_self {ℓ} : {P : Type ℓ} (phase : ℕ → P) (t : ℕ) (p : P) → set_phase phase t p t ≡ p
set_phase_self phase t p = let e : (t == t) ≡ true = ground arith in rw e refl

pub set_phase_other {ℓ} :
    {P : Type ℓ} (phase : ℕ → P) (t : ℕ) (p : P) (u : ℕ) → t ≢ u → set_phase phase t p u ≡ phase u
set_phase_other phase t p u apart = let e : (t == u) ≡ false = ground arith in rw e refl

-- No thread holds while the flag is down.
none_holds : (s : Lock) → Exclusive s → s.flag ≡ false → (t : ℕ) → s.phase t ≢ holding
none_holds s (_, up) down t held = cc (up t held, down)

Step-Exclusive : {s s' : Lock} → Step s s' → Exclusive s → Exclusive s'
unfolding spin_round unlock
Step-Exclusive (enter s t idle_t) (alone, up) =
    (λ a b ha hb. alone a b (before a ha) (before b hb), λ a ha. up a (before a ha))
  where
    before : (a : ℕ) → set_phase s.phase t waiting a ≡ holding → s.phase a ≡ holding
    before a ha = elim (set_phase_cases s.phase t waiting a) [
      | inl (_, e) ↦ cc (ha, e)
      | inr (_, e) ↦ sym e ∙ ha
    ]
Step-Exclusive (fails s t waits) ex = ex
Step-Exclusive (round s t waits) ex = elim (Bool-cases s.flag) [
  | inl up ↦ simp up (ex.0, λ a ha. refl)
  | inr down ↦ simp down (λ a b ha hb. sym (only down a ha) ∙ only down b hb, λ a ha. refl)
]
  where
    only : s.flag ≡ false → (a : ℕ) → set_phase s.phase t holding a ≡ holding → t ≡ a
    only down a ha = elim (set_phase_cases s.phase t holding a) [
      | inl (same, _) ↦ same
      | inr (_, e) ↦ absurd (none_holds s ex down a (sym e ∙ ha))
    ]
Step-Exclusive (leave s t held) ex =
    (λ a b ha hb. absurd (nobody a ha), λ a ha. absurd (nobody a ha))
  where
    nobody : (a : ℕ) → set_phase s.phase t idle a ≢ holding
    nobody a ha = elim (set_phase_cases s.phase t idle a) [
      | inl (_, e) ↦ cc (ha, e)
      | inr (other, e) ↦ other (ex.0 t a held (sym e ∙ ha))
    ]

Reachable-Exclusive : {s : Lock} → Reachable s → Exclusive s
unfolding new_lock
Reachable-Exclusive start = (λ t u impossible. cc impossible, λ t impossible. cc impossible)
Reachable-Exclusive (next s s' reached step) = Step-Exclusive step (Reachable-Exclusive reached)

-- In every reachable state at most one thread is between `lock` and `unlock`.
pub mutual_exclusion :
    (s : Lock) → Reachable s → (t u : ℕ) → s.phase t ≡ holding → s.phase u ≡ holding → t ≡ u
mutual_exclusion s reached = (Reachable-Exclusive reached).0
