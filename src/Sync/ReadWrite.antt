-- ===== src/Sync/ReadWrite.antt =====
-- `RWSmartLock` of MultiThreadAndMutex/BHSync.hpp: threads take turns in steps of one atomic
-- operation. `readLock` has two of them, the last load of the flag and the count.
use bhcpp_hptool_kit.Base.{
  ℕ, ◌+◌, ◌-◌, ◌≡◌, ◌≢◌, inl, inr, refl, sym, ◌∙◌, ap, Bool, true, false, if◌then◌else◌, ◌==◌,
  Bool-cases,
}
use bhcpp_hptool_kit.Sync.Spin.{set_phase, set_phase_cases, set_phase_self, set_phase_other}

-- `waits_flag` and `waits_readers` are the two loops of `spinLockWriting`; `waits_writer` is
-- `spinLoopForReadable`, after which `readLock` has still to count.
pub data Phase : Type 0 where
  idle waits_flag waits_readers writing waits_writer passed reading : Phase

pub record RwLock : Type 0 where
  pub flag : Bool
  pub read_count : ℕ
  pub phase : ℕ → Phase

unfoldable pub new_lock : RwLock
new_lock = record { flag = false; read_count = 0; phase = λ t. idle }

abbrev pub goes : RwLock → ℕ → Phase → RwLock
goes s t p = record s { phase = set_phase s.phase t p }

-- the exchange of the first loop of `spinLockWriting`
unfoldable pub flag_round : RwLock → ℕ → RwLock
flag_round s t = if s.flag then s else record (goes s t waits_readers) { flag = true }

-- the load of the second loop
unfoldable pub readers_round : RwLock → ℕ → RwLock
readers_round s t = if s.read_count == 0 then goes s t writing else s

unfoldable pub write_unlock : RwLock → ℕ → RwLock
write_unlock s t = record (goes s t idle) { flag = false }

-- the load of `spinLoopForReadable`
unfoldable pub readable_round : RwLock → ℕ → RwLock
readable_round s t = if s.flag then s else goes s t passed

-- `readCount.fetch_add(1)`
unfoldable pub count_reader : RwLock → ℕ → RwLock
count_reader s t = record (goes s t reading) { read_count = s.read_count + 1 }

unfoldable pub read_unlock : RwLock → ℕ → RwLock
read_unlock s t = record (goes s t idle) { read_count = s.read_count - 1 }

pub data Step : RwLock → RwLock → Type 0 where
  write_lock : (s : RwLock) (t : ℕ) → s.phase t ≡ idle → Step s (goes s t waits_flag)
  try_flag : (s : RwLock) (t : ℕ) → s.phase t ≡ waits_flag → Step s (flag_round s t)
  try_flag_fails : (s : RwLock) (t : ℕ) → s.phase t ≡ waits_flag → Step s s
  try_readers : (s : RwLock) (t : ℕ) → s.phase t ≡ waits_readers → Step s (readers_round s t)
  end_write : (s : RwLock) (t : ℕ) → s.phase t ≡ writing → Step s (write_unlock s t)
  read_lock : (s : RwLock) (t : ℕ) → s.phase t ≡ idle → Step s (goes s t waits_writer)
  try_read : (s : RwLock) (t : ℕ) → s.phase t ≡ waits_writer → Step s (readable_round s t)
  add_reader : (s : RwLock) (t : ℕ) → s.phase t ≡ passed → Step s (count_reader s t)
  end_read : (s : RwLock) (t : ℕ) → s.phase t ≡ reading → Step s (read_unlock s t)

pub data Reachable : RwLock → Type 0 where
  start : Reachable new_lock
  next : (s s' : RwLock) → Reachable s → Step s s' → Reachable s'

-- A phase between the exchange that raises the flag and `writeUnlock`.
abbrev pub owns : Phase → Bool
owns waits_readers = true
owns writing = true
owns _ = false

abbrev Exclusive : RwLock → Type 0
Exclusive s =
    ((t u : ℕ) → owns (s.phase t) ≡ true → owns (s.phase u) ≡ true → t ≡ u)
    × ((t : ℕ) → owns (s.phase t) ≡ true → s.flag ≡ true)

-- A change of phase of a thread that does not make it an owner makes no owner.
owns_before :
    (phase : ℕ → Phase) (t : ℕ) (p : Phase) (a : ℕ)
    → (owns p ≡ true → owns (phase t) ≡ true)
    → owns (set_phase phase t p a) ≡ true
    → owns (phase a) ≡ true
owns_before phase t p a kept ha = elim (set_phase_cases phase t p a) [
  | inl (same, e) ↦ cc (kept (sym (ap owns e) ∙ ha), same)
  | inr (_, e) ↦ sym (ap owns e) ∙ ha
]

-- Such a step keeps the writers apart, whatever it does to the count.
quiet :
    (s : RwLock) (t : ℕ) (p : Phase) (n : ℕ)
    → (owns p ≡ true → owns (s.phase t) ≡ true)
    → Exclusive s
    → Exclusive (record { flag = s.flag; read_count = n; phase = set_phase s.phase t p })
quiet s t p n kept (alone, up) = (
  λ a b ha hb. alone a b (owns_before s.phase t p a kept ha) (owns_before s.phase t p b kept hb),
  λ a ha. up a (owns_before s.phase t p a kept ha),
)

Step-Exclusive : {s s' : RwLock} → Step s s' → Exclusive s → Exclusive s'
unfolding flag_round readers_round write_unlock readable_round count_reader read_unlock
Step-Exclusive (write_lock s t here) ex = quiet s t waits_flag s.read_count (λ e. cc e) ex
Step-Exclusive (try_flag_fails s t here) ex = ex
Step-Exclusive (try_readers s t here) ex = elim (Bool-cases (s.read_count == 0)) [
  | inl none ↦ simp none (quiet s t writing s.read_count (λ e. ap owns here) ex)
  | inr some_read ↦ simp some_read ex
]
Step-Exclusive (read_lock s t here) ex = quiet s t waits_writer s.read_count (λ e. cc e) ex
Step-Exclusive (try_read s t here) ex = elim (Bool-cases s.flag) [
  | inl up ↦ simp up (ex.0, λ a ha. refl)
  | inr down ↦
      let kept = quiet s t passed s.read_count (λ e. cc e) ex in
      simp down (kept.0, λ a ha. cc (kept.1 a ha, down))
]
Step-Exclusive (add_reader s t here) ex = quiet s t reading (s.read_count + 1) (λ e. cc e) ex
Step-Exclusive (end_read s t here) ex = quiet s t idle (s.read_count - 1) (λ e. cc e) ex
Step-Exclusive (try_flag s t here) ex = elim (Bool-cases s.flag) [
  | inl up ↦ simp up (ex.0, λ a ha. refl)
  | inr down ↦ simp down (λ a b ha hb. sym (only down a ha) ∙ only down b hb, λ a ha. refl)
]
  where
    only : s.flag ≡ false → (a : ℕ) → owns (set_phase s.phase t waits_readers a) ≡ true → t ≡ a
    only down a ha = elim (set_phase_cases s.phase t waits_readers a) [
      | inl (same, _) ↦ same
      | inr (_, e) ↦ cc (ex.1 a (sym (ap owns e) ∙ ha), down)
    ]
Step-Exclusive (end_write s t here) ex =
    (λ a b ha hb. absurd (nobody a ha), λ a ha. absurd (nobody a ha))
  where
    nobody : (a : ℕ) → owns (set_phase s.phase t idle a) ≢ true
    nobody a ha = elim (set_phase_cases s.phase t idle a) [
      | inl (_, e) ↦ cc (sym (ap owns e) ∙ ha)
      | inr (other, e) ↦ other (ex.0 t a (ap owns here) (sym (ap owns e) ∙ ha))
    ]

Reachable-Exclusive : {s : RwLock} → Reachable s → Exclusive s
unfolding new_lock
Reachable-Exclusive start = (λ t u impossible. cc impossible, λ t impossible. cc impossible)
Reachable-Exclusive (next s s' reached step) = Step-Exclusive step (Reachable-Exclusive reached)

-- In every reachable state at most one thread has raised the flag and not yet unlocked, so writers
-- exclude each other.
pub writers_exclude :
    (s : RwLock)
    → Reachable s
    → (t u : ℕ) → owns (s.phase t) ≡ true
    → owns (s.phase u) ≡ true
    → t ≡ u
writers_exclude s reached = (Reachable-Exclusive reached).0

-- A reader that has loaded the flag but not yet counted itself does not stop a writer: for every
-- two threads there is a reachable state in which one reads while the other writes.
pub reader-meets-writer :
    (r w : ℕ) → r ≢ w → (s : RwLock) × Reachable s × (s.phase r ≡ reading) × (s.phase w ≡ writing)
unfolding new_lock flag_round readers_round readable_round count_reader
reader-meets-writer r w apart =
    let s1 = goes new_lock r waits_writer in
    let s2 = readable_round s1 r in
    let s3 = goes s2 w waits_flag in
    let s4 = flag_round s3 w in
    let s5 = readers_round s4 w in
    let s6 = count_reader s5 r in
    let r1 = next new_lock s1 start (read_lock new_lock r refl) in
    let r2 = next s1 s2 r1 (try_read s1 r (set_phase_self new_lock.phase r waits_writer)) in
    let idle_w : s2.phase w ≡ idle =
      set_phase_other s1.phase r passed w apart
      ∙ set_phase_other new_lock.phase r waits_writer w apart in
    let r3 = next s2 s3 r2 (write_lock s2 w idle_w) in
    let r4 = next s3 s4 r3 (try_flag s3 w (set_phase_self s2.phase w waits_flag)) in
    let r5 = next s4 s5 r4 (try_readers s4 w (set_phase_self s3.phase w waits_readers)) in
    let back : w ≢ r = λ e. apart (sym e) in
    let passed_r : s5.phase r ≡ passed =
      set_phase_other s4.phase w writing r back
      ∙ (set_phase_other s3.phase w waits_readers r back
          ∙ (set_phase_other s2.phase w waits_flag r back ∙ set_phase_self s1.phase r passed)) in
    (
      s6,
      next s5 s6 r5 (add_reader s5 r passed_r),
      set_phase_self s5.phase r reading,
      set_phase_other s5.phase r reading w apart ∙ set_phase_self s4.phase w writing,
    )
