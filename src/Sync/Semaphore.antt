-- ===== src/Sync/Semaphore.antt =====
-- `AtomicSemaphore` of MultiThreadAndMutex/BHSync.hpp. `count` is an `int` of 32 bits in two's
-- complement, so from 2^31 on it is negative. Repeating, yielding and sleeping between two tries
-- change no shared state and are left out.
use bhcpp_hptool_kit.Base.{
  ℕ, ◌+◌, ◌-◌, ◌%◌, ◌^◌, ◌≤◌, ◌<◌, ◌≡◌, inl, inr, sym, ◌∙◌, arith, Bool, true, false, ◌&&◌, Option,
  none, some, if◌then◌else◌, ltb, Bool-cases,
}

-- `expected > 0`
unfoldable pub positive : ℕ → Bool
positive expected = ltb 0 expected && ltb expected (2 ^ 31)

-- `release(n)`
unfoldable pub release : ℕ → ℕ → ℕ
release count n = (count + n) % 2 ^ 32

-- One round of `acquire(n)`: the exchange, if the count is positive; `none` if it goes on.
unfoldable pub acquire_round : ℕ → ℕ → Option ℕ
acquire_round count n =
    if positive count then some ((count + 2 ^ 32 - n % 2 ^ 32) % 2 ^ 32) else none

-- The semaphore with what was acquired and released so far.
pub record Semaphore : Type 0 where
  pub count : ℕ
  pub acquired : ℕ
  pub released : ℕ

-- A step of some thread. The exchange may fail for no reason; that step changes nothing.
pub data Step : Semaphore → Semaphore → Type 0 where
  releases :
      (s : Semaphore) (n : ℕ)
      → Step s (record s { count = release s.count n; released = s.released + n })
  acquires :
      (s : Semaphore) (c : ℕ)
      → acquire_round s.count 1 ≡ some c
      → Step s (record s { count = c; acquired = s.acquired + 1 })
  fails : (s : Semaphore) → Step s s

pub data Reachable (init : ℕ) : Semaphore → Type 0 where
  start : Reachable init (record { count = init; acquired = 0; released = 0 })
  next : (s s' : Semaphore) → Reachable init s → Step s s' → Reachable init s'

positive→range : (count : ℕ) → positive count ≡ true → (0 < count) × (count < 2 ^ 31)
unfolding positive
positive→range count e = ground arith

range→positive : (count : ℕ) → 0 < count → count < 2 ^ 31 → positive count ≡ true
unfolding positive
range→positive count pos small = ground arith

acquire_round_lem :
    (count c : ℕ)
    → acquire_round count 1 ≡ some c
    → (0 < count) × (count < 2 ^ 31) × (count ≡ c + 1)
unfolding acquire_round positive
acquire_round_lem count c e = elim (Bool-cases (positive count)) [
  | inl go ↦
      let (pos, small) : (0 < count) × (count < 2 ^ 31) = positive→range count go in
      let value : (count + 2 ^ 32 - 1 % 2 ^ 32) % 2 ^ 32 ≡ count - 1 = omega arith in
      let step : acquire_round count 1 ≡ some (count - 1) = rw (go, value) in
      let same : some c ≡ some (count - 1) = sym e ∙ step in
      let eq : c ≡ count - 1 = cc same in (pos, small, omega arith)
  | inr stop ↦ let step : acquire_round count 1 ≡ none = rw stop in cc (e, step)
]

-- As long as less than `2 ^ 31` was put in, the count is what was put in less what calls of
-- `acquire()` took, so they never take more than there is.
pub acquired-conserved :
    (init : ℕ) (s : Semaphore)
    → Reachable init s
    → init + s.released < 2 ^ 31
    → (s.count + s.acquired ≡ init + s.released) × (s.acquired ≤ init + s.released)
unfolding release
acquired-conserved init _ start small = (omega arith, omega arith)
acquired-conserved init _ (next s _ r (releases _ n)) small =
    let (even, _) = acquired-conserved init s r (omega arith) in (omega arith, omega arith)
acquired-conserved init _ (next s _ r (acquires _ c e)) small =
    let (even, _) = acquired-conserved init s r small in
    let (pos, _, less) = acquire_round_lem s.count c e in (omega arith, omega arith)
acquired-conserved init _ (next s _ r (fails _)) small = acquired-conserved init s r small

-- As long as there is more put in than taken, less than `2 ^ 31` in all, the next round of a waiting
-- `acquire()` succeeds, if no other thread steps in between and the exchange does not fail for no reason.
pub acquire-proceeds :
    (init : ℕ) (s : Semaphore)
    → Reachable init s
    → init + s.released < 2 ^ 31
    → s.acquired < init + s.released
    → (c : ℕ) × (acquire_round s.count 1 ≡ some c) × (c + 1 ≡ s.count)
unfolding acquire_round positive
acquire-proceeds init s r small more =
    let (even, _) = acquired-conserved init s r small in
    let go : positive s.count ≡ true = range→positive s.count (omega arith) (omega arith) in
    (
      s.count - 1,
      let value : (s.count + 2 ^ 32 - 1 % 2 ^ 32) % 2 ^ 32 ≡ s.count - 1 = omega arith in
          rw (go, value),
      omega arith,
    )

-- `acquire(n)` with a positive count below `n` does not wait, and leaves a negative count.
pub acquire-overdraws :
    (count n : ℕ)
    → 0 < count
    → count < n
    → n < 2 ^ 31
    → (acquire_round count n ≡ some (2 ^ 32 - (n - count)))
      × (positive (2 ^ 32 - (n - count)) ≡ false)
unfolding acquire_round positive
acquire-overdraws count n pos less small =
    let go : positive count ≡ true = range→positive count pos (omega arith) in
    (
      let value : (count + 2 ^ 32 - n % 2 ^ 32) % 2 ^ 32 ≡ 2 ^ 32 - (n - count) = omega arith in
          rw (go, value),
      ground arith,
    )
