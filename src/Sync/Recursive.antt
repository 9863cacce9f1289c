-- ===== src/Sync/Recursive.antt =====
-- `RecursiveSmartLock` of MultiThreadAndMutex/BHSync.hpp: threads, named by numbers, take turns in
-- steps of one access to `owner` or `flag`. The accesses to `owner`, which is not atomic, are taken
-- to happen one after the other. Spinning, yielding and sleeping between two tries are left out.
pub mod Exclusion
use bhcpp_hptool_kit.Base.{ℕ, ◌≡◌, Bool, true, false, Option, none, some, if◌then◌else◌, ◌==◌}
use bhcpp_hptool_kit.Sync.Spin.{set_phase}

-- Outside, in the loop of `lock`, about to write `owner` there, after a call of `lock`, about to clear
-- `owner` in `unlock`, and about to clear `flag` there.
pub data Phase : Type 0 where
  idle waiting taken inside clearing opening : Phase

-- `owner` is `none` for the default thread id.
pub record RecursiveLock : Type 0 where
  pub flag : Bool
  pub owner : Option ℕ
  pub phase : ℕ → Phase

unfoldable pub new_lock : RecursiveLock
new_lock = record { flag = false; owner = none; phase = λ t. idle }

-- `owner == this_id`
unfoldable pub is_owner : Option ℕ → ℕ → Bool
is_owner none t = false
is_owner (some u) t = u == t

abbrev pub move_to : RecursiveLock → ℕ → Phase → RecursiveLock
move_to s t p = record s { phase = set_phase s.phase t p }

-- The test of `lock`: the owner returns at once.
unfoldable pub lock_test : RecursiveLock → ℕ → RecursiveLock
lock_test s t = if is_owner s.owner t then move_to s t inside else move_to s t waiting

-- A round of `spinLockLoop`
unfoldable pub take_flag : RecursiveLock → ℕ → RecursiveLock
take_flag s t = if s.flag then s else record (move_to s t taken) { flag = true }

-- `owner = this_id;`
unfoldable pub set_owner : RecursiveLock → ℕ → RecursiveLock
set_owner s t = record (move_to s t inside) { owner = some t }

-- The test of `unlock`: for any other thread it does nothing.
unfoldable pub unlock_test : RecursiveLock → ℕ → RecursiveLock
unlock_test s t = if is_owner s.owner t then move_to s t clearing else move_to s t idle

-- `owner = std::thread::id();`
unfoldable pub clear_owner : RecursiveLock → ℕ → RecursiveLock
clear_owner s t = record (move_to s t opening) { owner = none }

-- `SpinLockBase::unlock();`
unfoldable pub clear_flag : RecursiveLock → ℕ → RecursiveLock
clear_flag s t = record (move_to s t idle) { flag = false }

-- No call of the thread is under way.
unfoldable pub between_calls : Phase → Bool
between_calls idle = true
between_calls waiting = false
between_calls taken = false
between_calls inside = true
between_calls clearing = false
between_calls opening = false

-- A step of one thread. It may call `lock` again inside, and `unlock` outside. The exchange may fail
-- for no reason; that step changes nothing.
pub data Step : RecursiveLock → RecursiveLock → Type 0 where
  locks : (s : RecursiveLock) (t : ℕ) → between_calls (s.phase t) ≡ true → Step s (lock_test s t)
  tries : (s : RecursiveLock) (t : ℕ) → s.phase t ≡ waiting → Step s (take_flag s t)
  fails : (s : RecursiveLock) (t : ℕ) → s.phase t ≡ waiting → Step s s
  enters : (s : RecursiveLock) (t : ℕ) → s.phase t ≡ taken → Step s (set_owner s t)
  unlocks :
      (s : RecursiveLock) (t : ℕ) → between_calls (s.phase t) ≡ true → Step s (unlock_test s t)
  disowns : (s : RecursiveLock) (t : ℕ) → s.phase t ≡ clearing → Step s (clear_owner s t)
  opens : (s : RecursiveLock) (t : ℕ) → s.phase t ≡ opening → Step s (clear_flag s t)

pub data Reachable : RecursiveLock → Type 0 where
  start : Reachable new_lock
  next : (s s' : RecursiveLock) → Reachable s → Step s s' → Reachable s'
