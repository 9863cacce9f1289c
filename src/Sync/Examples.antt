-- ===== src/Sync/Examples.antt =====
-- The locks, the semaphore and the group calls of BHSync on concrete threads.
use bhcpp_hptool_kit.Base.{
  ℕ, ◌+◌, ◌≤◌, ◌≡◌, ◌==◌, inl, inr, refl, arith, none, some, true, false, [], ◌∷◌, Bool-cases,
}
use bhcpp_hptool_kit.Sync.Spin.{Lock, Step, Reachable, mutual_exclusion}
use bhcpp_hptool_kit.Sync.ReadWrite.{RwLock, owns, writers_exclude, reader-meets-writer}
use bhcpp_hptool_kit.Sync.Recursive.{RecursiveLock}
use bhcpp_hptool_kit.Sync.Recursive.Exclusion.{recursive_exclusion}
use bhcpp_hptool_kit.Sync.Semaphore.{
  Semaphore, acquire_round, positive, acquired-conserved, acquire-proceeds, acquire-overdraws,
}
use bhcpp_hptool_kit.Sync.Groups.{Controller, contains, enqueue_group}
use bhcpp_hptool_kit.Sync.Groups.Laws.{Valid, Enqueued, queued, of_group, enqueue_group-Valid}
use bhcpp_hptool_kit.Base.Run.{Returns}
use bhcpp_hptool_kit.Sync.Semaphore
use bhcpp_hptool_kit.Sync.Spin
use bhcpp_hptool_kit.Sync.ReadWrite
use bhcpp_hptool_kit.Sync.Recursive

-- Thread 1 takes the lock.
abbrev one_waits : Lock
one_waits = record Spin.new_lock { phase = Spin.set_phase (λ t. Spin.idle) 1 Spin.waiting }

abbrev one_holds : Lock
one_holds = Spin.spin_round one_waits 1

one_holds-Reachable : Reachable one_holds
unfolding Spin.new_lock Spin.spin_round
one_holds-Reachable =
    Spin.next one_waits one_holds
      (Spin.next Spin.new_lock one_waits Spin.start (Spin.enter Spin.new_lock 1 refl))
      (Spin.round one_waits 1 refl)

one_phase : one_holds.phase 1 ≡ Spin.holding
unfolding Spin.new_lock Spin.spin_round
one_phase = refl

mutual_exclusion_example : ◌≡◌ {A = ℕ} 1 1
mutual_exclusion_example = mutual_exclusion one_holds one_holds-Reachable 1 1 one_phase one_phase

abbrev writer_waits : RwLock
writer_waits = ReadWrite.goes ReadWrite.new_lock 2 ReadWrite.waits_flag

abbrev writer_owns : RwLock
writer_owns = ReadWrite.flag_round writer_waits 2

writer_owns-Reachable : ReadWrite.Reachable writer_owns
unfolding ReadWrite.new_lock ReadWrite.flag_round
writer_owns-Reachable =
    ReadWrite.next writer_waits writer_owns
      (ReadWrite.next ReadWrite.new_lock writer_waits ReadWrite.start
        (ReadWrite.write_lock ReadWrite.new_lock 2 refl))
      (ReadWrite.try_flag writer_waits 2 refl)

writer_phase : owns (writer_owns.phase 2) ≡ true
unfolding ReadWrite.new_lock ReadWrite.flag_round
writer_phase = refl

writers_exclude_example : ◌≡◌ {A = ℕ} 2 2
writers_exclude_example =
    writers_exclude writer_owns writer_owns-Reachable 2 2 writer_phase writer_phase

reader-meets-writer_example :
    (s : RwLock) × ReadWrite.Reachable s
    × (s.phase 1 ≡ ReadWrite.reading)
    × (s.phase 2 ≡ ReadWrite.writing)
reader-meets-writer_example = reader-meets-writer 1 2 (omega arith)

-- Thread 1 is inside and calls `lock` again, while thread 2 tries.
abbrev one_enters : RecursiveLock
one_enters =
    Recursive.set_owner (Recursive.take_flag (Recursive.lock_test Recursive.new_lock 1) 1) 1

abbrev two_tries : RecursiveLock
two_tries = Recursive.take_flag (Recursive.lock_test (Recursive.lock_test one_enters 1) 2) 2

two_tries-Reachable : Recursive.Reachable two_tries
unfolding Recursive.new_lock Recursive.lock_test Recursive.take_flag Recursive.set_owner
    Recursive.is_owner Recursive.between_calls
two_tries-Reachable =
    let s1 = Recursive.lock_test Recursive.new_lock 1 in
    let s2 = Recursive.take_flag s1 1 in
    let s4 = Recursive.lock_test one_enters 1 in
    let s5 = Recursive.lock_test s4 2 in
    Recursive.next s5 two_tries
      (Recursive.next s4 s5
        (Recursive.next one_enters s4
          (Recursive.next s2 one_enters
            (Recursive.next s1 s2
              (Recursive.next Recursive.new_lock s1 Recursive.start
                (Recursive.locks Recursive.new_lock 1 refl))
              (Recursive.tries s1 1 refl))
            (Recursive.enters s2 1 refl))
          (Recursive.locks one_enters 1 refl))
        (Recursive.locks s4 2 refl))
      (Recursive.tries s5 2 refl)

one_inside : two_tries.phase 1 ≡ Recursive.inside
unfolding Recursive.new_lock Recursive.lock_test Recursive.take_flag Recursive.set_owner
    Recursive.is_owner
one_inside = refl

recursive_exclusion_example :
    (◌≡◌ {A = ℕ} 1 1)
    × (two_tries.flag ≡ true)
    × (two_tries.owner ≡ some 1)
    × ((Recursive.unlock_test two_tries 1).phase 1 ≡ Recursive.clearing)
recursive_exclusion_example =
    recursive_exclusion two_tries two_tries-Reachable 1 1 one_inside one_inside

-- Two are released and one is taken.
abbrev two_released : Semaphore
two_released = record { count = 2; acquired = 0; released = 2 }

abbrev one_taken : Semaphore
one_taken = record { count = 1; acquired = 1; released = 2 }

one_taken-Reachable : Semaphore.Reachable 0 one_taken
unfolding acquire_round positive Semaphore.release
one_taken-Reachable =
    Semaphore.next two_released one_taken
      (Semaphore.next (record { count = 0; acquired = 0; released = 0 }) two_released
        Semaphore.start (Semaphore.releases (record { count = 0; acquired = 0; released = 0 }) 2))
      (Semaphore.acquires two_released 1 refl)

acquired-conserved_example : (1 + 1 ≡ 0 + 2) × (1 ≤ 0 + 2)
acquired-conserved_example = acquired-conserved 0 one_taken one_taken-Reachable (omega arith)

acquire-proceeds_example : (c : ℕ) × (acquire_round 1 1 ≡ some c) × (c + 1 ≡ 1)
acquire-proceeds_example =
    acquire-proceeds 0 one_taken one_taken-Reachable (omega arith) (omega arith)

-- Group 5 has one task in the queue; functions are named by numbers.
abbrev one_grouped : Controller ℕ
one_grouped = record {
  group_opt_lock = false;
  group_id_callback = λ g. none;
  group_active_task_count = λ g. 1;
  exist_groups = 5 ∷ [];
  active_groups = [];
  tasks_lock = false;
  tasks_q = record { group_id = some 5; func = 70; is_barrier = false } ∷ [];
  tasks_sem = 1;
}

known_five : contains (5 ∷ []) 5 ≡ true
unfolding contains
known_five = refl

one_grouped-Valid : Valid one_grouped
unfolding queued of_group
one_grouped-Valid = record {
  groups_free = refl;
  tasks_free = refl;
  counted = refl;
  grouped = λ g. elim (Bool-cases (5 == g)) [
    | inl same ↦ rw same (omega arith)
    | inr other ↦ rw other (omega arith)
  ];
}

enqueue_group-Valid_example : Returns (enqueue_group one_grouped 5 72) (Enqueued one_grouped 5 72)
enqueue_group-Valid_example =
    enqueue_group-Valid one_grouped 5 72 one_grouped-Valid (omega arith) (omega arith)
