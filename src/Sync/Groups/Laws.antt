-- ===== src/Sync/Groups/Laws.antt =====
-- `BHGCDController`: what the calls that give it work keep, and where one of them waits for itself.
use bhcpp_hptool_kit.Base.{
  ℕ, ◌+◌, ◌%◌, ◌^◌, ◌≤◌, ◌<◌, ◌≡◌, ◌≢◌, Bool, ◌&&◌, not, inl, inr, refl, ◌∙◌, arith, true, false,
  List, [], ◌∷◌, ◌++◌, Option, none, some, if◌then◌else◌, ltb, ◌==◌, length, length-append,
  Bool-cases,
}
use bhcpp_hptool_kit.Base.Run.{ok, fault, diverges, Returns}
use bhcpp_hptool_kit.Sync.Semaphore.{release}
use bhcpp_hptool_kit.Sync.Groups.{
  TaskItem, Controller, contains, put, lock_groups, lock_tasks, submit, enqueue, enqueue_locked,
  enqueue_group_locked, enqueue_group, fire_group, set_callback_locked, set_callback_for_group,
}

put_self : (f : ℕ → ℕ) (g n : ℕ) → put f g n g ≡ n
unfolding put
put_self f g n = let e : (g == g) ≡ true = ground arith in rw e refl

put_other : (f : ℕ → ℕ) (g n h : ℕ) → g ≢ h → put f g n h ≡ f h
unfolding put
put_other f g n h other = let e : (g == h) ≡ false = ground arith in rw e refl

module _ {ℓ} {F : Type ℓ} where
  -- The task is one of the group.
  unfoldable pub of_group : ℕ → TaskItem F → ℕ
  of_group g task = elim task.group_id [ none ↦ 0 | some h ↦ if h == g then 1 else 0 ]

  -- How many tasks of the group are in the queue.
  unfoldable pub queued : ℕ → List (TaskItem F) → ℕ
  queued g [] = 0
  queued g (task ∷ tasks) = of_group g task + queued g tasks

  -- No call is under way, the semaphore counts the queue, and no group has more tasks in the queue
  -- than its count says.
  pub record Valid (c : Controller F) : Type 0 where
    pub groups_free : c.group_opt_lock ≡ false
    pub tasks_free : c.tasks_lock ≡ false
    pub counted : c.tasks_sem ≡ length c.tasks_q
    pub grouped : (g : ℕ) → queued g c.tasks_q ≤ c.group_active_task_count g

  queued-append :
      (g : ℕ) (tasks : List (TaskItem F)) (task : TaskItem F)
      → queued g (tasks ++ task ∷ []) ≡ queued g tasks + of_group g task
  unfolding queued
  queued-append g [] task = omega arith
  queued-append g (t ∷ tasks) task = omega (arith, queued-append g tasks task)

  -- `setCallbackForGroup` with its default argument never returns for a group that has tasks: it calls
  -- `fireGroup`, which waits for the lock that it holds itself.
  pub set_callback-deadlocks :
      (c : Controller F) (g : ℕ) (func : F)
      → c.group_opt_lock ≡ false
      → contains c.exist_groups g ≡ true
      → 0 < c.group_active_task_count g
      → set_callback_for_group c g func true ≡ fault diverges
  unfolding set_callback_for_group set_callback_locked fire_group lock_groups
  set_callback-deadlocks c g func free known busy =
      let more : ltb 0 (c.group_active_task_count g) ≡ true = ground arith in rw (free, known, more)

  submit_lem :
      (c : Controller F) (task : TaskItem F)
      → c.tasks_lock ≡ false
      → submit c task
        ≡ ok (record c {
          tasks_q = c.tasks_q ++ task ∷ [];
          tasks_lock = false;
          tasks_sem = release c.tasks_sem 1;
        })
  unfolding submit lock_tasks
  submit_lem c task free = rw free

  -- A task of no group, or of the group `g`.
  abbrev task_of : Option ℕ → F → TaskItem F
  task_of id func = record { group_id = id; func = func; is_barrier = false }

  -- The controller with one more task, and the counts `counts`.
  abbrev with_task : Controller F → TaskItem F → (ℕ → ℕ) → Controller F
  with_task c task counts = record c {
    group_opt_lock = false;
    group_active_task_count = counts;
    tasks_q = c.tasks_q ++ task ∷ [];
    tasks_lock = false;
    tasks_sem = release c.tasks_sem 1;
  }

  with_task-Valid :
      (c : Controller F) (task : TaskItem F) (counts : ℕ → ℕ)
      → Valid c
      → length c.tasks_q + 1 < 2 ^ 31
      → ((g : ℕ) → c.group_active_task_count g + of_group g task ≤ counts g)
      → Valid (with_task c task counts)
  unfolding release
  with_task-Valid c task counts valid room more = record {
    groups_free = refl;
    tasks_free = refl;
    counted = omega (arith, valid.counted, length-append c.tasks_q (task ∷ []));
    grouped = λ g. omega (arith, valid.grouped g, more g, queued-append g c.tasks_q task);
  }

  one_more :
      (c : Controller F) (g : ℕ) (func : F)
      → c.group_active_task_count g + 1 < 2 ^ 32
      → (h : ℕ)
      → c.group_active_task_count h + of_group h (task_of (some g) func)
        ≤ put c.group_active_task_count g ((c.group_active_task_count g + 1) % 2 ^ 32) h
  unfolding of_group put
  one_more c g func room h = elim (Bool-cases (g == h)) [
    | inl same ↦ let e : g ≡ h = ground arith in rw (same, ← e) (omega arith)
    | inr other ↦ rw other (omega arith)
  ]

  -- The group exists, and its callback does not run.
  abbrev pub accepts : Controller F → ℕ → Bool
  accepts c g = contains c.exist_groups g && not (contains c.active_groups g)

  -- What `enqueueGroup` leaves: the counts and the one task more.
  abbrev pub Enqueued : Controller F → ℕ → F → Controller F → Type ℓ
  Enqueued c g func r =
      Valid r
      × (r.tasks_q
          ≡ c.tasks_q
            ++ record {
              group_id = if accepts c g then some g else none;
              func = func;
              is_barrier = false;
            }
              ∷ [])
      × (r.group_active_task_count g
          ≡ (if accepts c g then c.group_active_task_count g + 1 else c.group_active_task_count g))
      × ((h : ℕ) → g ≢ h → r.group_active_task_count h ≡ c.group_active_task_count h)

  -- In a valid controller, with fewer than `2 ^ 31 - 1` tasks in the queue and a count of the group
  -- below `2 ^ 32 - 1`, `enqueueGroup` returns, puts exactly one task with the function at the end of
  -- the queue, and the controller stays valid. If the group exists and is not active, the task has
  -- the group's id and the group's count goes up by one; otherwise it has no group, and the count
  -- stays. No other group's count changes.
  pub enqueue_group-Valid :
      (c : Controller F) (g : ℕ) (func : F)
      → Valid c
      → length c.tasks_q + 1 < 2 ^ 31
      → c.group_active_task_count g + 1 < 2 ^ 32
      → Returns (enqueue_group c g func) (Enqueued c g func)
  unfolding enqueue_group enqueue_group_locked enqueue_locked enqueue submit lock_groups lock_tasks
      of_group
  enqueue_group-Valid c g func valid room count_room =
      let plain = task_of none func in
      let plain_result = with_task c plain c.group_active_task_count in
      let plain_Valid =
        with_task-Valid c plain c.group_active_task_count valid room (λ h. omega arith) in
      let task = task_of (some g) func in
      let count = (c.group_active_task_count g + 1) % 2 ^ 32 in
      let counts = put c.group_active_task_count g count in
      let g_free = valid.groups_free in
      let t_free = valid.tasks_free in
      elim (Bool-cases (contains c.exist_groups g)) [
        | inr unknown ↦ (
          plain_result,
          rw (g_free, unknown, t_free),
          (plain_Valid, rw unknown refl, rw unknown refl, λ h other. refl),
        )
        | inl known ↦ elim (Bool-cases (contains c.active_groups g)) [
          | inl active ↦ (
            plain_result,
            rw (g_free, known, active, t_free),
            (plain_Valid, rw (known, active) refl, rw (known, active) refl, λ h other. refl),
          )
          | inr waits ↦ (
            with_task c task counts,
            rw (g_free, known, waits, t_free),
            (
              with_task-Valid c task counts valid room (one_more c g func count_room),
              rw (known, waits) refl,
              rw (known, waits) (put_self c.group_active_task_count g count ∙ omega arith),
              put_other c.group_active_task_count g count,
            ),
          )
        ]
      ]
