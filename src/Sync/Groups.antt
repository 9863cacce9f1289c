-- ===== src/Sync/Groups.antt =====
-- `BHGCDController` of MultiThreadAndMutex/BHSync.hpp, the calls that give it work: each runs on a
-- thread of its own and, between its locks, without a step of another. A task is named by its
-- function; an id of -1 is `none`. The loop of the workers is not modelled.
pub mod Laws
pub mod Ids
use bhcpp_hptool_kit.Base.{
  ℕ, zero, suc, ◌+◌, ◌-◌, ◌%◌, ◌^◌, Bool, true, false, ◌&&◌, List, [], ◌∷◌, ◌++◌, Option, none,
  some, if◌then◌else◌, ltb, ◌==◌,
}
use bhcpp_hptool_kit.Base.Run.{Run, ok, fault, diverges, ◌>>=◌}
use bhcpp_hptool_kit.Sync.Semaphore.{release}

pub record TaskItem {ℓ} (F : Type ℓ) : Type ℓ where
  pub group_id : Option ℕ
  pub func : F
  pub is_barrier : Bool

-- The two locks are their flags; an absent entry of `group_active_task_count` is 0.
pub record Controller {ℓ} (F : Type ℓ) : Type ℓ where
  pub group_opt_lock : Bool
  pub group_id_callback : ℕ → Option F
  pub group_active_task_count : ℕ → ℕ
  pub exist_groups : List ℕ
  pub active_groups : List ℕ
  pub tasks_lock : Bool
  pub tasks_q : List (TaskItem F)
  pub tasks_sem : ℕ

-- `count(groupId)` and `find(groupId)` of a set
unfoldable pub contains : List ℕ → ℕ → Bool
contains [] g = false
contains (x ∷ groups) g = if x == g then true else contains groups g

-- `erase(groupId)` of a set
unfoldable pub without : List ℕ → ℕ → List ℕ
without [] g = []
without (x ∷ groups) g = let rest = without groups g in if x == g then rest else x ∷ rest

-- A map with the value `v` at `g`.
unfoldable pub put {ℓ} : {V : Type ℓ} → (ℕ → V) → ℕ → V → ℕ → V
put map g v h = if g == h then v else map h

-- The loop of `getGroupId`: `random i` is the `i`-th number drawn, and `left` more may be tried.
unfoldable pub draw_group : ℕ → (ℕ → ℕ) → List ℕ → ℕ → Option ℕ
draw_group zero random groups i = if contains groups (random i) then none else some (random i)
draw_group (suc left) random groups i =
    let further = draw_group left random groups (i + 1) in
    if contains groups (random i) then further else some (random i)

module _ {ℓ} {F : Type ℓ} where
  -- `_groupOptLock.lock()`: no other thread gives the lock back, so on a lock that is taken it spins for ever.
  unfoldable pub lock_groups : Controller F → Run (Controller F)
  lock_groups c =
      if c.group_opt_lock then fault diverges else ok (record c { group_opt_lock = true })

  unfoldable pub lock_tasks : Controller F → Run (Controller F)
  lock_tasks c = if c.tasks_lock then fault diverges else ok (record c { tasks_lock = true })

  -- `_tasksQ.emplace(task)` under its lock, and one more for the workers
  unfoldable pub submit : Controller F → TaskItem F → Run (Controller F)
  submit c task = do
    locked ← lock_tasks c
    ok (record locked {
      tasks_q = locked.tasks_q ++ task ∷ [];
      tasks_lock = false;
      tasks_sem = release locked.tasks_sem 1;
    })

  unfoldable pub enqueue : Controller F → F → Run (Controller F)
  enqueue c func = submit c (record { group_id = none; func = func; is_barrier = false })

  unfoldable pub enqueue_barrier : Controller F → F → Run (Controller F)
  enqueue_barrier c func = submit c (record { group_id = none; func = func; is_barrier = true })

  -- the end of `getGroupId`
  unfoldable pub add_group : Controller F → Option ℕ → Option ℕ × Controller F
  add_group c none = (none, record c { group_opt_lock = false })
  add_group c (some g) =
      (some g, record c { exist_groups = g ∷ c.exist_groups; group_opt_lock = false })

  unfoldable pub get_group_id : (ℕ → ℕ) → Controller F → Run (Option ℕ × Controller F)
  get_group_id random c = do
    locked ← lock_groups c
    ok (add_group locked (draw_group 100 random locked.exist_groups 0))

  -- The two ways to queue a task of no group while `_groupOptLock` is held.
  unfoldable pub enqueue_locked : Controller F → F → Run (Controller F)
  enqueue_locked c func = do queued ← enqueue c func; ok (record queued { group_opt_lock = false })

  -- `enqueueGroup` from the first lock on
  unfoldable pub enqueue_group_locked : Controller F → ℕ → F → Run (Controller F)
  enqueue_group_locked c g func =
      if contains c.exist_groups g
      then if contains c.active_groups g
        then enqueue_locked c func
        else submit
            (record c {
              group_active_task_count =
                  put c.group_active_task_count g ((c.group_active_task_count g + 1) % 2 ^ 32);
              group_opt_lock = false;
            })
            (record { group_id = some g; func = func; is_barrier = false })
      else enqueue_locked c func

  unfoldable pub enqueue_group : Controller F → ℕ → F → Run (Controller F)
  enqueue_group c g func = do locked ← lock_groups c; enqueue_group_locked locked g func

  unfoldable pub fire_group : Controller F → ℕ → Run (Bool × Controller F)
  fire_group c g = do
    locked ← lock_groups c
    ok (
        if ltb 0 (locked.group_active_task_count g)
        then (
          true,
          record locked {
            active_groups = g ∷ without locked.active_groups g;
            group_opt_lock = false;
          },
        )
        else (false, record locked { group_opt_lock = false }))

  -- `setCallbackForGroup` between its locks: `fireGroup` is called while the lock is held.
  unfoldable pub set_callback_locked : Controller F → ℕ → F → Bool → Run (Controller F)
  set_callback_locked c g func fire_instantly =
      if contains c.exist_groups g
      then (let known = record c { group_id_callback = put c.group_id_callback g (some func) } in
          if fire_instantly && ltb 0 (known.group_active_task_count g)
          then (do r ← fire_group known g; ok r.1)
          else ok known)
      else ok c

  unfoldable pub set_callback_for_group : Controller F → ℕ → F → Bool → Run (Controller F)
  set_callback_for_group c g func fire_instantly = do
    locked ← lock_groups c
    r ← set_callback_locked locked g func fire_instantly
    ok (record r { group_opt_lock = false })

  unfoldable pub erase_record_for_group_id : Controller F → ℕ → Controller F
  erase_record_for_group_id c g = record c {
    group_active_task_count = put c.group_active_task_count g 0;
    group_id_callback = put c.group_id_callback g none;
    exist_groups = without c.exist_groups g;
    active_groups = without c.active_groups g;
  }

  -- The end of `excueteGroupTask`, after the task has run: the callback that it calls, if any. A
  -- callback calls no method of the controller.
  unfoldable pub finish_group_task : Controller F → ℕ → Run (Option F × Controller F)
  finish_group_task c g = do
    locked ← lock_groups c
    let left = (locked.group_active_task_count g + 2 ^ 32 - 1) % 2 ^ 32
    let counted = record locked {
      group_active_task_count = put locked.group_active_task_count g left;
    }
    ok (
        if left == 0
        then (
          counted.group_id_callback g,
          record (erase_record_for_group_id counted g) { group_opt_lock = false },
        )
        else (none, record counted { group_opt_lock = false }))
