-- ===== src/Mutex.antt =====
-- Kernel/Src/mrtk_mutex.c. The address of a mutex stands for its waiting list and its `held_node`,
-- the address of a task for its `held_mutex_list`.
-- `_mrtk_mutex_find_highest_inherited_prio` compares a waiting task with the bytes that follow a
-- local variable, `(mrtk_task_t *) &highest_prio`. What it finds there is a parameter, `stray`, by
-- the waiting task for which it looks.
pub mod Inherit
pub mod Nest
pub mod Handover
pub mod Asleep
use micro_rt_kernel.Prelude.{
  ℕ, zero, suc, ◌+◌, ◌-◌, ◌%◌, ◌^◌, Bool, true, false, not, ◌||◌, ◌&&◌, Option, none, some, ◌==◌,
  ltb, if◌then◌else◌, ◌>>=◌,
}
use micro_rt_kernel.DList
use micro_rt_kernel.Kernel.{
  Kernel, Err, eok, error, einval, eempty, e_in_isr, edeleted, null, task_timer, set_last_error,
  set_mutex,
}
use micro_rt_kernel.Obj
use micro_rt_kernel.Sched.{prio_ht, prio_change}
use micro_rt_kernel.Timer.{waiting_forever}
use micro_rt_kernel.Blocking.{Outcome, returned, blocked, reschedule_if, arm}
use micro_rt_kernel.Ipc.{ipc_obj_init, ipc_obj_delete, suspend_one, resume_one, resume_all}

-- `MRTK_INVALID_U8`, and the two values of `mrtk_mutex_state`
abbrev pub invalid_u8 : ℕ
invalid_u8 = 0xFF

abbrev pub unlocked : ℕ
unlocked = 0

abbrev pub locked : ℕ
locked = 1

-- The inner loop of `_mrtk_mutex_find_highest_inherited_prio`, over the tasks that wait for a mutex.
unfoldable pub scan_waiters : ℕ → (ℕ → ℕ) → ℕ → ℕ → ℕ → Kernel → Option ℕ
scan_waiters zero stray mutex waiter highest k = none
scan_waiters (suc fuel) stray mutex waiter highest k =
    let better =
      if ltb (k.tcb waiter).priority (stray waiter) then (k.tcb waiter).priority else highest in
    let rest = scan_waiters fuel stray mutex (k.sched.next waiter) better k in
    if waiter == mutex then some highest else rest

-- Its outer loop, over the mutexes that the task holds.
unfoldable pub scan_held : ℕ → (ℕ → ℕ) → ℕ → ℕ → ℕ → Kernel → Option ℕ
unfolding scan_waiters
scan_held zero stray task mutex highest k = none
scan_held (suc fuel) stray task mutex highest k =
    let rest : Option ℕ = do
      better ← scan_waiters fuel stray mutex (k.sched.next mutex) highest k
      scan_held fuel stray task (k.held.next mutex) better k
    in if mutex == task then some highest else rest

-- `_mrtk_mutex_find_highest_inherited_prio`
unfoldable pub find_highest_inherited_prio : ℕ → (ℕ → ℕ) → ℕ → Kernel → Option ℕ
unfolding scan_held
find_highest_inherited_prio fuel stray task k =
    scan_held fuel stray task (k.held.next task) (k.tcb task).orig_prio k

abbrev pub unhold : ℕ → Kernel → Kernel
unhold mutex k = record k { held = DList.remove mutex k.held }

abbrev pub hold : ℕ → ℕ → Kernel → Kernel
hold task mutex k = record k { held = DList.insert_before task mutex k.held }

-- `mrtk_mutex_init`
unfoldable pub init : ℕ → Bool → ℕ → Kernel → Err × Kernel
init mutex named flag k =
    if (mutex == null) || not named
    then (einval, k)
    else let k1 = ipc_obj_init Obj.mutex mutex mutex k in
      (
        eok,
        set_mutex mutex
            record {
              value = unlocked;
              orig_prio = invalid_u8;
              nest = 0;
              owner_task = null;
              flag = flag;
              is_dynamic = false;
            }
            (record k1 { held = DList.init mutex k1.held }),
      )

-- Taking the mutex from its owner, and the owner's priority after that: whether it changed.
unfoldable pub disown : ℕ → (ℕ → ℕ) → ℕ → Kernel → Option (Bool × Kernel)
unfolding find_highest_inherited_prio
disown fuel stray mutex k =
    let owner = (k.mutex mutex).owner_task in
    let k1 = unhold mutex k in
    let give_up : Option (Bool × Kernel) = do
      prio ← find_highest_inherited_prio fuel stray owner k1
      some (
          if (k1.tcb owner).priority == prio
          then (false, k1)
          else (true, prio_change owner prio k1))
    in if owner == null then some (false, k) else give_up

-- What `mrtk_mutex_detach` and `mrtk_mutex_delete` do to a mutex that they accept.
unfoldable pub dispose : ℕ → (ℕ → ℕ) → ℕ → Kernel → Option (Err × Kernel)
unfolding disown
dispose fuel stray mutex k = do
  r ← disown fuel stray mutex k
  r' ← ipc_obj_delete fuel mutex mutex r.1
  some (eok, reschedule_if (r.0 || r'.0) r'.1)

-- `mrtk_mutex_detach`, and `mrtk_mutex_delete` but for the release of the memory
unfoldable pub detach : ℕ → (ℕ → ℕ) → ℕ → Kernel → Option (Err × Kernel)
unfolding dispose
detach fuel stray mutex k =
    if (mutex == null) || (k.mutex mutex).is_dynamic
    then some (einval, k)
    else dispose fuel stray mutex k

unfoldable pub delete : ℕ → (ℕ → ℕ) → ℕ → Kernel → Option (Err × Kernel)
unfolding dispose
delete fuel stray mutex k =
    if (mutex == null) || not (k.mutex mutex).is_dynamic
    then some (einval, k)
    else dispose fuel stray mutex k

-- The priority of the owner becomes that of a more urgent task that is about to wait.
unfoldable pub inherit : ℕ → Kernel → Kernel
inherit mutex k =
    let owner = (k.mutex mutex).owner_task in
    if prio_ht k.current owner k then prio_change owner (k.tcb k.current).priority k else k

-- The fourth part of `mrtk_mutex_take`: the caller waits.
unfoldable pub wait : ℕ → ℕ → ℕ → Kernel → Option Kernel
unfolding inherit
wait fuel mutex timeout k = do
  k1 ←
      suspend_one fuel mutex (k.mutex mutex).flag k.current
        (inherit mutex (set_last_error k.current eok k))
  k2 ← if timeout == waiting_forever then some k1 else arm fuel k.current timeout k1
  some (reschedule_if true k2)

-- `mrtk_mutex_take`
unfoldable pub take : ℕ → ℕ → ℕ → Kernel → Option (Outcome × Kernel)
unfolding wait
take fuel mutex timeout k =
    let m = k.mutex mutex in
    let sleep : Option (Outcome × Kernel) = do k1 ← wait fuel mutex timeout k; some (blocked, k1)
    in if mutex == null
      then some (returned einval, k)
      else if not (timeout == 0) && not (k.interrupt_nest == 0)
      then some (returned e_in_isr, k)
      else if k.current == m.owner_task
      then some (returned eok, set_mutex mutex (record m { nest = (m.nest + 1) % 256 }) k)
      else if m.value == unlocked
      then some (
        returned eok,
        hold k.current mutex (
            set_mutex mutex
              (record m {
                value = locked;
                orig_prio = (k.tcb k.current).priority;
                nest = 1;
                owner_task = k.current;
              })
              k),
      )
      else if timeout == 0
      then some (returned eempty, k)
      else sleep

-- The second part of `mrtk_mutex_release`: nobody waits, and the mutex is free again.
unfoldable pub unlock : ℕ → (ℕ → ℕ) → ℕ → Kernel → Option Kernel
unfolding find_highest_inherited_prio
unlock fuel stray mutex k =
    let k1 = unhold mutex k in
    let task = k.current in
    do
      prio ← find_highest_inherited_prio fuel stray task k1
      let k2 = if (k1.tcb task).priority == prio then k1 else prio_change task prio k1
      some (
          set_mutex mutex
            (record (k2.mutex mutex) {
              orig_prio = invalid_u8;
              value = unlocked;
              owner_task = null;
            })
            k2)

-- Its third part: the mutex goes to the first task that waits.
unfoldable pub hand_over : ℕ → (ℕ → ℕ) → ℕ → Kernel → Option Kernel
unfolding find_highest_inherited_prio
hand_over fuel stray mutex k =
    let k1 = unhold mutex k in
    do
      prio ← find_highest_inherited_prio fuel stray k.current k1
      let k2 = prio_change k.current prio k1
      let heir = k2.sched.next mutex
      let r = resume_one mutex eok k2
      let k3 =
          set_mutex mutex
            (record (r.1.mutex mutex) {
              nest = 1;
              orig_prio = (r.1.tcb heir).priority;
              owner_task = heir;
            })
            r.1
      some (reschedule_if r.0 (set_last_error heir eok (hold heir mutex k3)))

-- `mrtk_mutex_release`
unfoldable pub release : ℕ → (ℕ → ℕ) → ℕ → Kernel → Option (Err × Kernel)
unfolding unlock hand_over
release fuel stray mutex k =
    let m = k.mutex mutex in
    let nest = (m.nest + 255) % 256 in
    let k1 = set_mutex mutex (record m { nest = nest }) k in
    let last : Option (Err × Kernel) = do
      k2 ←
          if DList.is_empty mutex k1.sched
          then unlock fuel stray mutex k1
          else hand_over fuel stray mutex k1
      some (eok, k2)
    in if mutex == null
      then some (einval, k)
      else if not (k.interrupt_nest == 0)
      then some (e_in_isr, k)
      else if (k.current == null) || not (k.current == m.owner_task)
      then some (error, k)
      else if ltb 0 nest
      then some (eok, k1)
      else last

-- `_mrtk_mutex_force_release`
unfoldable pub force_release : ℕ → ℕ → Kernel → Option (Bool × Kernel)
force_release fuel mutex k = resume_all fuel mutex edeleted (
    set_mutex mutex
      (record (k.mutex mutex) {
        orig_prio = invalid_u8;
        value = unlocked;
        owner_task = null;
        nest = 0;
      })
      k)

-- `mrtk_mutex_cmd_t`; a query has false for a null pointer.
pub data MutexCmd : Type 0 where
  get_owner get_nest get_orig_prio : Bool → MutexCmd
  other : MutexCmd

-- `mrtk_mutex_control`; beside the error, the number that a query writes through `arg`
unfoldable pub control : ℕ → MutexCmd → Kernel → Err × Option ℕ
control zero cmd k = (einval, none)
control mutex (get_owner false) k = (einval, none)
control mutex (get_owner true) k = (eok, some (k.mutex mutex).owner_task)
control mutex (get_nest false) k = (einval, none)
control mutex (get_nest true) k = (eok, some (k.mutex mutex).nest)
control mutex (get_orig_prio false) k = (einval, none)
control mutex (get_orig_prio true) k = (eok, some (k.mutex mutex).orig_prio)
control mutex other k = (error, none)
