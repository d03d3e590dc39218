-- ===== src/Task.antt =====
-- Kernel/Src/mrtk_task.c: the life of a task, and how it gives up and gets the processor.
-- A cleanup handler is known by its address, and what it does by the parameter `call`.
-- The stack of a task and its entry function are not part of this state.
pub mod Timeout
pub mod Ready
pub mod Turn
pub mod Doubled
use micro_rt_kernel.Prelude.{
  ℕ, zero, suc, ◌+◌, ◌-◌, ◌/◌, ◌%◌, ◌^◌, Bool, true, false, not, ◌||◌, Option, none, some, ◌==◌,
  ltb, if◌then◌else◌, ◌>>=◌,
}
use micro_rt_kernel.DList
use micro_rt_kernel.Kernel.{
  Kernel, Tcb, TaskState, init, ready, running, suspend, close, Err, eok, error, einval, e_in_isr,
  null, ready_list, defunct_list, prio_levels, task_timer, set_tcb, set_timer, set_state,
  set_priority,
}
use micro_rt_kernel.Obj
use micro_rt_kernel.Obj.{obj_list, obj_init, obj_delete}
use micro_rt_kernel.Sched.{idle_priority, schedule, insert_task, remove_task, prio_ht}
use micro_rt_kernel.Timer.{
  tick_max, set_oneshot, set_time, timer_init, timer_start, timer_stop, timer_control, soft_check,
}
use micro_rt_kernel.Blocking.{reschedule_if}
use micro_rt_kernel.Mutex.{invalid_u8, unhold, force_release}

abbrev pub is_init : TaskState → Bool
is_init s = elim s [ init ↦ true | _ ↦ false ]

abbrev pub is_suspended : TaskState → Bool
is_suspended s = elim s [ suspend ↦ true | _ ↦ false ]

-- `READY` or `RUNNING`
abbrev pub is_runnable : TaskState → Bool
is_runnable s = elim s [ ready ↦ true | running ↦ true | _ ↦ false ]

-- The loop of `_mrtk_task_cleanup` over the held mutexes: `next` is read before the body runs.
unfoldable pub release_held : ℕ → ℕ → ℕ → ℕ → Bool → Kernel → Option (Bool × Kernel)
release_held zero task mutex next need k = none
release_held (suc fuel) task mutex next need k =
    let rest : Option (Bool × Kernel) = do
      r ← force_release fuel mutex (unhold mutex k)
      release_held fuel task next (r.1.held.next next) (r.0 || need) r.1
    in if mutex == task then some (need, k) else rest

-- `_mrtk_task_cleanup`
unfoldable pub cleanup : ℕ → ℕ → Kernel → Option (Bool × Kernel)
unfolding release_held
cleanup fuel task k =
    let k1 = (timer_stop (task_timer task) k).1 in
    let first = k1.held.next task in
    do
      r ← release_held fuel task first (k1.held.next first) false k1
      let k2 = r.1
      let state = (k2.tcb task).state
      let k3 =
          if is_runnable state
          then remove_task task k2
          else if is_suspended state
          then record k2 { sched = DList.remove task k2.sched }
          else k2
      some (r.0, set_state task close k3)

-- `_mrtk_task_timer_callback`
unfoldable pub timer_callback : ℕ → Kernel → Kernel
timer_callback task k =
    let k1 = record k { sched = DList.remove task k.sched } in
    let k2 = set_state task ready (insert_task task k1) in
    reschedule_if (prio_ht task k2.current k2) k2

-- The control block that `mrtk_task_init` writes.
abbrev pub new_tcb : ℕ → ℕ → Tcb
new_tcb priority tick =
    let ticks = if tick == 0 then 1000 / 10 else tick in
    record {
      priority = priority;
      state = init;
      init_tick = ticks;
      remain_tick = ticks;
      orig_prio = priority;
      last_error = eok;
      is_dynamic = false;
      event_set = 0;
      event_option = 0;
      event_recved = null;
      cleanup_handler = null;
    }

-- `mrtk_task_init`; `given` says whether the entry function and the stack are given
unfoldable pub task_init : ℕ → Bool → ℕ → ℕ → Kernel → Err × Kernel
task_init task given priority tick k =
    if (task == null) || not given || not (ltb priority prio_levels)
    then (einval, k)
    else let k1 = set_tcb task (new_tcb priority tick) (obj_init Obj.task task k) in
      let k2 = record k1 { sched = DList.init task k1.sched } in
      let cleared =
        set_timer (task_timer task) (record (k2.timer (task_timer task)) { timeout_tick = 0 }) k2 in
      let k3 = (timer_init (task_timer task) true true 0 false true cleared).1 in
      (
        eok,
        record k3 {
          held = DList.init task k3.held;
          objs = DList.insert_before (obj_list Obj.task) task k3.objs;
        },
      )

-- A cleanup handler runs if there is one.
abbrev pub call_handler : (ℕ → Kernel → Kernel) → ℕ → Kernel → Kernel
call_handler call task k =
    let handler = (k.tcb task).cleanup_handler in if handler == null then k else call handler k

abbrev pub bury : ℕ → Kernel → Kernel
bury task k = record k { sched = DList.insert_before defunct_list task k.sched }

-- `_mrtk_task_exit`
unfoldable pub task_exit : ℕ → (ℕ → Kernel → Kernel) → Kernel → Option Kernel
unfolding cleanup
task_exit fuel call k = do
  let task = k.current
  r ← cleanup fuel task (call_handler call task k)
  let k1 = r.1
  some (schedule (if (k1.tcb task).is_dynamic then bury task k1 else obj_delete task k1))

-- What `mrtk_task_detach` and `mrtk_task_delete` do to another task.
unfoldable pub remove_other :
    ℕ → (ℕ → Kernel → Kernel) → (Kernel → Kernel) → ℕ → Kernel → Option Kernel
unfolding cleanup
remove_other fuel call unlink task k = do
  r ← cleanup fuel task k
  some (reschedule_if r.0 (call_handler call task (unlink r.1)))

-- `mrtk_task_detach`
unfoldable pub detach : ℕ → (ℕ → Kernel → Kernel) → ℕ → Kernel → Option (Err × Kernel)
unfolding task_exit remove_other
detach fuel call task k =
    let other : Option (Err × Kernel) = do
      k1 ←
          if task == k.current
          then task_exit fuel call k
          else remove_other fuel call (obj_delete task) task k
      some (eok, k1)
    in if task == null then some (einval, k) else other

-- `mrtk_task_delete`
unfoldable pub delete : ℕ → (ℕ → Kernel → Kernel) → ℕ → Kernel → Option (Err × Kernel)
unfolding task_exit remove_other
delete fuel call task k =
    let other : Option (Err × Kernel) = do
      k1 ←
          if task == k.current
          then task_exit fuel call k
          else remove_other fuel call (bury task) task k
      some (eok, k1)
    in if task == null then some (einval, k) else other

-- Into the ready queue, and a switch if the task is more urgent than the current one.
unfoldable pub make_ready : ℕ → Kernel → Kernel
make_ready task k =
    let k1 = set_state task ready (insert_task task k) in
    reschedule_if (prio_ht task k1.current k1) k1

-- `mrtk_task_start`
unfoldable pub start : ℕ → Kernel → Err × Kernel
unfolding make_ready
start task k =
    if task == null
    then (einval, k)
    else if not (is_init (k.tcb task).state)
    then (error, k)
    else (eok, make_ready task k)

-- `mrtk_task_suspend`; a null argument is the current task
unfoldable pub task_suspend : ℕ → Kernel → Err × Kernel
task_suspend arg k =
    let task = if arg == null then k.current else arg in
    let k1 = remove_task task k in
    let k2 = set_state task suspend (record k1 { sched = DList.init task k1.sched }) in
    if not (is_runnable (k.tcb task).state)
    then (error, k)
    else (eok, reschedule_if (task == k.current) k2)

-- `mrtk_task_resume`
unfoldable pub task_resume : ℕ → Kernel → Err × Kernel
unfolding make_ready
task_resume task k =
    if task == null
    then (einval, k)
    else if not (is_suspended (k.tcb task).state)
    then (error, k)
    else (eok, make_ready task (timer_stop (task_timer task) k).1)

-- `mrtk_task_yield`
unfoldable pub yield : Kernel → Err × Kernel
yield k =
    let task = k.current in
    let head = ready_list (k.tcb task).priority in
    let k1 = record k { sched = DList.insert_before head task (DList.remove task k.sched) } in
    if ltb 0 k.interrupt_nest
    then (error, k)
    else if k.sched.next (k.sched.next head) == head
    then (eok, k)
    else (eok, schedule k1)

-- The part of `mrtk_task_delay` that puts the task to sleep.
unfoldable pub sleep : ℕ → ℕ → Kernel → Option Kernel
sleep fuel tick k = do
  let task = k.current
  let k1 = (timer_stop (task_timer task) (set_state task suspend (remove_task task k))).1
  r ← timer_control fuel (task_timer task) (set_time (some tick)) k1
  r' ← timer_control fuel (task_timer task) set_oneshot r.1
  r'' ← timer_start fuel (task_timer task) r'.1
  some (schedule r''.1)

-- `mrtk_task_delay`
unfoldable pub delay : ℕ → ℕ → Kernel → Option (Err × Kernel)
unfolding sleep yield
delay fuel tick k =
    let asleep : Option (Err × Kernel) = do k1 ← sleep fuel tick k; some (eok, k1)
    in if ltb 0 k.interrupt_nest
      then some (e_in_isr, k)
      else if tick == 0
      then some (yield k)
      else asleep

-- `mrtk_task_delay_until`; `*last_wakeup` is `none` for a null pointer, and the result's middle part
unfoldable pub delay_until : ℕ → Option ℕ → ℕ → Kernel → Option (Err × Option ℕ × Kernel)
unfolding delay
delay_until fuel none increment k = some (einval, none, k)
delay_until fuel (some last) increment k =
    let wakeup = (last + increment) % 2 ^ 32 in
    let later : Option (Err × Option ℕ × Kernel) = do
      r ← delay fuel ((wakeup + 2 ^ 32 - k.tick) % 2 ^ 32) k
      some (r.0, some wakeup, r.1)
    in if ltb 0 k.interrupt_nest
      then some (e_in_isr, some last, k)
      else if ltb ((k.tick + 2 ^ 32 - wakeup) % 2 ^ 32) (2 ^ 31)
      then some (eok, some wakeup, k)
      else later

-- The new priority of a task, which changes its queue if it stands in one.
unfoldable pub change_priority : ℕ → ℕ → Kernel → Kernel
change_priority task priority k =
    if is_runnable (k.tcb task).state
    then set_state task ready (insert_task task (set_priority task priority (remove_task task k)))
    else set_priority task priority k

-- `mrtk_task_set_priority`
unfoldable pub set_task_priority : ℕ → ℕ → Kernel → Err × Kernel
unfolding change_priority
set_task_priority task priority k =
    let k1 = change_priority task priority k in
    if (task == null) || not (ltb priority prio_levels)
    then (einval, k)
    else (eok, reschedule_if (prio_ht task k1.current k1) k1)

-- `mrtk_task_get_priority`
unfoldable pub get_task_priority : ℕ → Kernel → ℕ
get_task_priority task k = if task == null then invalid_u8 else (k.tcb task).priority

-- The commands of `mrtk_task_control`: `none` and null stand for a null argument.
pub data TaskCmd : Type 0 where
  set_prio : Option ℕ → TaskCmd
  get_prio : Bool → TaskCmd
  get_timer : TaskCmd
  set_cleanup : ℕ → TaskCmd
  other : TaskCmd

-- `mrtk_task_control`; beside the error, the number that a query writes through `arg`
unfoldable pub control : ℕ → TaskCmd → Kernel → Err × Option ℕ × Kernel
unfolding set_task_priority
control zero cmd k = (einval, none, k)
control task (set_prio none) k = (einval, none, k)
control task (set_prio (some priority)) k =
    let r = set_task_priority task (priority % 256) k in (r.0, none, r.1)
control task (get_prio false) k = (einval, none, k)
control task (get_prio true) k = (eok, some (k.tcb task).priority, k)
control task get_timer k = (eok, some (task_timer task), k)
control task (set_cleanup zero) k = (einval, none, k)
control task (set_cleanup handler) k =
    (eok, none, set_tcb task (record (k.tcb task) { cleanup_handler = handler }) k)
control task other k = (einval, none, k)

-- The inner loop of `mrtk_idle_task_entry`: the tasks whose memory it frees, in order.
unfoldable pub reap : ℕ → Kernel → Option Kernel
reap zero k = none
reap (suc fuel) k =
    let task = k.sched.next defunct_list in
    let k1 = obj_delete task k in
    let rest = reap fuel (record k1 { sched = DList.remove task k1.sched }) in
    if DList.is_empty defunct_list k.sched then some k else rest

-- `mrtk_task_init_idle`, for the idle task at `idle`; it does not wait for `mrtk_task_start`
unfoldable pub init_idle : ℕ → Kernel → Err × Kernel
unfolding task_init
init_idle idle k =
    let r = task_init idle true idle_priority tick_max k in
    elim r.0 [ eok ↦ (eok, set_state idle ready (insert_task idle r.1)) | err ↦ (err, r.1) ]

-- `mrtk_task_init_timer_daemon`, for the task at `daemon`
unfoldable pub init_timer_daemon : ℕ → Kernel → Err × Kernel
unfolding task_init
init_timer_daemon daemon k =
    let r = task_init daemon true 8 tick_max k in
    elim r.0 [ eok ↦ (eok, set_state daemon ready (insert_task daemon r.1)) | err ↦ (err, r.1) ]

-- One round of `mrtk_timer_daemon_entry`
unfoldable pub timer_daemon_round : ℕ → (ℕ → Kernel → Kernel) → Kernel → Option Kernel
unfolding yield
timer_daemon_round fuel callback k = do k1 ← soft_check fuel callback k; some (yield k1).1
