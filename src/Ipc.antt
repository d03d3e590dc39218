-- ===== src/Ipc.antt =====
-- Kernel/Src/mrtk_ipc_obj.c: how tasks are put to sleep on an object and woken.
pub mod Wait
pub mod Wake
pub mod Suspend
pub mod ResumeAll
use micro_rt_kernel.Prelude.{
  ℕ, zero, suc, Bool, true, false, not, ◌||◌, Option, none, some, ◌==◌, bit_and, if◌then◌else◌,
  ◌>>=◌,
}
use micro_rt_kernel.DList
use micro_rt_kernel.Kernel.{
  Kernel, TaskState, Err, suspend, ready, edeleted, task_timer, set_state, set_last_error,
}
use micro_rt_kernel.Obj.{ObjType, obj_init, obj_delete}
use micro_rt_kernel.Sched.{insert_task, remove_task, prio_ht, prio_lt}
use micro_rt_kernel.Timer.{timer_stop}

-- `MRTK_IPC_FLAG_NOTIFY_POLICY_FIFO` and `MRTK_IPC_FLAG_NOTIFY_POLICY_PRIO`
abbrev pub policy_fifo : ℕ
policy_fifo = 0x00

abbrev pub policy_prio : ℕ
policy_prio = 0x01

-- `_mrtk_ipc_obj_init`; `list` is `&ipc->suspend_taker`
unfoldable pub ipc_obj_init : ObjType → ℕ → ℕ → Kernel → Kernel
ipc_obj_init type obj list k =
    let k1 = obj_init type obj k in record k1 { sched = DList.init list k1.sched }

abbrev pub link_task : ℕ → ℕ → Kernel → Kernel
link_task pos task k = record k { sched = DList.insert_before pos task k.sched }

-- `_mrtk_ipc_suspend_one`, with the policy tested as the source tests it
unfoldable pub suspend_one : ℕ → ℕ → ℕ → ℕ → Kernel → Option Kernel
suspend_one fuel list flag task k =
    let k1 = set_state task suspend (remove_task task k) in
    let by_prio : Option Kernel = do
      pos ← DList.search_node fuel (λ cur. prio_lt cur task k1) list k1.sched
      some (link_task pos task k1)
    in if not (bit_and flag policy_fifo == 0) then some (link_task list task k1) else by_prio

-- The body shared by `_mrtk_ipc_resume_one` and the loop of `_mrtk_ipc_resume_all`.
unfoldable pub wake : ℕ → Err → Kernel → Kernel
wake task err k =
    let k1 = set_last_error task err k in
    let k2 = record k1 { sched = DList.remove task k1.sched } in
    let k3 = (timer_stop (task_timer task) k2).1 in set_state task ready (insert_task task k3)

-- `_mrtk_ipc_resume_one`
unfoldable pub resume_one : ℕ → Err → Kernel → Bool × Kernel
unfolding wake
resume_one list err k =
    let task = k.sched.next list in
    let k1 = wake task err k in
    if DList.is_empty list k.sched then (false, k) else (prio_ht task k1.current k1, k1)

-- The loop of `_mrtk_ipc_resume_all`: `next` is read before the body runs.
unfoldable pub resume_loop : ℕ → ℕ → Err → ℕ → ℕ → Bool → Kernel → Option (Bool × Kernel)
unfolding wake
resume_loop zero list err task next need k = none
resume_loop (suc fuel) list err task next need k =
    let k1 = wake task err k in
    let rest =
      resume_loop fuel list err next (k1.sched.next next) (prio_ht task k1.current k1 || need) k1 in
    if task == list then some (need, k) else rest

-- `_mrtk_ipc_resume_all`
unfoldable pub resume_all : ℕ → ℕ → Err → Kernel → Option (Bool × Kernel)
unfolding resume_loop
resume_all fuel list err k =
    let task = k.sched.next list in resume_loop fuel list err task (k.sched.next task) false k

-- `_mrtk_ipc_obj_delete`
unfoldable pub ipc_obj_delete : ℕ → ℕ → ℕ → Kernel → Option (Bool × Kernel)
unfolding resume_all
ipc_obj_delete fuel obj list k = do
  r ← resume_all fuel list edeleted k
  some (r.0, obj_delete obj r.1)
