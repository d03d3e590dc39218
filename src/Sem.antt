-- ===== src/Sem.antt =====
-- Kernel/Src/mrtk_sem.c. The address of a semaphore stands for its waiting list as well.
-- The interrupt mask is held from test to update, so each call is one step; a call that blocks
-- ends with `mrtk_schedule`, and returns `resumed` once its task runs again.
pub mod Tokens
pub mod Take
use micro_rt_kernel.Prelude.{
  ℕ, zero, ◌+◌, ◌-◌, ◌^◌, Bool, true, false, not, ◌||◌, ◌&&◌, Option, none, some, ◌==◌, ltb,
  if◌then◌else◌, ◌>>=◌,
}
use micro_rt_kernel.DList
use micro_rt_kernel.Kernel.{
  Kernel, Err, eok, error, einval, efull, e_in_isr, null, task_timer, set_last_error,
}
use micro_rt_kernel.Obj
use micro_rt_kernel.Sched.{schedule}
use micro_rt_kernel.Timer.{set_time, timer_control, timer_start}
use micro_rt_kernel.Blocking.{Outcome, returned, blocked, is_positive, reschedule_if, arm}
use micro_rt_kernel.Ipc.{ipc_obj_init, ipc_obj_delete, suspend_one, resume_one}

-- `mrtk_sem_t`, without the base object; `flag` is `ipc_obj.flag`
pub record Sem : Type 0 where
  pub value : ℕ
  pub flag : ℕ
  pub is_dynamic : Bool

-- `MRTK_SEM_MAX_VALUE`
abbrev pub max_value : ℕ
max_value = 0xFFFF

-- `mrtk_sem_init`: the flag goes to `ipc_obj.obj.flag`, and `ipc_obj.flag` stays what it was
unfoldable pub init : ℕ → Bool → ℕ → ℕ → Sem → Kernel → Err × Sem × Kernel
init sem named value flag s k =
    if (sem == null) || not named
    then (einval, s, k)
    else (eok, record s { value = value; is_dynamic = false }, ipc_obj_init Obj.sem sem sem k)

-- What `mrtk_sem_detach` and `mrtk_sem_delete` do to an object that they accept.
unfoldable pub dispose : ℕ → ℕ → Kernel → Option (Err × Kernel)
dispose fuel sem k = do r ← ipc_obj_delete fuel sem sem k; some (eok, reschedule_if r.0 r.1)

-- `mrtk_sem_detach`, and `mrtk_sem_delete` but for the release of the memory
unfoldable pub detach : ℕ → ℕ → Sem → Kernel → Option (Err × Kernel)
unfolding dispose
detach fuel sem s k = if (sem == null) || s.is_dynamic then some (einval, k) else dispose fuel sem k

unfoldable pub delete : ℕ → ℕ → Sem → Kernel → Option (Err × Kernel)
unfolding dispose
delete fuel sem s k =
    if (sem == null) || not s.is_dynamic then some (einval, k) else dispose fuel sem k

-- The third part of `mrtk_sem_take`: there is no resource, and the caller waits.
unfoldable pub wait : ℕ → ℕ → ℕ → ℕ → Kernel → Option Kernel
unfolding arm
wait fuel sem flag timeout k = do
  k1 ← suspend_one fuel sem flag k.current (set_last_error k.current eok k)
  k2 ← if is_positive timeout then arm fuel k.current timeout k1 else some k1
  some (schedule k2)

-- `mrtk_sem_take`
unfoldable pub take : ℕ → ℕ → ℕ → Sem → Kernel → Option (Outcome × Sem × Kernel)
unfolding wait
take fuel sem timeout s k =
    let sleep : Option (Outcome × Sem × Kernel) = do
      k1 ← wait fuel sem s.flag timeout k
      some (blocked, s, k1)
    in if sem == null
      then some (returned einval, s, k)
      else if not (timeout == 0) && not (k.interrupt_nest == 0)
      then some (returned e_in_isr, s, k)
      else if ltb 0 s.value
      then some (returned eok, record s { value = s.value - 1 }, k)
      else if timeout == 0
      then some (returned error, s, k)
      else sleep

-- `mrtk_sem_release`
unfoldable pub release : ℕ → Sem → Kernel → Err × Sem × Kernel
release sem s k =
    let r = resume_one sem eok k in
    if sem == null
    then (einval, s, k)
    else if DList.is_empty sem k.sched
    then if ltb s.value max_value then (eok, record s { value = s.value + 1 }, k) else (efull, s, k)
    else (eok, s, reschedule_if r.0 r.1)

-- `mrtk_sem_cmd_t`; the query has false for a null pointer.
pub data SemCmd : Type 0 where
  get_value : Bool → SemCmd
  other : SemCmd

-- `mrtk_sem_control`; beside the error, the number that the query writes through `arg`
unfoldable pub control : ℕ → SemCmd → Sem → Err × Option ℕ
control zero cmd s = (einval, none)
control sem (get_value false) s = (einval, none)
control sem (get_value true) s = (eok, some s.value)
control sem other s = (error, none)
