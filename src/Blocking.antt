-- ===== src/Blocking.antt =====
-- What the blocking calls of the kernel share: how a call ends for its caller, the timer of a task
-- that waits with a time limit, and the `mrtk_schedule` after the critical section.
pub mod Reschedule
use micro_rt_kernel.Prelude.{ℕ, ◌^◌, Bool, ◌&&◌, Option, some, ltb, if◌then◌else◌, ◌>>=◌}
use micro_rt_kernel.Kernel.{Kernel, Err, task_timer}
use micro_rt_kernel.Sched.{schedule}
use micro_rt_kernel.Timer.{set_time, timer_control, timer_start}

-- What a call does for its caller: it returns, or its task sleeps.
pub data Outcome : Type 0 where
  returned : Err → Outcome
  blocked : Outcome

-- What a blocked call returns when its task runs again: `task->last_error`.
unfoldable pub resumed : ℕ → Kernel → Err
resumed task k = (k.tcb task).last_error

-- `timeout > 0` for a `mrtk_s32_t` given by its bits
abbrev pub is_positive : ℕ → Bool
is_positive timeout = ltb 0 timeout && ltb timeout (2 ^ 31)

abbrev pub reschedule_if : Bool → Kernel → Kernel
reschedule_if need k = if need then schedule k else k

-- Setting and starting the timer of a task that sleeps with a time limit.
unfoldable pub arm : ℕ → ℕ → ℕ → Kernel → Option Kernel
arm fuel task timeout k = do
  r ← timer_control fuel (task_timer task) (set_time (some timeout)) k
  r' ← timer_start fuel (task_timer task) r.1
  some r'.1
