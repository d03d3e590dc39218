-- ===== src/System.antt =====
-- Kernel/Src/mrtk_system.c: the start of the kernel.
use micro_rt_kernel.Prelude.{ℕ, true}
use micro_rt_kernel.Kernel.{Kernel, Err, eok}
use micro_rt_kernel.Obj.{obj_system_init}
use micro_rt_kernel.Irq.{irq_init}
use micro_rt_kernel.Sched.{schedule_init, select}
use micro_rt_kernel.Timer.{timer_system_init}
use micro_rt_kernel.Task.{init_idle, init_timer_daemon}

-- `mrtk_system_init`, with the result of `mrtk_heap_init` and the addresses of the two tasks
unfoldable pub system_init : Err → ℕ → ℕ → Kernel → Err × Kernel
unfolding init_idle init_timer_daemon
system_init heap idle daemon k =
    let k1 = irq_init k in
    let r = init_idle idle (schedule_init (timer_system_init (obj_system_init k1))) in
    let r' = init_timer_daemon daemon r.1 in
    elim heap [ eok ↦ elim r.0 [ eok ↦ r' | err ↦ (err, r.1) ] | err ↦ (err, k1) ]

-- `mrtk_system_start` up to the jump into the first task
unfoldable pub system_start : Kernel → Kernel
system_start k = record k { started = true; next = select k }
