-- ===== src/Irq/Leave.antt =====
-- A request to schedule that is put off to the end of an interrupt.
use micro_rt_kernel.Prelude.{◌≡◌, false, arith}
use micro_rt_kernel.Kernel.{Kernel}
use micro_rt_kernel.Sched.{schedule}
use micro_rt_kernel.Irq.{interrupt_enter, interrupt_leave, pend_sv}

-- A schedule that is asked for inside the only interrupt is not made up for when the interrupt ends:
-- the switch goes to the task that `g_NextTCB` named before, whatever the ready queues hold, the
-- request is dropped, and `g_NextTCB` is what it was.
pub schedule-deferred :
    (k : Kernel)
    → k.interrupt_nest ≡ 0
    → k.lock_nest ≡ 0
    → let k' = pend_sv (interrupt_leave (schedule (interrupt_enter k))) in
      (k'.current ≡ k.next)
      × (k'.next ≡ k.next)
      × (k'.need_schedule ≡ false)
      × (k'.interrupt_nest ≡ 0)
unfolding schedule interrupt_enter interrupt_leave pend_sv
schedule-deferred k calm free = ground arith
