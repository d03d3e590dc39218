-- ===== src/Irq.antt =====
-- Kernel/Src/mrtk_irq.c, and the context switch that Kernel/Port/hw_stm32f407.S performs.
pub mod Leave
use micro_rt_kernel.Prelude.{ℕ, ◌+◌, ◌-◌, ◌%◌, ◌^◌, Bool, true, false, ◌&&◌, ◌==◌, if◌then◌else◌}
use micro_rt_kernel.Kernel.{Kernel}

-- `mrtk_irq_init`
unfoldable pub irq_init : Kernel → Kernel
irq_init k = record k { interrupt_nest = 0 }

-- `mrtk_interrupt_enter`
unfoldable pub interrupt_enter : Kernel → Kernel
interrupt_enter k = record k { interrupt_nest = (k.interrupt_nest + 1) % 2 ^ 8 }

-- `mrtk_interrupt_leave`
unfoldable pub interrupt_leave : Kernel → Kernel
interrupt_leave k =
    let nest = (k.interrupt_nest + 2 ^ 8 - 1) % 2 ^ 8 in
    if nest == 0 && k.lock_nest == 0 && k.need_schedule
    then record k { interrupt_nest = nest; pended = true; need_schedule = false }
    else record k { interrupt_nest = nest }

-- `PendSV_Handler`, which runs once no interrupt is being served: `g_CurrentTCB = g_NextTCB`
unfoldable pub pend_sv : Kernel → Kernel
pend_sv k = if k.pended then record k { current = k.next; pended = false } else k
