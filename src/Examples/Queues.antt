-- ===== src/Examples/Queues.antt =====
-- The theorems on lists, ready queues and interrupts, applied to concrete states.
use micro_rt_kernel.Prelude.{◌≡◌, refl, true, false, some, [], ◌∷◌, arith}
use micro_rt_kernel.DList
use micro_rt_kernel.Kernel.{update, eok}
use micro_rt_kernel.Obj.Twice.{task_init-twice}
use micro_rt_kernel.Task.{task_init}
use micro_rt_kernel.Sched.{get_highest_prio, slice_end, schedule}
use micro_rt_kernel.Sched.Lowest.{IsLowest, get_highest_prio-IsLowest}
use micro_rt_kernel.Sched.Queues.{QueuesOk}
use micro_rt_kernel.Sched.Change.{slice_end-rotated}
use micro_rt_kernel.Irq.{interrupt_enter, interrupt_leave, pend_sv}
use micro_rt_kernel.Irq.Leave.{schedule-deferred}
use micro_rt_kernel.Examples.{busy, queues, busy-QueuesOk}

get_highest_prio-IsLowest_example : IsLowest 0x90000000 (get_highest_prio 0x90000000)
get_highest_prio-IsLowest_example =
    get_highest_prio-IsLowest 0x90000000 (λ e. absurd (omega arith)) (omega arith)

slice_end-rotated_example :
    QueuesOk (slice_end 100 busy) (update queues 5 (102 ∷ 100 ∷ []))
    × ((slice_end 100 busy).need_schedule ≡ true)
    × (((slice_end 100 busy).tcb 100).remain_tick ≡ 10)
slice_end-rotated_example =
    slice_end-rotated busy queues busy-QueuesOk 100 102 [] (omega arith) refl

schedule-deferred_example :
    let k' = pend_sv (interrupt_leave (schedule (interrupt_enter busy))) in
    (k'.current ≡ 100) × (k'.next ≡ 100) × (k'.need_schedule ≡ false) × (k'.interrupt_nest ≡ 0)
schedule-deferred_example = schedule-deferred busy refl refl

task_init-twice_example :
    let r = task_init 401 true 5 10 busy in
    (r.0 ≡ eok)
    × (r.1.objs.next 1 ≡ 401)
    × (r.1.objs.next 401 ≡ 1)
    × (DList.len 9 1 r.1.objs ≡ some 1)
task_init-twice_example =
    task_init-twice 401 5 10 7 400 [] busy (omega arith) (omega arith)
      record { links = (refl, refl, (refl, refl)); fresh = refl; distinct = (refl, tt) } refl refl
      refl (λ e. absurd (omega (arith, e)))
