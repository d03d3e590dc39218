-- ===== src/Examples/Waiting.antt =====
-- The theorems on waiting lists, semaphores, mutexes and the time limit, applied to concrete states.
use micro_rt_kernel.Prelude.{◌≡◌, refl, Bool, false, some, [], ◌∷◌, arith}
use micro_rt_kernel.Kernel.{Kernel, ready, suspend, eok, edeleted}
use micro_rt_kernel.Sched.Queues.{QueuesOk, enqueued, dequeued}
use micro_rt_kernel.Ipc.{suspend_one, resume_all}
use micro_rt_kernel.Ipc.Wait.{WaitOk}
use micro_rt_kernel.Ipc.Wake.{Resumed}
use micro_rt_kernel.Ipc.Suspend.{suspend_one-Waiting}
use micro_rt_kernel.Ipc.ResumeAll.{resume_all-Resumed}
use micro_rt_kernel.Blocking.{resumed}
use micro_rt_kernel.Sem.{Sem, release}
use micro_rt_kernel.Sem.Tokens.{release-handover}
use micro_rt_kernel.Task.{timer_callback}
use micro_rt_kernel.Task.Timeout.{timer_callback-resumed}
use micro_rt_kernel.Mutex
use micro_rt_kernel.Mutex.Inherit.{last_of_held, find_highest_inherited_prio-last}
use micro_rt_kernel.Examples.{busy, queues, busy-QueuesOk, busy-WaitOk}

suspend_one-Waiting_example :
    (k' : Kernel) × (suspend_one 2 200 0 100 busy ≡ some k')
    × QueuesOk k' (dequeued busy 100 queues)
    × WaitOk k' (dequeued busy 100 queues) 200 (104 ∷ 100 ∷ [])
    × ((k'.tcb 100).state ≡ suspend)
suspend_one-Waiting_example =
    suspend_one-Waiting busy queues busy-QueuesOk 200 (104 ∷ []) busy-WaitOk 100
      (λ e. absurd (omega arith)) (omega arith) refl 2 0 (omega arith)

resume_all-Resumed_example :
    (r : Bool × Kernel) × (resume_all 2 200 edeleted busy ≡ some r)
    × Resumed busy (λ s. (busy.tcb s).priority) queues 200 (104 ∷ []) edeleted false r
resume_all-Resumed_example =
    resume_all-Resumed 200 edeleted (λ s. (busy.tcb s).priority) 2 busy queues (104 ∷ [])
      (λ s. refl) busy-QueuesOk busy-WaitOk (omega arith)

abbrev none_left : Sem
none_left = record { value = 0; flag = 0; is_dynamic = false }

release-handover_example :
    let r = release 200 none_left busy in
    (r.0 ≡ eok)
    × (r.1 ≡ none_left)
    × QueuesOk r.2 (enqueued busy 104 queues)
    × WaitOk r.2 (enqueued busy 104 queues) 200 []
    × ((r.2.tcb 104).state ≡ ready)
    × ((r.2.tcb 104).last_error ≡ eok)
release-handover_example =
    release-handover 200 none_left busy queues (λ e. absurd (omega arith)) busy-QueuesOk 104 []
      busy-WaitOk

timer_callback-resumed_example :
    let k' = timer_callback 104 busy in
    QueuesOk k' (enqueued busy 104 queues)
    × WaitOk k' (enqueued busy 104 queues) 200 []
    × ((k'.tcb 104).state ≡ ready)
    × (resumed 104 k' ≡ resumed 104 busy)
timer_callback-resumed_example =
    timer_callback-resumed busy queues busy-QueuesOk 200 (104 ∷ []) busy-WaitOk 104 refl

find_highest_inherited_prio-last_example :
    Mutex.find_highest_inherited_prio 3 (λ t. 0) 100 busy
    ≡ some (last_of_held (λ t. 0) busy (λ m. []) (500 ∷ []) 5)
find_highest_inherited_prio-last_example =
    find_highest_inherited_prio-last (λ t. 0) busy (λ m. []) 0 3 100 (500 ∷ [])
      record { links = (refl, refl, (refl, refl)); fresh = refl; distinct = (refl, tt) }
      (λ m h. record { links = ground arith; fresh = refl; distinct = tt }) (λ m h. omega arith)
      (omega arith)
