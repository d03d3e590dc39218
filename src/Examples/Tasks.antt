-- ===== src/Examples/Tasks.antt =====
-- The theorems on calls that change the queues of tasks, and on the hand-over of a mutex.
use micro_rt_kernel.Prelude.{◌≡◌, refl, some, [], ◌∷◌, arith}
use micro_rt_kernel.DList
use micro_rt_kernel.Kernel.{Kernel, eok, ready, set_mutex}
use micro_rt_kernel.Sched.Queues.{QueuesOk}
use micro_rt_kernel.Sched.Change.{moved}
use micro_rt_kernel.Ipc.Wait.{WaitOk, QueuesOk-congr, WaitOk-congr}
use micro_rt_kernel.Mutex
use micro_rt_kernel.Mutex.Handover.{released_queues, release-heir}
use micro_rt_kernel.Task.{task_suspend, task_resume}
use micro_rt_kernel.Task.Ready.{task_resume-suspend}
use micro_rt_kernel.Examples.{busy, queues, busy-QueuesOk, busy-WaitOk}

-- Task 100 holds the mutex 200 once, for which task 104 waits.
abbrev wanted : Kernel
wanted = set_mutex 200 (record (busy.mutex 200) { nest = 1; owner_task = 100 }) busy

restored :
    Mutex.find_highest_inherited_prio 3
      (λ t. 0)
      100
      (Mutex.unhold 200 (set_mutex 200 (record (wanted.mutex 200) { nest = 0 }) wanted))
    ≡ some 5
unfolding Mutex.find_highest_inherited_prio DList.remove
restored = refl

release-heir_example :
    (k' : Kernel) × (Mutex.release 3 (λ t. 0) 200 wanted ≡ some (eok, k'))
    × ((k'.mutex 200).owner_task ≡ 104)
    × ((k'.mutex 200).nest ≡ 1)
    × ((k'.tcb 104).state ≡ ready)
    × ((k'.tcb 104).last_error ≡ eok)
    × QueuesOk k' (released_queues 200 104 5 wanted queues)
    × WaitOk k' (released_queues 200 104 5 wanted queues) 200 []
release-heir_example =
    release-heir 3 200 104 5 (λ t. 0) wanted queues []
      (QueuesOk-congr busy wanted queues refl (λ t. refl) refl busy-QueuesOk)
      (WaitOk-congr busy wanted queues 200 (104 ∷ []) refl (λ t. refl) busy-WaitOk) (omega arith)
      refl (omega arith) (λ e. absurd (omega arith)) refl refl refl restored

task_resume-suspend_example :
    ((task_resume 102 (task_suspend 102 busy).1).0 ≡ eok)
    × QueuesOk (task_resume 102 (task_suspend 102 busy).1).1 (moved busy queues 102 5)
    × (((task_resume 102 (task_suspend 102 busy).1).1.tcb 102).state ≡ ready)
task_resume-suspend_example =
    task_resume-suspend 102 busy queues busy-QueuesOk (omega arith) refl refl
