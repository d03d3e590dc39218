-- ===== src/Examples/Sleepers.antt =====
-- The theorems on sleeping tasks that are made ready from outside: task 104 waits for object 200.
use mathlib.Core.Path.{subst}
use micro_rt_kernel.Prelude.{
  ℕ, ◌≡◌, refl, sym, inl, inr, true, some, List, [], ◌∷◌, arith, ◌==◌, Bool-cases, ==_iff, mem,
  if◌then◌else◌,
}
use micro_rt_kernel.DList.Ring.{IsRing}
use micro_rt_kernel.Kernel.{Kernel, eok, suspend, set_state, set_tcb, set_mutex}
use micro_rt_kernel.Sched.Queues.{QueuesOk, enqueued}
use micro_rt_kernel.Timer.{waiting_forever}
use micro_rt_kernel.Blocking.{blocked}
use micro_rt_kernel.Ipc.Wait.{WaitOk, QueuesOk-congr, WaitOk-congr}
use micro_rt_kernel.Machine.Lists.{ListsOk}
use micro_rt_kernel.Mutex.{locked, take}
use micro_rt_kernel.Mutex.Asleep.{woken_queues, take-asleep}
use micro_rt_kernel.Task.{task_resume}
use micro_rt_kernel.Task.Doubled.{task_resume-waiting}
use micro_rt_kernel.Examples.{busy, task_of, queues, busy-QueuesOk, busy-WaitOk, idle-WaitOk}

abbrev asleep : Kernel
asleep = set_state 104 suspend busy

same_priority : (t : ℕ) → (asleep.tcb t).priority ≡ (busy.tcb t).priority
same_priority t = ground arith

task_resume-waiting_example :
    ((task_resume 104 asleep).0 ≡ eok)
    × QueuesOk (task_resume 104 asleep).1 (enqueued asleep 104 queues)
    × ((task_resume 104 asleep).1.sched.next 200 ≡ 104)
    × ((ws : List ℕ) → ¬ IsRing (task_resume 104 asleep).1.sched 200 ws)
task_resume-waiting_example =
    task_resume-waiting 104 200 [] asleep queues
      (QueuesOk-congr busy asleep queues refl same_priority refl busy-QueuesOk)
      (WaitOk-congr busy asleep queues 200 (104 ∷ []) refl same_priority busy-WaitOk) refl

-- Task 104, of the lower priority 7, holds mutex 201.
abbrev holding : Kernel
holding =
    set_mutex 201 (record (busy.mutex 201) { value = locked; nest = 1; owner_task = 104 })
      (set_tcb 104 (record (task_of 7) { state = suspend }) busy)

abbrev lists : ℕ → List ℕ
lists o = if o == 200 then 104 ∷ [] else []

holding-WaitOk : (o : ℕ) → mem o (200 ∷ 201 ∷ []) ≡ true → WaitOk holding queues o (lists o)
holding-WaitOk o known =
    let sem : WaitOk holding queues 200 (104 ∷ []) = record {
      ring = busy-WaitOk.ring;
      head = busy-WaitOk.head;
      object = busy-WaitOk.object;
      level = λ t m. ground arith;
      blocked = busy-WaitOk.blocked;
      no_task = busy-WaitOk.no_task;
    } in
    let mutex : WaitOk holding queues 201 [] = record {
      ring = idle-WaitOk.ring;
      head = idle-WaitOk.head;
      object = idle-WaitOk.object;
      level = λ t m. absurd (ground arith);
      blocked = idle-WaitOk.blocked;
      no_task = idle-WaitOk.no_task;
    } in
    elim (Bool-cases (o == 200)) [
      | inl e ↦ subst (λ o. WaitOk holding queues o (lists o)) (sym ((==_iff o 200).0 e)) sem
      | inr e ↦
          let last : o ≡ 201 = ground arith in
          subst (λ o. WaitOk holding queues o (lists o)) (sym last) mutex
    ]

holding-ListsOk : ListsOk (200 ∷ 201 ∷ []) holding queues lists
holding-ListsOk = record {
  queues = record {
    ring = busy-QueuesOk.ring;
    prio = λ p t h m. ground arith;
    object = busy-QueuesOk.object;
    bits = busy-QueuesOk.bits;
    small = busy-QueuesOk.small;
  };
  waits = holding-WaitOk;
  apart = λ o o' h h' ne x m. ground arith;
}

take-asleep_example :
    (k' : Kernel) × (take 2 201 waiting_forever holding ≡ some (blocked, k'))
    × QueuesOk k' (woken_queues 201 holding queues)
    × (mem 104 (woken_queues 201 holding queues 5) ≡ true)
    × ((k'.tcb 104).state ≡ suspend)
    × WaitOk k' (woken_queues 201 holding queues) 200 []
take-asleep_example =
    take-asleep (200 ∷ 201 ∷ []) holding queues lists holding-ListsOk 201 200 refl refl
      (λ e. absurd (omega arith)) refl (omega arith) (omega arith) refl 2 refl
      (λ e. absurd (omega arith)) (omega arith)
