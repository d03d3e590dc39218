-- ===== src/Examples/Machines.antt =====
-- The theorems on the whole machine: task 104 waits for semaphore 200, which is then released.
use mathlib.Core.Path.{subst}
use micro_rt_kernel.Prelude.{
  ℕ, ◌<◌, ◌≡◌, refl, sym, ◌≢◌, true, false, List, [], ◌∷◌, arith, ◌==◌, if◌then◌else◌, mem,
}
use micro_rt_kernel.Kernel.{Kernel, suspend, prio_levels, set_state, update}
use micro_rt_kernel.Sched.{select}
use micro_rt_kernel.Ipc.Wait.{WaitOk, QueuesOk-congr, WaitOk-congr}
use micro_rt_kernel.Sem.{Sem}
use micro_rt_kernel.Sem
use micro_rt_kernel.Task.{is_runnable}
use micro_rt_kernel.Machine.{Machine, IsOk, here, later, releases, inits_sem, ready_after}
use micro_rt_kernel.Machine.Start.{booted}
use micro_rt_kernel.Machine.Safety.{booted-Reach, waiting-Reach, select-Reach}
use micro_rt_kernel.Examples.{busy, queues, busy-QueuesOk, busy-WaitOk}

abbrev no_sem : Sem
no_sem = record { value = 0; flag = 0; is_dynamic = false }

-- A semaphore is made on a kernel that has just started.
abbrev one_sem : Machine
one_sem =
    let m = booted 64 65 busy (λ o. no_sem) in
    record m {
      kernel = (Sem.init 200 true 2 1 no_sem m.kernel).2;
      objs = 200 ∷ [];
      sem = update m.sem 200 (Sem.init 200 true 2 1 no_sem m.kernel).1;
      waiting = update m.waiting 200 [];
    }

booted-Reach_example : IsOk one_sem
booted-Reach_example =
    booted-Reach 64 65 busy (λ o. no_sem) one_sem (omega arith) (omega arith)
      (λ e. absurd (omega arith))
      (later here (
        inits_sem 200 2 1
          (record {
            object = omega arith;
            idle = λ p h. ground arith;
            away = λ o n. absurd (ground arith);
          })
          (omega arith)))

abbrev asleep : Kernel
asleep = set_state 104 suspend busy

abbrev lists : ℕ → List ℕ
lists o = if o == 200 then 104 ∷ [] else []

abbrev machine : Machine
machine = record {
  kernel = asleep;
  objs = 200 ∷ [];
  sem = λ o. no_sem;
  ready = queues;
  waiting = lists;
}

same_priority : (t : ℕ) → (asleep.tcb t).priority ≡ (busy.tcb t).priority
same_priority t = ground arith

machine-WaitOk : (o : ℕ) → mem o (200 ∷ []) ≡ true → WaitOk asleep queues o (lists o)
machine-WaitOk o known =
    let e : o ≡ 200 = ground arith in
    subst (λ o. WaitOk asleep queues o (lists o)) (sym e)
      (WaitOk-congr busy asleep queues 200 (104 ∷ []) refl same_priority busy-WaitOk)

machine-IsOk : IsOk machine
machine-IsOk = record {
  lists = record {
    queues = QueuesOk-congr busy asleep queues refl same_priority refl busy-QueuesOk;
    waits = machine-WaitOk;
    apart = λ o o' h h' ne x m. absurd (ground arith);
  };
  states = record { runs = λ p t h m. ground arith; sleeps = λ o t n m. ground arith };
  sems = λ o n. record { bounded = omega arith; idle = λ h. refl };
}

waiting-Reach_example :
    ((asleep.tcb 104).state ≡ suspend)
    × ((p : ℕ) → p < prio_levels → mem 104 (queues p) ≡ false)
    × ((o' : ℕ) → mem o' (200 ∷ []) ≡ true → 200 ≢ o' → mem 104 (lists o') ≡ false)
    × (no_sem.value ≡ 0)
waiting-Reach_example = waiting-Reach machine machine 200 104 machine-IsOk here refl refl

-- After a release of the semaphore task 104 is the most urgent one.
abbrev released : Machine
released = record machine {
  kernel = (Sem.release 200 no_sem asleep).2;
  sem = update machine.sem 200 (Sem.release 200 no_sem asleep).1;
  ready = ready_after asleep queues (104 ∷ []);
  waiting = update lists 200 [];
}

select-Reach_example :
    (select released.kernel ≡ 104)
    × (is_runnable (released.kernel.tcb (select released.kernel)).state ≡ true)
    × ((o : ℕ)
        → mem o (200 ∷ []) ≡ true
        → mem (select released.kernel) (released.waiting o) ≡ false)
select-Reach_example =
    select-Reach machine released 3 104 [] machine-IsOk (later here (releases 200 refl))
      (omega arith) refl (λ above lt. ground arith)
