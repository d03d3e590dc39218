-- ===== src/Blocking/Reschedule.antt =====
-- `mrtk_schedule` after a critical section: the lists and control blocks stay as they are.
use micro_rt_kernel.Prelude.{ℕ, ◌≡◌, ap, Bool, List, arith}
use micro_rt_kernel.Kernel.{Kernel, Tcb}
use micro_rt_kernel.Sched.{schedule}
use micro_rt_kernel.Sched.Queues.{QueuesOk}
use micro_rt_kernel.Blocking.{reschedule_if}
use micro_rt_kernel.Ipc.Wait.{WaitOk, QueuesOk-congr, WaitOk-congr}

-- Scheduling changes no list, no control block and no bitmap.
module _ (k : Kernel) (need : Bool) where
  pub reschedule-tcb : (t : ℕ) → (reschedule_if need k).tcb t ≡ k.tcb t
  unfolding schedule
  reschedule-tcb t = ground arith

  pub reschedule-mutex : (m : ℕ) → (reschedule_if need k).mutex m ≡ k.mutex m
  unfolding schedule
  reschedule-mutex m = ground arith

  pub reschedule-sched : (reschedule_if need k).sched ≡ k.sched
  unfolding schedule
  reschedule-sched = ground arith

  pub reschedule-bitmap : (reschedule_if need k).ready_prio_bitmap ≡ k.ready_prio_bitmap
  unfolding schedule
  reschedule-bitmap = ground arith

  pub reschedule-QueuesOk : (rq : ℕ → List ℕ) → QueuesOk k rq → QueuesOk (reschedule_if need k) rq
  reschedule-QueuesOk rq q =
      QueuesOk-congr k (reschedule_if need k) rq reschedule-sched
        (λ t. ap (λ (c : Tcb). c.priority) (reschedule-tcb t)) reschedule-bitmap q

  pub reschedule-WaitOk :
      (rq : ℕ → List ℕ) (list : ℕ) (ws : List ℕ)
      → WaitOk k rq list ws
      → WaitOk (reschedule_if need k) rq list ws
  reschedule-WaitOk rq list ws w =
      WaitOk-congr k (reschedule_if need k) rq list ws reschedule-sched
        (λ t. ap (λ (c : Tcb). c.priority) (reschedule-tcb t)) w
