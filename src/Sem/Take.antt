-- ===== src/Sem/Take.antt =====
-- `mrtk_sem_take`: the way back of a release, and how a task comes to wait.
use micro_rt_kernel.Prelude.{
  ℕ, ◌+◌, ◌-◌, ◌<◌, ◌≡◌, refl, ◌≢◌, ◌∙◌, ap, true, false, not, ◌&&◌, some, List, [], arith, ◌==◌,
  ltb, lt→ltb, ==_of_ne, length, mem,
}
use micro_rt_kernel.DList.Ring.{is_empty-nil}
use micro_rt_kernel.Kernel.{Kernel, Tcb, suspend, eok, null, prio_levels, set_last_error}
use micro_rt_kernel.Sched.{schedule}
use micro_rt_kernel.Sched.Queues.{QueuesOk, dequeued}
use micro_rt_kernel.Blocking.{returned, blocked, is_positive, reschedule_if}
use micro_rt_kernel.Blocking.Reschedule.{reschedule-tcb, reschedule-QueuesOk, reschedule-WaitOk}
use micro_rt_kernel.Ipc.{suspend_one}
use micro_rt_kernel.DList.Seg.{place}
use micro_rt_kernel.Ipc.Wait.{WaitOk, QueuesOk-congr, WaitOk-congr}
use micro_rt_kernel.Ipc.Suspend.{lower_than, suspend_one-Waiting}
use micro_rt_kernel.Sem.{Sem, max_value, wait, take, release}

-- Nobody waits and the count is below its maximum: a take without a time limit undoes a release.
pub take-release :
    (fuel sem : ℕ) (s : Sem) (k : Kernel) (rq : ℕ → List ℕ)
    → sem ≢ null
    → WaitOk k rq sem []
    → s.value < max_value
    → take fuel sem 0 (release sem s k).1 (release sem s k).2 ≡ some (returned eok, s, k)
unfolding take release
take-release fuel sem s k rq ne w room =
    let back : s.value + 1 - 1 ≡ s.value = omega arith in
    rw (==_of_ne sem 0 ne, is_empty-nil k.sched sem w.ring, lt→ltb s.value max_value room)
      (rw (lt→ltb 0 (s.value + 1) (omega arith), back) refl)

abbrev pub cleared : Kernel → Kernel
cleared k = set_last_error k.current eok k

pub cleared-priority : (k : Kernel) (t : ℕ) → ((cleared k).tcb t).priority ≡ (k.tcb t).priority
cleared-priority k t = ground arith

cleared-QueuesOk : (k : Kernel) (rq : ℕ → List ℕ) → QueuesOk k rq → QueuesOk (cleared k) rq
cleared-QueuesOk k rq q = QueuesOk-congr k (cleared k) rq refl (cleared-priority k) refl q

cleared-WaitOk :
    (k : Kernel) (rq : ℕ → List ℕ) (list : ℕ) (ws : List ℕ)
    → WaitOk k rq list ws
    → WaitOk (cleared k) rq list ws
cleared-WaitOk k rq list ws w = WaitOk-congr k (cleared k) rq list ws refl (cleared-priority k) w

take-eq :
    (fuel sem timeout : ℕ) (s : Sem) (k k' : Kernel)
    → sem ≢ null
    → k.interrupt_nest ≡ 0
    → s.value ≡ 0
    → timeout ≢ 0
    → is_positive timeout ≡ false
    → suspend_one fuel sem s.flag k.current (cleared k) ≡ some k'
    → take fuel sem timeout s k ≡ some (blocked, s, schedule k')
unfolding take wait
take-eq fuel sem timeout s k k' ne calm none some_time no_limit e =
    let guard : (not (timeout == 0) && not (k.interrupt_nest == 0)) ≡ false = ground arith in
    let no_value : ltb 0 s.value ≡ false = ground arith in
    rw (==_of_ne sem 0 ne, guard, no_value, ==_of_ne timeout 0 some_time, e, no_limit) refl

-- The count is zero and the caller has no time limit: it leaves the ready queue and waits in front of
-- the first waiting task of a lower priority. The semaphore itself does not change.
pub take-waits :
    (fuel sem timeout : ℕ) (s : Sem) (k : Kernel) (rq : ℕ → List ℕ) (ws : List ℕ)
    → sem ≢ null
    → k.current ≢ null
    → k.interrupt_nest ≡ 0
    → s.value ≡ 0
    → timeout ≢ 0
    → is_positive timeout ≡ false
    → QueuesOk k rq
    → WaitOk k rq sem ws
    → (k.tcb k.current).priority < prio_levels
    → mem k.current (rq (k.tcb k.current).priority) ≡ true
    → length ws < fuel
    → (k' : Kernel) × (take fuel sem timeout s k ≡ some (blocked, s, k'))
      × QueuesOk k' (dequeued (cleared k) k.current rq)
      × WaitOk k'
          (dequeued (cleared k) k.current rq)
          sem
          (place (lower_than (cleared k) k.current) k.current ws)
      × ((k'.tcb k.current).state ≡ suspend)
take-waits fuel sem timeout s k rq ws ne here calm none some_time no_limit q w level queued lt =
    let t = k.current in
    let (k', e, queues, waits, state) =
      suspend_one-Waiting (cleared k) rq (cleared-QueuesOk k rq q) sem ws
        (cleared-WaitOk k rq sem ws w) t here (rw (cleared-priority k t) level)
        (rw (cleared-priority k t) queued) fuel s.flag lt in
    (
      reschedule_if true k',
      take-eq fuel sem timeout s k k' ne calm none some_time no_limit e,
      reschedule-QueuesOk k' true (dequeued (cleared k) t rq) queues,
      reschedule-WaitOk k' true (dequeued (cleared k) t rq) sem
          (place (lower_than (cleared k) t) t ws) waits,
      ap (λ (c : Tcb). c.state) (reschedule-tcb k' true t) ∙ state,
    )
