-- ===== src/Ipc/Wake.antt =====
-- `_mrtk_ipc_resume_one` and `_mrtk_ipc_resume_all` move waiting tasks to the ready queues.
use mathlib.Core.Path.{subst}
use micro_rt_kernel.Prelude.{
  ℕ, ◌≡◌, refl, Bool, true, false, ◌||◌, List, [], ◌∷◌, ◌++◌, arith, ◌==◌, ltb, if◌then◌else◌, mem,
  erase, mem-erase_self,
}
use micro_rt_kernel.DList
use micro_rt_kernel.Kernel.{Kernel, Err, ready, null, update, set_last_error, task_timer}
use micro_rt_kernel.Sched.{insert_task}
use micro_rt_kernel.Sched.Queues.{QueuesOk, IsUnlinked, enqueued, insert_task-QueuesOk}
use micro_rt_kernel.Timer.{timer_stop, timer_remove}
use micro_rt_kernel.Ipc.{wake}
use micro_rt_kernel.Ipc.Wait.{
  WaitOk, QueuesOk-congr, WaitOk-congr, unlink-QueuesOk, unlink-WaitOk, insert_task-WaitOk,
}

-- What stopping a timer leaves alone.
module _ (x : ℕ) (k : Kernel) where
  pub sched-timer_stop : (timer_stop x k).1.sched ≡ k.sched
  unfolding timer_stop timer_remove
  sched-timer_stop = ground arith

  pub tcb-timer_stop : (timer_stop x k).1.tcb ≡ k.tcb
  unfolding timer_stop timer_remove
  tcb-timer_stop = ground arith

  pub bitmap-timer_stop : (timer_stop x k).1.ready_prio_bitmap ≡ k.ready_prio_bitmap
  unfolding timer_stop timer_remove
  bitmap-timer_stop = ground arith

  pub current-timer_stop : (timer_stop x k).1.current ≡ k.current
  unfolding timer_stop timer_remove
  current-timer_stop = ground arith

insert_task-tcb : (t : ℕ) (k : Kernel) (s : ℕ) → (insert_task t k).tcb s ≡ k.tcb s
unfolding insert_task
insert_task-tcb t k s = refl

-- The control blocks after a wake.
module _ (t : ℕ) (err : Err) (k : Kernel) where
  pub tcb-wake :
      (s : ℕ)
      → (wake t err k).tcb s
        ≡ (if s == t then record (k.tcb t) { last_error = err; state = ready } else k.tcb s)
  unfolding wake insert_task
  tcb-wake s =
      rw
        (tcb-timer_stop (task_timer t)
          (record (set_last_error t err k) { sched = DList.remove t k.sched }))
        (ground arith)

  pub priority-wake : (s : ℕ) → ((wake t err k).tcb s).priority ≡ (k.tcb s).priority
  priority-wake s = ground (arith, tcb-wake s)

  pub current-wake : (wake t err k).current ≡ k.current
  unfolding wake insert_task
  current-wake =
      current-timer_stop (task_timer t)
        (record (set_last_error t err k) { sched = DList.remove t k.sched })

module _ (k : Kernel) (rq : ℕ → List ℕ) (q : QueuesOk k rq) (list : ℕ) (ws : List ℕ)
    (w : WaitOk k rq list ws) (t : ℕ) (waits : mem t ws ≡ true) (err : Err) where
  -- The state in which `wake` inserts the task.
  abbrev stopped : Kernel
  stopped =
      (timer_stop (task_timer t)
        (record (set_last_error t err k) { sched = DList.remove t k.sched })).1

  stopped-priority : (s : ℕ) → (stopped.tcb s).priority ≡ (k.tcb s).priority
  stopped-priority s =
      rw
        (tcb-timer_stop (task_timer t)
          (record (set_last_error t err k) { sched = DList.remove t k.sched }))
        (ground arith)

  stopped-QueuesOk : QueuesOk stopped rq
  stopped-QueuesOk =
      QueuesOk-congr (record k { sched = DList.remove t k.sched }) stopped rq (sched-timer_stop _ _)
        stopped-priority (bitmap-timer_stop _ _) (unlink-QueuesOk k rq q list ws w t waits)

  stopped-WaitOk : WaitOk stopped rq list (erase t ws)
  stopped-WaitOk =
      WaitOk-congr (record k { sched = DList.remove t k.sched }) stopped rq list (erase t ws)
        (sched-timer_stop _ _) stopped-priority (unlink-WaitOk k rq q list ws w t waits)

  stopped-IsUnlinked : IsUnlinked stopped rq t
  stopped-IsUnlinked = record {
    object = w.object t waits;
    level = rw (stopped-priority t) (w.level t waits);
    absent = rw (stopped-priority t) (w.blocked (k.tcb t).priority t (w.level t waits) waits);
  }

  -- A woken task leaves the waiting list and stands at the end of the queue of its priority.
  pub wake-QueuesOk : QueuesOk (wake t err k) (enqueued k t rq)
  unfolding wake
  wake-QueuesOk =
      subst (λ n. QueuesOk (wake t err k) (update rq n (rq n ++ t ∷ []))) (stopped-priority t)
        (QueuesOk-congr (insert_task t stopped) (wake t err k) (enqueued stopped t rq) refl
          (λ s. ground (arith, insert_task-tcb t stopped s)) refl
          (insert_task-QueuesOk stopped rq stopped-QueuesOk t stopped-IsUnlinked))

  pub wake-WaitOk : WaitOk (wake t err k) (enqueued k t rq) list (erase t ws)
  unfolding wake
  wake-WaitOk =
      subst (λ n. WaitOk (wake t err k) (update rq n (rq n ++ t ∷ [])) list (erase t ws))
        (stopped-priority t)
        (WaitOk-congr (insert_task t stopped) (wake t err k) (enqueued stopped t rq) list
          (erase t ws) refl (λ s. ground (arith, insert_task-tcb t stopped s))
          (insert_task-WaitOk stopped rq stopped-QueuesOk list (erase t ws) stopped-WaitOk t
            stopped-IsUnlinked (ground (arith, mem-erase_self t ws w.ring.distinct, w.ring.fresh))))

-- The tasks of one priority, in order.
abbrev pub of_prio : (ℕ → ℕ) → ℕ → List ℕ → List ℕ
of_prio pr p [] = []
of_prio pr p (t ∷ ts) = if p == pr t then t ∷ of_prio pr p ts else of_prio pr p ts

-- Whether one of the tasks has a higher priority than the running task, if one runs.
abbrev pub any_higher : (ℕ → ℕ) → ℕ → List ℕ → Bool
any_higher pr cur [] = false
any_higher pr cur (t ∷ ts) =
    any_higher pr cur ts || (if cur == null then true else ltb (pr t) (pr cur))

-- The ready queues after the tasks have been woken in order.
abbrev pub refilled : (ℕ → ℕ) → (ℕ → List ℕ) → List ℕ → ℕ → List ℕ
refilled pr rq ws p = rq p ++ of_prio pr p ws

-- All of `ws` have been woken with `err`, and the list is empty.
pub record Resumed (k : Kernel) (pr : ℕ → ℕ) (rq : ℕ → List ℕ) (list : ℕ) (ws : List ℕ) (err : Err)
    (need : Bool) (r : Bool × Kernel) : Type 0 where
  pub queues : QueuesOk r.1 (refilled pr rq ws)
  pub waiting : WaitOk r.1 (refilled pr rq ws) list []
  pub woken :
      (t : ℕ) → mem t ws ≡ true → ((r.1.tcb t).state ≡ ready) × ((r.1.tcb t).last_error ≡ err)
  pub others : (t : ℕ) → mem t ws ≡ false → r.1.tcb t ≡ k.tcb t
  pub current : r.1.current ≡ k.current
  pub flag : r.0 ≡ (any_higher pr k.current ws || need)
