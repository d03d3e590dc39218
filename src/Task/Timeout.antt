-- ===== src/Task/Timeout.antt =====
-- `_mrtk_task_timer_callback`: the time limit of a task that waits at an object has passed.
use micro_rt_kernel.Prelude.{
  ℕ, ◌≡◌, refl, ap, ◌∙◌, true, false, ==_refl, ==_iff, List, ◌∷◌, arith, mem, erase, mem-erase_self,
}
use micro_rt_kernel.DList
use micro_rt_kernel.Kernel.{Kernel, Tcb, ready, set_state}
use micro_rt_kernel.Sched.{insert_task, prio_ht}
use micro_rt_kernel.Sched.Queues.{QueuesOk, IsUnlinked, enqueued, insert_task-QueuesOk}
use micro_rt_kernel.Ipc.Wait.{
  WaitOk, QueuesOk-congr, WaitOk-congr, unlink-QueuesOk, unlink-WaitOk, insert_task-WaitOk,
}
use micro_rt_kernel.Blocking.{resumed}
use micro_rt_kernel.Blocking.Reschedule.{reschedule-tcb, reschedule-QueuesOk, reschedule-WaitOk}
use micro_rt_kernel.Task.{timer_callback}

module _ (k : Kernel) (rq : ℕ → List ℕ) (q : QueuesOk k rq) (list : ℕ) (ws : List ℕ)
    (w : WaitOk k rq list ws) (t : ℕ) (waits : mem t ws ≡ true) where
  abbrev unlinked : Kernel
  unlinked = record k { sched = DList.remove t k.sched }

  free : IsUnlinked unlinked rq t
  free = record {
    object = w.object t waits;
    level = w.level t waits;
    absent = w.blocked (k.tcb t).priority t (w.level t waits) waits;
  }

  abbrev readied : Kernel
  readied = set_state t ready (insert_task t unlinked)

  priority-readied : (s : ℕ) → (readied.tcb s).priority ≡ ((insert_task t unlinked).tcb s).priority
  priority-readied s = ground arith

  readied-fields :
      ((readied.tcb t).state ≡ ready) × ((readied.tcb t).last_error ≡ (k.tcb t).last_error)
  unfolding insert_task
  readied-fields = ground (arith, ==_refl t)

  not_there : mem t (list ∷ erase t ws) ≡ false
  not_there = ground (arith, w.ring.fresh, mem-erase_self t ws w.ring.distinct, ==_iff t list)

  readied-QueuesOk : QueuesOk readied (enqueued k t rq)
  readied-QueuesOk =
      QueuesOk-congr (insert_task t unlinked) readied (enqueued k t rq) refl priority-readied refl
        (insert_task-QueuesOk unlinked rq (unlink-QueuesOk k rq q list ws w t waits) t free)

  readied-WaitOk : WaitOk readied (enqueued k t rq) list (erase t ws)
  readied-WaitOk =
      WaitOk-congr (insert_task t unlinked) readied (enqueued k t rq) list (erase t ws) refl
        priority-readied
        (insert_task-WaitOk unlinked rq (unlink-QueuesOk k rq q list ws w t waits) list (erase t ws)
          (unlink-WaitOk k rq q list ws w t waits) t free not_there)

  -- When its time limit has passed, a waiting task leaves the list at which it waits, wherever it
  -- stands in it, and becomes ready at the end of the queue of its priority. The result of its call
  -- stays what it was when it went to sleep.
  pub timer_callback-resumed :
      let k' = timer_callback t k in
      QueuesOk k' (enqueued k t rq)
      × WaitOk k' (enqueued k t rq) list (erase t ws)
      × ((k'.tcb t).state ≡ ready)
      × (resumed t k' ≡ resumed t k)
  unfolding timer_callback resumed
  timer_callback-resumed = (
    reschedule-QueuesOk readied (prio_ht t readied.current readied) (enqueued k t rq)
        readied-QueuesOk,
    reschedule-WaitOk readied (prio_ht t readied.current readied) (enqueued k t rq) list
        (erase t ws) readied-WaitOk,
    ap (λ (c : Tcb). c.state) (reschedule-tcb readied (prio_ht t readied.current readied) t)
        ∙ (readied-fields).0,
    ap (λ (c : Tcb). c.last_error) (reschedule-tcb readied (prio_ht t readied.current readied) t)
        ∙ (readied-fields).1,
  )
