-- ===== src/Machine/Moves.antt =====
-- What the shared functions of the scheduler and of the waiting lists do to all lists at once.
use mathlib.Core.Path.{subst}
use micro_rt_kernel.Prelude.{
  ℕ, ◌<◌, ◌≡◌, refl, sym, ◌%◌, ◌≢◌, ap, Bool, true, List, [], ◌∷◌, ◌++◌, arith, ==_refl, mem, Apart,
  erase, length, some, mem-append,
}
use micro_rt_kernel.Prelude.Bits.{test_bit-bit_and, test_bit-not_pow, bit_and-le}
use micro_rt_kernel.DList
use micro_rt_kernel.DList.Ring.{insert_before-other, remove-other}
use micro_rt_kernel.DList.Seg.{first, place}
use micro_rt_kernel.Kernel.{
  Kernel, TaskState, Err, ready, suspend, null, ready_list, prio_levels, update, set_state,
  set_last_error, set_priority, task_timer,
}
use micro_rt_kernel.Sched.{insert_task, remove_task, prio_change, not_bit}
use micro_rt_kernel.Sched.Queues.{enqueued, dequeued, is_empty-nonempty}
use micro_rt_kernel.Sched.Change.{
  unqueued, moved, set_tcb-QueuesOk, own-IsRing, rest-IsRing, rotate-QueuesOk,
}
use micro_rt_kernel.Timer.{timer_stop}
use micro_rt_kernel.Blocking.{reschedule_if}
use micro_rt_kernel.Blocking.Reschedule.{reschedule-tcb, reschedule-sched, reschedule-bitmap}
use micro_rt_kernel.Ipc.{wake, suspend_one, link_task}
use micro_rt_kernel.Ipc.Wait.{ready-Apart, WaitOk-congr}
use micro_rt_kernel.Ipc.Wake.{sched-timer_stop, tcb-timer_stop, bitmap-timer_stop}
use micro_rt_kernel.Ipc.Suspend.{lower_than, left, suspend_one-eq}
use micro_rt_kernel.Machine.Lists.{
  ListsOk, IsFree, ListsOk-congr, IsFree-congr, insert_task-ListsOk, remove_task-ListsOk,
  unlink-ListsOk, unlink-IsFree, link-ListsOk, queued-away,
}

module _ (objs : List ℕ) (k : Kernel) (rq wl : ℕ → List ℕ) (ok : ListsOk objs k rq wl) where
  pub set_state-ListsOk : (t : ℕ) (st : TaskState) → ListsOk objs (set_state t st k) rq wl
  set_state-ListsOk t st =
      ListsOk-congr objs k (set_state t st k) rq wl refl (λ s. ground arith) refl ok

  pub set_last_error-ListsOk : (t : ℕ) (e : Err) → ListsOk objs (set_last_error t e k) rq wl
  set_last_error-ListsOk t e =
      ListsOk-congr objs k (set_last_error t e k) rq wl refl (λ s. ground arith) refl ok

  pub reschedule-ListsOk : (need : Bool) → ListsOk objs (reschedule_if need k) rq wl
  reschedule-ListsOk need =
      ListsOk-congr objs k (reschedule_if need k) rq wl (reschedule-sched k need)
        (λ t. ap (λ c. c.priority) (reschedule-tcb k need t)) (reschedule-bitmap k need) ok

  pub timer_stop-ListsOk : (x : ℕ) → ListsOk objs (timer_stop x k).1 rq wl
  timer_stop-ListsOk x =
      ListsOk-congr objs k (timer_stop x k).1 rq wl (sched-timer_stop x k)
        (λ t. ap (λ f. (f t).priority) (tcb-timer_stop x k)) (bitmap-timer_stop x k) ok

  -- A queued task that is taken out of its queue is free.
  pub remove_task-IsFree :
      (t : ℕ)
      → (k.tcb t).priority < prio_levels
      → mem t (rq (k.tcb t).priority) ≡ true
      → IsFree objs (remove_task t k) (dequeued k t rq) wl t
  unfolding remove_task
  remove_task-IsFree t level queued = record {
    object = ok.queues.object (k.tcb t).priority t level queued;
    level = level;
    idle = unqueued k rq t ok.queues level queued (k.tcb t).priority level;
    away = queued-away objs k rq wl ok t level queued;
  }

  -- A free task becomes ready, once its timer has been stopped.
  pub stop_insert-ListsOk :
      (t x : ℕ) (st : TaskState)
      → IsFree objs k rq wl t
      → ListsOk objs (set_state t st (insert_task t (timer_stop x k).1)) (enqueued k t rq) wl
  stop_insert-ListsOk t x st f =
      let g : Kernel = (timer_stop x k).1 in
      let same : (g.tcb t).priority ≡ (k.tcb t).priority =
        ap (λ f. (f t).priority) (tcb-timer_stop x k) in
      let ok1 =
        insert_task-ListsOk objs g rq wl (timer_stop-ListsOk x) t
          (IsFree-congr objs k g rq wl t same f) in
      subst (λ n. ListsOk objs (set_state t st (insert_task t g)) (update rq n (rq n ++ t ∷ [])) wl)
        same
        (ListsOk-congr objs (insert_task t g) (set_state t st (insert_task t g)) (enqueued g t rq)
          wl refl (λ s. ground arith) refl ok1)

module _ (objs : List ℕ) (k : Kernel) (rq wl : ℕ → List ℕ) (ok : ListsOk objs k rq wl) where
  -- `_mrtk_ipc_resume_one` and `_mrtk_ipc_resume_all` on a waiting task.
  pub wake-ListsOk :
      (o : ℕ)
      → mem o objs ≡ true
      → (t : ℕ) (err : Err) → mem t (wl o) ≡ true
      → ListsOk objs (wake t err k) (enqueued k t rq) (update wl o (erase t (wl o)))
  unfolding wake
  wake-ListsOk o known t err waiting =
      let k1 : Kernel = set_last_error t err k in
      let ok1 = set_last_error-ListsOk objs k rq wl ok t err in
      let k2 : Kernel = record k1 { sched = DList.remove t k1.sched } in
      let same : (k2.tcb t).priority ≡ (k.tcb t).priority = ground arith in
      subst
        (λ n.
          ListsOk objs (wake t err k) (update rq n (rq n ++ t ∷ [])) (update wl o (erase t (wl o))))
        same
        (stop_insert-ListsOk objs k2 rq (update wl o (erase t (wl o)))
          (unlink-ListsOk objs k1 rq wl ok1 o known t waiting) t (task_timer t) ready
          (unlink-IsFree objs k1 rq wl ok1 o known t waiting))

  -- `_mrtk_ipc_suspend_one` on a queued task.
  pub suspend_one-ListsOk :
      (fuel o flag t : ℕ)
      → mem o objs ≡ true
      → t ≢ null
      → (k.tcb t).priority < prio_levels
      → mem t (rq (k.tcb t).priority) ≡ true
      → length (wl o) < fuel
      → let k' = link_task (first (lower_than k t) (wl o) o) t (left t k) in
        (suspend_one fuel o flag t k ≡ some k')
        × ListsOk objs k' (dequeued k t rq) (update wl o (place (lower_than k t) t (wl o)))
  suspend_one-ListsOk fuel o flag t known ne level queued lt =
      let k1 : Kernel = remove_task t k in
      let ok1 = remove_task-ListsOk objs k rq wl ok t level queued in
      let ok2 = set_state-ListsOk objs k1 (dequeued k t rq) wl ok1 t suspend in
      let f : IsFree objs (left t k) (dequeued k t rq) wl t =
        IsFree-congr objs k1 (left t k) (dequeued k t rq) wl t (ground arith)
          (remove_task-IsFree objs k rq wl ok t level queued) in
      (
        suspend_one-eq k rq ok.queues o (wl o) (ok.waits o known) t ne level queued fuel flag lt,
        link-ListsOk objs (left t k) (dequeued k t rq) wl ok2 o known t (lower_than k t) f,
      )

  -- A free task takes another priority and becomes ready.
  pub reinsert-ListsOk :
      (t priority : ℕ)
      → IsFree objs k rq wl t
      → priority < prio_levels
      → ListsOk objs
          (insert_task t (set_priority t priority k))
          (update rq priority (rq priority ++ t ∷ []))
          wl
  reinsert-ListsOk t priority f bound =
      let k2 : Kernel = set_priority t priority k in
      let same : (k2.tcb t).priority ≡ priority = ground (arith, ==_refl t) in
      let ok2 : ListsOk objs k2 rq wl = record {
        queues =
            set_tcb-QueuesOk k rq ok.queues t (record (k.tcb t) { priority = priority })
              (λ p h m. absurd (ground (arith, f.idle p h)));
        waits = λ o m.
            let w = ok.waits o m in
            record {
              ring = w.ring;
              head = w.head;
              object = w.object;
              level = λ s h. ground (arith, w.level s h, f.away o m);
              blocked = w.blocked;
              no_task = w.no_task;
            };
        apart = ok.apart;
      } in
      let f2 : IsFree objs k2 rq wl t = record {
        object = f.object;
        level = rw same bound;
        idle = f.idle;
        away = f.away;
      } in
      subst (λ n. ListsOk objs (insert_task t k2) (update rq n (rq n ++ t ∷ [])) wl) same
        (insert_task-ListsOk objs k2 rq wl ok2 t f2)

module _ (objs : List ℕ) (k : Kernel) (rq wl : ℕ → List ℕ) (ok : ListsOk objs k rq wl) where
  -- A queued task takes another priority, and goes to the end of the queue of that one.
  pub moved-ListsOk :
      (t priority : ℕ)
      → (k.tcb t).priority < prio_levels
      → mem t (rq (k.tcb t).priority) ≡ true
      → priority < prio_levels
      → ListsOk objs
          (insert_task t (set_priority t priority (remove_task t k)))
          (moved k rq t priority)
          wl
  moved-ListsOk t priority level queued bound =
      reinsert-ListsOk objs (remove_task t k) (dequeued k t rq) wl
        (remove_task-ListsOk objs k rq wl ok t level queued) t priority
        (remove_task-IsFree objs k rq wl ok t level queued) bound

  -- The first task of a queue goes behind the others.
  pub rotated-ListsOk :
      (t r : ℕ) (rs : List ℕ)
      → (k.tcb t).priority < prio_levels
      → rq (k.tcb t).priority ≡ t ∷ r ∷ rs
      → ListsOk objs
          record k {
            sched = DList.insert_before (ready_list (k.tcb t).priority) t (DList.remove t k.sched);
          }
          (update rq (k.tcb t).priority ((r ∷ rs) ++ t ∷ []))
          wl
  rotated-ListsOk t r rs level front =
      let head : ℕ = ready_list (k.tcb t).priority in
      let own = own-IsRing k rq ok.queues t r rs level front in
      let rest = rest-IsRing k rq ok.queues t r rs level front in
      record {
        queues = rotate-QueuesOk k rq ok.queues t r rs level front;
        waits = λ o m.
            let w = ok.waits o m in
            let apart : Apart (o ∷ wl o) (head ∷ t ∷ r ∷ rs) = (λ a h.
              ground (
                arith,
                front,
                ready-Apart k rq ok.queues o (wl o) w (k.tcb t).priority level a h,
              )) in
            record {
              ring =
                  insert_before-other (DList.remove t k.sched) o (wl o)
                    (remove-other k.sched o (wl o) w.ring head (t ∷ r ∷ rs) own t (ground arith)
                      apart)
                    head (r ∷ rs) rest head t (ground arith) apart;
              head = w.head;
              object = w.object;
              level = w.level;
              blocked = λ p s h n.
                  ground (arith, w.blocked p s h n, front, mem-append s (r ∷ rs) (t ∷ []));
              no_task = λ p h. ground (arith, w.no_task p h, front, mem-append o (r ∷ rs) (t ∷ []));
            };
        apart = ok.apart;
      }

  -- `_mrtk_schedule_prio_change` on a waiting task: it is taken out of its waiting list.
  pub stolen-ListsOk :
      (o t priority : ℕ)
      → mem o objs ≡ true
      → mem t (wl o) ≡ true
      → priority < prio_levels
      → ListsOk objs
          (prio_change t priority k)
          (update rq priority (rq priority ++ t ∷ []))
          (update wl o (erase t (wl o)))
  unfolding prio_change remove_task
  stolen-ListsOk o t priority known waiting bound =
      let vl : ℕ → List ℕ = update wl o (erase t (wl o)) in
      let k1 : Kernel = record k { sched = DList.remove t k.sched } in
      let ok1 : ListsOk objs k1 rq vl = unlink-ListsOk objs k rq wl ok o known t waiting in
      let level = (ok.waits o known).level t waiting in
      let prio : ℕ = (k.tcb t).priority in
      let k2 : Kernel = remove_task t k in
      let empty =
        is_empty-nonempty k1.sched (ready_list prio) (rq prio) (ok1.queues.ring prio level) in
      let ok2 : ListsOk objs k2 rq vl = record {
        queues = record {
          ring = ok1.queues.ring;
          prio = ok1.queues.prio;
          object = ok1.queues.object;
          bits = λ p h. ground (
            arith,
            test_bit-bit_and p k.ready_prio_bitmap (not_bit prio),
            test_bit-not_pow prio p level h,
            ok1.queues.bits p h,
            empty,
          );
          small = ground (
            arith,
            ok1.queues.small,
            bit_and-le k.ready_prio_bitmap k.ready_prio_bitmap (not_bit prio),
          );
        };
        waits = λ o' m. WaitOk-congr k1 k2 rq o' (vl o') refl (λ s. refl) (ok1.waits o' m);
        apart = ok1.apart;
      } in
      let f = unlink-IsFree objs k rq wl ok o known t waiting in
      let f2 : IsFree objs k2 rq vl t = record {
        object = f.object;
        level = f.level;
        idle = f.idle;
        away = f.away;
      } in
      let small : priority % 256 ≡ priority = omega arith in
      subst
        (λ n.
          ListsOk objs (insert_task t (set_priority t n k2))
            (update rq priority (rq priority ++ t ∷ [])) vl)
        (sym small) (reinsert-ListsOk objs k2 rq vl ok2 t priority f2 bound)
