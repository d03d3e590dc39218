-- ===== src/Task/Turn.antt =====
-- `mrtk_task_yield` and `mrtk_task_set_priority` on the ready queues.
use mathlib.Core.Path.{subst}
use micro_rt_kernel.Prelude.{
  ℕ, ◌%◌, ◌≤◌, ◌<◌, ◌≡◌, refl, sym, ap, ◌∙◌, inl, inr, true, false, List, [], ◌∷◌, ◌++◌, arith,
  ◌==◌, ltb, Bool-cases, ==_refl, ==_iff, mem,
}
use micro_rt_kernel.DList
use micro_rt_kernel.DList.Ring.{IsRing}
use micro_rt_kernel.Kernel.{
  Kernel, Tcb, eok, ready, null, ready_list, prio_levels, first_object, update, set_state,
  set_priority,
}
use micro_rt_kernel.Sched.{insert_task, remove_task, prio_change, prio_ht}
use micro_rt_kernel.Sched.Queues.{QueuesOk}
use micro_rt_kernel.Sched.Change.{moved, rotated, rotate-QueuesOk, own-IsRing, prio_change-QueuesOk}
use micro_rt_kernel.Blocking.Reschedule.{reschedule-QueuesOk, reschedule-tcb}
use micro_rt_kernel.Task.{is_runnable, yield, change_priority, set_task_priority}
use micro_rt_kernel.Task.Ready.{set_state-QueuesOk}

QueuesOk-ext :
    (k : Kernel) (rq sq : ℕ → List ℕ) → ((p : ℕ) → sq p ≡ rq p) → QueuesOk k rq → QueuesOk k sq
QueuesOk-ext k rq sq same q = record {
  ring = λ p h. rw (same p) (q.ring p h);
  prio = λ p t h. rw (same p) (q.prio p t h);
  object = λ p t h. rw (same p) (q.object p t h);
  bits = λ p h. rw (same p) (q.bits p h);
  small = q.small;
}

-- Outside interrupts, a running task that is the first of its queue yields: alone in the queue it
-- changes nothing, otherwise it goes behind the others of its priority, while the other queues and the
-- bitmap stay in step.
pub yield-rotated :
    (k : Kernel) (rq : ℕ → List ℕ) (rs : List ℕ) (q : QueuesOk k rq)
    → k.interrupt_nest ≡ 0
    → (k.tcb k.current).priority < prio_levels
    → rq (k.tcb k.current).priority ≡ k.current ∷ rs
    → ((yield k).0 ≡ eok)
      × QueuesOk (yield k).1 (update rq (k.tcb k.current).priority (rs ++ k.current ∷ []))
unfolding yield
yield-rotated k rq [] q calm level first =
    let task : ℕ = k.current in
    let head : ℕ = ready_list (k.tcb task).priority in
    let ring : IsRing k.sched head (task ∷ []) = rw first at (q.ring (k.tcb task).priority level) in
    let alone : (k.sched.next (k.sched.next head) == head) ≡ true = ground (arith, ring.links) in
    let outside : ltb 0 k.interrupt_nest ≡ false = ground arith in
    rw (outside, alone)
      (
        refl,
        QueuesOk-ext k rq (update rq (k.tcb task).priority (task ∷ []))
            (λ p. elim (Bool-cases (p == (k.tcb task).priority)) [
              | inl e ↦
                  let e' : p ≡ (k.tcb task).priority = (==_iff _ _).0 e in
                  rw e (sym (ap rq e' ∙ first))
              | inr e ↦ rw e refl
            ])
            q,
      )
yield-rotated k rq (r ∷ rs) q calm level first =
    let task : ℕ = k.current in
    let head : ℕ = ready_list (k.tcb task).priority in
    let ring = own-IsRing k rq q task r rs level first in
    let more : (k.sched.next (k.sched.next head) == head) ≡ false =
      ground (arith, ring.links, ring.fresh) in
    let k1 : Kernel = record k {
      sched = DList.insert_before head task (DList.remove task k.sched);
    } in
    let outside : ltb 0 k.interrupt_nest ≡ false = ground arith in
    rw (outside, more)
      (
        refl,
        reschedule-QueuesOk k1 true (rotated k rq q task r rs level first)
            (rotate-QueuesOk k rq q task r rs level first),
      )

-- The priority of a queued task is set to a valid one: it moves to the end of the queue of the new
-- priority and is marked ready, even if it was running, and queues, priorities and bitmap are in step.
pub set_task_priority-QueuesOk :
    (task priority : ℕ) (k : Kernel) (rq : ℕ → List ℕ)
    → QueuesOk k rq
    → (k.tcb task).priority < prio_levels
    → mem task (rq (k.tcb task).priority) ≡ true
    → is_runnable (k.tcb task).state ≡ true
    → priority < prio_levels
    → ((set_task_priority task priority k).0 ≡ eok)
      × QueuesOk (set_task_priority task priority k).1 (moved k rq task priority)
      × (((set_task_priority task priority k).1.tcb task).state ≡ ready)
unfolding set_task_priority change_priority prio_change
set_task_priority-QueuesOk task priority k rq q level queued runs bound =
    let object : first_object ≤ task = q.object (k.tcb task).priority task level queued in
    let real : (task == null) ≡ false = ground (arith, object) in
    let valid : ltb priority prio_levels ≡ true = ground arith in
    let k1 : Kernel = insert_task task (set_priority task priority (remove_task task k)) in
    let q1 : QueuesOk k1 (moved k rq task priority) =
      let small : priority % 256 ≡ priority = omega arith in
      subst
        (λ n.
          QueuesOk (insert_task task (set_priority task n (remove_task task k)))
            (moved k rq task priority))
        small (prio_change-QueuesOk k rq task q level queued priority bound) in
    let k2 : Kernel = set_state task ready k1 in
    let need = prio_ht task k2.current k2 in
    rw (runs, real, valid)
      (
        refl,
        reschedule-QueuesOk k2 need (moved k rq task priority)
            (set_state-QueuesOk task ready k1 (moved k rq task priority) q1),
        ap (λ (c : Tcb). c.state) (reschedule-tcb k2 need task) ∙ ground (arith, ==_refl task),
      )
