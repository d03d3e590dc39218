-- ===== src/Sched/Change.antt =====
-- Changes of a task's control block, `_mrtk_schedule_prio_change`, and the round robin of the tick.
use mathlib.Core.Path.{subst}
use micro_rt_kernel.Prelude.{
  ℕ, ◌%◌, ◌<◌, ◌≡◌, refl, ◌≢◌, inl, inr, true, false, List, [], ◌∷◌, ◌++◌, arith, ◌==◌,
  if◌then◌else◌, Bool-cases, ==_refl, ==_iff, mem, Apart, mem-append,
}
use micro_rt_kernel.DList
use micro_rt_kernel.DList.Ring.{
  IsRing, insert_before-IsRing, remove-IsRing, insert_before-other, remove-other,
}
use micro_rt_kernel.Kernel.{Kernel, Tcb, ready_list, prio_levels, update, set_tcb}
use micro_rt_kernel.Sched.{insert_task, remove_task, prio_change, slice_end}
use micro_rt_kernel.Sched.Queues.{
  QueuesOk, IsUnlinked, dequeued, insert_task-QueuesOk, remove_task-QueuesOk, remove_task-absent,
  lists-Apart,
}

module _ (k : Kernel) (rq : ℕ → List ℕ) (q : QueuesOk k rq) (t : ℕ) where
  -- A control block may change as long as a queued task keeps its priority.
  pub set_tcb-QueuesOk :
      (c : Tcb)
      → ((p : ℕ) → p < prio_levels → mem t (rq p) ≡ true → c.priority ≡ p)
      → QueuesOk (set_tcb t c k) rq
  set_tcb-QueuesOk c keep = record {
    ring = q.ring;
    prio = λ p s h m. ground (arith, q.prio p s, keep p);
    object = q.object;
    bits = q.bits;
    small = q.small;
  }

module _ (k : Kernel) (rq : ℕ → List ℕ) (t : ℕ) where
  -- The queues after a change of priority: out of the old queue, to the end of the new one.
  abbrev pub moved : ℕ → ℕ → List ℕ
  moved prio = update (dequeued k t rq) prio (dequeued k t rq prio ++ t ∷ [])

  module _ (q : QueuesOk k rq) (level : (k.tcb t).priority < prio_levels)
      (queued : mem t (rq (k.tcb t).priority) ≡ true) (prio : ℕ) (bound : prio < prio_levels) where
    pub unqueued : (p : ℕ) → p < prio_levels → mem t (dequeued k t rq p) ≡ false
    unqueued p h = ground (arith, q.prio p t h, remove_task-absent k rq q t level queued)

    -- A queued task whose priority is changed moves to the end of the queue of its new priority,
    -- and pointers, priorities and bitmap stay in step.
    pub prio_change-QueuesOk : QueuesOk (prio_change t prio k) (moved prio)
    unfolding prio_change
    prio_change-QueuesOk =
        let k1 : Kernel = remove_task t k in
        let c : Tcb = record (k1.tcb t) { priority = prio % 256 } in
        let e : (if t == t then c else k1.tcb t).priority ≡ prio = ground arith in
        let q1 =
          set_tcb-QueuesOk k1 (dequeued k t rq) (remove_task-QueuesOk k rq q t level queued) t c
            (λ p h m. ground (arith, unqueued p h)) in
        let u : IsUnlinked (set_tcb t c k1) (dequeued k t rq) t = record {
          object = q.object _ t level queued;
          level = rw e bound;
          absent = rw e (unqueued prio bound);
        } in
        subst
          (λ n.
            QueuesOk (insert_task t (set_tcb t c k1))
              (update (dequeued k t rq) n (dequeued k t rq n ++ t ∷ [])))
          e (insert_task-QueuesOk (set_tcb t c k1) (dequeued k t rq) q1 t u)

-- The tick's round robin, when the slice of the running task ends: `rest` is what stands behind it.
module _ (k : Kernel) (rq : ℕ → List ℕ) (q : QueuesOk k rq) (task r : ℕ) (rs : List ℕ)
    (level : (k.tcb task).priority < prio_levels)
    (first : rq (k.tcb task).priority ≡ task ∷ r ∷ rs) where
  abbrev pub rotated : ℕ → List ℕ
  rotated = update rq (k.tcb task).priority ((r ∷ rs) ++ task ∷ [])

  pub own-IsRing : IsRing k.sched (ready_list (k.tcb task).priority) (task ∷ r ∷ rs)
  own-IsRing = rw first at (q.ring (k.tcb task).priority level)

  -- The task's own list after the removal, and after the removal and the insertion.
  pub rest-IsRing : IsRing (DList.remove task k.sched) (ready_list (k.tcb task).priority) (r ∷ rs)
  rest-IsRing = rw (==_refl task) at (
      remove-IsRing k.sched (ready_list (k.tcb task).priority) task (task ∷ r ∷ rs) own-IsRing
        (ground arith))

  moved-IsRing :
      IsRing
        (DList.insert_before (ready_list (k.tcb task).priority) task (DList.remove task k.sched))
        (ready_list (k.tcb task).priority)
        ((r ∷ rs) ++ task ∷ [])
  moved-IsRing =
      insert_before-IsRing (DList.remove task k.sched) (ready_list (k.tcb task).priority) task
        (r ∷ rs) rest-IsRing (ground (arith, own-IsRing.fresh)) (own-IsRing.distinct.0)

  apart :
      (p : ℕ)
      → p < prio_levels
      → p ≢ (k.tcb task).priority
      → Apart (ready_list p ∷ rq p) (ready_list (k.tcb task).priority ∷ task ∷ r ∷ rs)
  apart p h ne a m =
      ground (arith, lists-Apart k rq q task p (k.tcb task).priority h level ne a m, first)

  others-IsRing :
      (p : ℕ)
      → p < prio_levels
      → p ≢ (k.tcb task).priority
      → IsRing
          (DList.insert_before (ready_list (k.tcb task).priority) task (DList.remove task k.sched))
          (ready_list p)
          (rq p)
  others-IsRing p h ne =
      insert_before-other (DList.remove task k.sched) (ready_list p) (rq p)
        (remove-other k.sched (ready_list p) (rq p) (q.ring p h) (ready_list (k.tcb task).priority)
          (task ∷ r ∷ rs) own-IsRing task (ground arith) (apart p h ne))
        (ready_list (k.tcb task).priority) (r ∷ rs) rest-IsRing (ready_list (k.tcb task).priority)
        task (ground arith) (apart p h ne)

  -- A task behind the others of its priority.
  pub rotate-QueuesOk :
      QueuesOk
        record k {
          sched =
              DList.insert_before
                (ready_list (k.tcb task).priority)
                task
                (DList.remove task k.sched);
        }
        rotated
  rotate-QueuesOk = record {
    ring = λ p h. elim (Bool-cases (p == (k.tcb task).priority)) [
      | inl e ↦
          let e' : p ≡ (k.tcb task).priority = (==_iff _ _).0 e in
          rw (e', ==_refl (k.tcb task).priority) moved-IsRing
      | inr e ↦ rw e (others-IsRing p h (ground arith))
    ];
    prio = λ p s h m.
        ground (arith, q.prio p s, first, mem-append s (r ∷ rs) (task ∷ []), q.prio p task);
    object = λ p s h m.
        ground (arith, q.object p s, first, mem-append s (r ∷ rs) (task ∷ []), q.object p task);
    bits = λ p h. ground (arith, q.bits p h, first);
    small = q.small;
  }

  -- When the slice of a queue's first task runs out and others of its priority wait, the task
  -- moves behind them with a new slice, every other queue stays as it is, the bitmap stays in
  -- step, and a reschedule is requested.
  pub slice_end-rotated :
      QueuesOk (slice_end task k) rotated
      × ((slice_end task k).need_schedule ≡ true)
      × (((slice_end task k).tcb task).remain_tick ≡ (k.tcb task).init_tick)
  unfolding slice_end
  slice_end-rotated =
      let head : ℕ = ready_list (k.tcb task).priority in
      let more : (k.sched.next (k.sched.next head) == head) ≡ false =
        ground (arith, own-IsRing.links, own-IsRing.fresh) in
      rw more (
        record {
          ring = rotate-QueuesOk.ring;
          prio = λ p s h m. ground (arith, rotate-QueuesOk.prio p s h m);
          object = rotate-QueuesOk.object;
          bits = rotate-QueuesOk.bits;
          small = rotate-QueuesOk.small;
        },
        refl,
        ground arith,
      )
