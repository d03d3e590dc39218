-- ===== src/Task/Doubled.antt =====
-- `mrtk_task_resume` of a task that waits for an object.
use mathlib.Core.Path.{subst}
use micro_rt_kernel.Prelude.{
  ℕ, ◌<◌, ◌≡◌, refl, sym, ap, ◌∙◌, true, false, List, [], ◌∷◌, ◌++◌, arith, ◌==◌, ==_refl, mem,
  mem-append,
}
use micro_rt_kernel.DList
use micro_rt_kernel.DList.{Links}
use micro_rt_kernel.DList.Seg.{prev-mem, next-insert_before}
use micro_rt_kernel.DList.Ring.{IsRing}
use micro_rt_kernel.Kernel.{
  Kernel, Err, eok, ready, suspend, null, ready_list, prio_levels, task_timer, set_state,
}
use micro_rt_kernel.Sched.{insert_task, prio_ht}
use micro_rt_kernel.Sched.Queues.{QueuesOk, IsUnlinked, enqueued}
use micro_rt_kernel.Timer.{timer_stop}
use micro_rt_kernel.Blocking.Reschedule.{reschedule-sched}
use micro_rt_kernel.Ipc.Wait.{WaitOk}
use micro_rt_kernel.Ipc.Wake.{sched-timer_stop, tcb-timer_stop}
use micro_rt_kernel.Task.{task_resume, make_ready}
use micro_rt_kernel.Task.Ready.{task_resume-QueuesOk}

module _ (t o : ℕ) (ts : List ℕ) (k : Kernel) (rq : ℕ → List ℕ) (q : QueuesOk k rq)
    (w : WaitOk k rq o (t ∷ ts)) (asleep : (k.tcb t).state ≡ suspend) where
  abbrev after : Kernel
  after = (task_resume t k).1

  abbrev head : ℕ
  head = ready_list (k.tcb t).priority

  level : (k.tcb t).priority < prio_levels
  level = w.level t (ground (arith, ==_refl t))

  abbrev stopped : Kernel
  stopped = (timer_stop (task_timer t) k).1

  resume-eq : task_resume t k ≡ (eok, make_ready t stopped)
  unfolding task_resume
  resume-eq =
      let object = w.object t (ground (arith, ==_refl t)) in
      let real : (t == null) ≡ false = ground (arith, object) in rw (real, asleep) refl

  after-sched : after.sched ≡ DList.insert_before head t k.sched
  unfolding make_ready insert_task
  after-sched =
      let k2 : Kernel = set_state t ready (insert_task t stopped) in
      let put : (make_ready t stopped).sched ≡ DList.insert_before head t k.sched =
        reschedule-sched k2 (prio_ht t k2.current k2)
        ∙ rw (sched-timer_stop (task_timer t) k, tcb-timer_stop (task_timer t) k) refl in
      ap (λ (r : Err × Kernel). r.1.sched) resume-eq ∙ put

  after-next : after.sched.next o ≡ t
  after-next =
      ap (λ (l : Links). l.next o) after-sched
      ∙ next-insert_before k.sched head t o
      ∙ ground (arith, w.ring.fresh, w.ring.links)

  resumed : ((task_resume t k).0 ≡ eok) × QueuesOk after (enqueued k t rq)
  resumed =
      let u : IsUnlinked k rq t = record {
        object = w.object t (ground (arith, ==_refl t));
        level = level;
        absent = w.blocked (k.tcb t).priority t level (ground (arith, ==_refl t));
      } in
      let (done, queues, st) = task_resume-QueuesOk t k rq q u asleep in (done, queues)

  -- What stands before the task is in its ready list.
  before-mem : mem (after.sched.prev t) (head ∷ rq (k.tcb t).priority ++ t ∷ []) ≡ true
  before-mem =
      let ring : IsRing after.sched head (rq (k.tcb t).priority ++ t ∷ []) =
        rw (==_refl (k.tcb t).priority) at (resumed.1.ring (k.tcb t).priority level) in
      prev-mem after.sched head head t (rq (k.tcb t).priority ++ t ∷ []) ring.links
        (ground (arith, mem-append t (rq (k.tcb t).priority) (t ∷ []), ==_refl t))

  not-IsRing : (ws : List ℕ) → ¬ IsRing after.sched o ws
  not-IsRing [] r = ground (arith, r.links, after-next, w.ring.fresh)
  not-IsRing (x ∷ xs) r =
      let same : x ≡ t = sym r.links.0 ∙ after-next in
      let back : after.sched.prev t ≡ o = ap (λ z. after.sched.prev z) (sym same) ∙ r.links.1 in
      let there =
        subst (λ z. mem z (head ∷ rq (k.tcb t).priority ++ t ∷ []) ≡ true) back before-mem in
      ground (
        arith,
        level,
        w.no_task (k.tcb t).priority level,
        w.head,
        w.ring.fresh,
        mem-append o (rq (k.tcb t).priority) (t ∷ []),
      )

  -- A task that is the first to wait for an object and is resumed: the call succeeds and puts the task
  -- at the end of the ready queue of its priority, but the object's list still begins with it, and is
  -- no list any more: no sequence of tasks is what its pointers lead through, there and back.
  pub task_resume-waiting :
      ((task_resume t k).0 ≡ eok)
      × QueuesOk after (enqueued k t rq)
      × (after.sched.next o ≡ t)
      × ((ws : List ℕ) → ¬ IsRing after.sched o ws)
  task_resume-waiting = (resumed.0, resumed.1, after-next, not-IsRing)
