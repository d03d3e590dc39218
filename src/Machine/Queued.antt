-- ===== src/Machine/Queued.antt =====
-- The calls on tasks keep the machine in order.
use micro_rt_kernel.Prelude.{
  ℕ, ◌<◌, ◌≡◌, refl, ap, ◌∙◌, Bool, true, false, List, [], ◌∷◌, arith, ◌==◌, ltb, if◌then◌else◌,
  ==_refl, mem-append, mem_of_erase,
}
use micro_rt_kernel.DList
use micro_rt_kernel.Kernel.{
  Kernel, init, ready, suspend, null, prio_levels, set_state, set_priority, task_timer,
}
use micro_rt_kernel.Sched.{insert_task, remove_task, prio_ht}
use micro_rt_kernel.Sched.Queues.{enqueued, dequeued}
use micro_rt_kernel.Sched.Change.{moved}
use micro_rt_kernel.Timer.{timer_stop}
use micro_rt_kernel.Blocking.{reschedule_if}
use micro_rt_kernel.Blocking.Reschedule.{reschedule-tcb}
use micro_rt_kernel.Ipc.Wake.{tcb-timer_stop}
use micro_rt_kernel.Task.{
  is_runnable, make_ready, start, task_suspend, task_resume, set_task_priority, change_priority,
}
use micro_rt_kernel.Machine.{Machine, IsOk, IsQueued}
use micro_rt_kernel.Machine.Lists.{
  ListsOk, IsFree, init-ListsOk, insert_task-ListsOk, remove_task-ListsOk, queued-away,
}
use micro_rt_kernel.Machine.Moves.{
  remove_task-IsFree, set_state-ListsOk, reschedule-ListsOk, stop_insert-ListsOk, moved-ListsOk,
}
use micro_rt_kernel.Machine.States.{readied-StatesOk, suspended-StatesOk}

module _ (m : Machine) (ok : IsOk m) where
  -- A free task has become ready.
  pub free-IsOk :
      (t : ℕ) (g : Kernel)
      → IsFree m.objs m.kernel m.ready m.waiting t
      → ((s : ℕ) → (g.tcb s).state ≡ (if s == t then ready else (m.kernel.tcb s).state))
      → ListsOk m.objs g (enqueued m.kernel t m.ready) m.waiting
      → IsOk (record m { kernel = g; ready = enqueued m.kernel t m.ready })
  free-IsOk t g f one lists = record {
    lists = lists;
    states =
        readied-StatesOk m.objs m.kernel g m.ready (enqueued m.kernel t m.ready) m.waiting m.waiting
          t ready ok.states one refl (λ p x b i. ground (arith, mem-append x (m.ready p) (t ∷ [])))
          (λ a x n i. i) (λ a n. ground (arith, f.away a n));
    sems = ok.sems;
  }

  pub starts-IsOk :
      (t : ℕ)
      → IsFree m.objs m.kernel m.ready m.waiting t
      → (m.kernel.tcb t).state ≡ init
      → IsOk (record m { kernel = (start t m.kernel).1; ready = enqueued m.kernel t m.ready })
  unfolding start make_ready insert_task
  starts-IsOk t f is =
      let real : (t == null) ≡ false = ground (arith, f.object) in
      let k1 : Kernel = set_state t ready (insert_task t m.kernel) in
      let need : Bool = prio_ht t k1.current k1 in
      let lists =
        set_state-ListsOk m.objs (insert_task t m.kernel) (enqueued m.kernel t m.ready) m.waiting
          (insert_task-ListsOk m.objs m.kernel m.ready m.waiting ok.lists t f) t ready in
      rw (real, is)
        (free-IsOk t (reschedule_if need k1) f
          (λ s. ap (λ c. c.state) (reschedule-tcb k1 need s) ∙ ground (arith, ==_refl t))
          (reschedule-ListsOk m.objs k1 (enqueued m.kernel t m.ready) m.waiting lists need))

  pub resumes-IsOk :
      (t : ℕ)
      → IsFree m.objs m.kernel m.ready m.waiting t
      → (m.kernel.tcb t).state ≡ suspend
      → IsOk (record m { kernel = (task_resume t m.kernel).1; ready = enqueued m.kernel t m.ready })
  unfolding task_resume make_ready insert_task
  resumes-IsOk t f is =
      let real : (t == null) ≡ false = ground (arith, f.object) in
      let k1 : Kernel = set_state t ready (insert_task t (timer_stop (task_timer t) m.kernel).1) in
      let need : Bool = prio_ht t k1.current k1 in
      let lists =
        stop_insert-ListsOk m.objs m.kernel m.ready m.waiting ok.lists t (task_timer t) ready f in
      rw (real, is)
        (free-IsOk t (reschedule_if need k1) f
          (λ s.
            ap (λ c. c.state) (reschedule-tcb k1 need s)
            ∙ rw (tcb-timer_stop (task_timer t) m.kernel) (ground (arith, ==_refl t)))
          (reschedule-ListsOk m.objs k1 (enqueued m.kernel t m.ready) m.waiting lists need))

  module _ (t : ℕ) (q : IsQueued m t) where
    runnable : is_runnable (m.kernel.tcb t).state ≡ true
    runnable = ok.states.runs (m.kernel.tcb t).priority t q.level q.queued

    real : (t == null) ≡ false
    real =
        let object = ok.lists.queues.object (m.kernel.tcb t).priority t q.level q.queued in
        ground (arith, object)

    pub suspends-IsOk :
        IsOk
          (record m { kernel = (task_suspend t m.kernel).1; ready = dequeued m.kernel t m.ready })
    unfolding task_suspend remove_task
    suspends-IsOk =
        let rq : ℕ → List ℕ = dequeued m.kernel t m.ready in
        let k1 : Kernel = remove_task t m.kernel in
        let ok1 =
          remove_task-ListsOk m.objs m.kernel m.ready m.waiting ok.lists t q.level q.queued in
        let f = remove_task-IsFree m.objs m.kernel m.ready m.waiting ok.lists t q.level q.queued in
        let k2 : Kernel = record k1 { sched = DList.init t k1.sched } in
        let ok2 = init-ListsOk m.objs k1 rq m.waiting ok1 t f in
        let k3 : Kernel = set_state t suspend k2 in
        let ok3 = set_state-ListsOk m.objs k2 rq m.waiting ok2 t suspend in
        let need : Bool = t == m.kernel.current in
        let states =
          suspended-StatesOk m.objs m.kernel (reschedule_if need k3) m.ready rq m.waiting m.waiting
            t suspend ok.states
            (λ s. ap (λ c. c.state) (reschedule-tcb k3 need s) ∙ ground (arith, ==_refl t)) refl
            (λ p x b i. ground (arith, mem_of_erase x t (m.ready p))) f.idle
            (λ a x n i. ground arith) in
        rw (real, runnable)
          (record {
            lists = reschedule-ListsOk m.objs k3 rq m.waiting ok3 need;
            states = states;
            sems = ok.sems;
          })

    pub reprioritises-IsOk :
        (priority : ℕ)
        → priority < prio_levels
        → IsOk (record m {
          kernel = (set_task_priority t priority m.kernel).1;
          ready = moved m.kernel m.ready t priority;
        })
    unfolding set_task_priority change_priority insert_task remove_task
    reprioritises-IsOk priority bound =
        let rq : ℕ → List ℕ = moved m.kernel m.ready t priority in
        let valid : ltb priority prio_levels ≡ true = ground arith in
        let k1 : Kernel = insert_task t (set_priority t priority (remove_task t m.kernel)) in
        let ok1 =
          moved-ListsOk m.objs m.kernel m.ready m.waiting ok.lists t priority q.level q.queued
            bound in
        let k2 : Kernel = set_state t ready k1 in
        let need : Bool = prio_ht t k2.current k2 in
        let away = queued-away m.objs m.kernel m.ready m.waiting ok.lists t q.level q.queued in
        let states =
          readied-StatesOk m.objs m.kernel (reschedule_if need k2) m.ready rq m.waiting m.waiting t
            ready ok.states
            (λ s. ap (λ c. c.state) (reschedule-tcb k2 need s) ∙ ground (arith, ==_refl t)) refl
            (λ p x b i. ground (
              arith,
              mem_of_erase x t (m.ready p),
              mem-append x (dequeued m.kernel t m.ready p) (t ∷ []),
            ))
            (λ a x n i. i) (λ a n. ground (arith, away a n)) in
        rw (real, valid, runnable)
          (record {
            lists =
                reschedule-ListsOk m.objs k2 rq m.waiting
                  (set_state-ListsOk m.objs k1 rq m.waiting ok1 t ready) need;
            states = states;
            sems = ok.sems;
          })
