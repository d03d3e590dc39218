-- ===== src/Machine/Asleep.antt =====
-- The delay of a task, its wake-up, and a new priority for a task that sleeps keep the machine in
-- order.
use mathlib.Core.Path.{fun_ext}
use micro_rt_kernel.Prelude.{
  ℕ, ◌<◌, ◌≡◌, refl, ◌≢◌, ap, ◌∙◌, Bool, true, false, some, List, arith, ◌==◌, ltb, if◌then◌else◌,
  ==_refl, Bool-cases, inl, inr, mem_of_erase, ◌>>=◌,
}
use micro_rt_kernel.DList
use micro_rt_kernel.DList.{Links}
use micro_rt_kernel.Kernel.{
  Kernel, Err, eok, ready, suspend, set_state, set_priority, task_timer, null, prio_levels,
}
use micro_rt_kernel.Sched.{insert_task, remove_task, schedule, prio_ht}
use micro_rt_kernel.Sched.Queues.{enqueued, dequeued}
use micro_rt_kernel.Timer.{timer_stop, timer_control, timer_start, set_time, set_oneshot}
use micro_rt_kernel.Blocking.{reschedule_if}
use micro_rt_kernel.Blocking.Reschedule.{reschedule-tcb}
use micro_rt_kernel.Ipc.Wake.{tcb-timer_stop}
use micro_rt_kernel.Task.{
  sleep, delay, timer_callback, is_runnable, set_task_priority, change_priority,
}
use micro_rt_kernel.Machine.{Machine, IsOk, IsQueued}
use micro_rt_kernel.Machine.Lists.{
  ListsOk, IsFree, init-ListsOk, insert_task-ListsOk, remove_task-ListsOk,
}
use micro_rt_kernel.Machine.Moves.{
  remove_task-IsFree, set_state-ListsOk, reschedule-ListsOk, timer_stop-ListsOk,
}
use micro_rt_kernel.Machine.States.{suspended-StatesOk}
use micro_rt_kernel.Machine.Blocked.{
  Untouched, Untouched-trans, Untouched-ListsOk, bind_some, set_time-Untouched,
  timer_start-Untouched,
}
use micro_rt_kernel.Machine.Queued.{free-IsOk}

-- A node that leads to itself is removed: that initialises it.
remove_self : (t : ℕ) (l : Links) → l.next t ≡ t → l.prev t ≡ t → DList.remove t l ≡ DList.init t l
unfolding DList.remove DList.init
remove_self t l en ep =
    let en' : (DList.remove t l).next ≡ (DList.init t l).next =
      fun_ext λ x. ground (arith, en, ep, ==_refl t) in
    let ep' : (DList.remove t l).prev ≡ (DList.init t l).prev =
      fun_ext λ x. ground (arith, en, ep, ==_refl t) in
    λ i. record { next = en' i; prev = ep' i }

set_oneshot-Untouched :
    (fuel t : ℕ) (k : Kernel) (r : Err × Kernel)
    → timer_control fuel t set_oneshot k ≡ some r
    → Untouched k r.1
unfolding timer_control
set_oneshot-Untouched fuel t k r e = ground arith

-- What a delay does: the task leaves its queue, and the rest touches only the timers.
abbrev drowsy : ℕ → Kernel → Kernel
drowsy t k = (timer_stop (task_timer t) (set_state t suspend (remove_task t k))).1

sleep-Untouched :
    (fuel tick : ℕ) (k k' : Kernel)
    → sleep fuel tick k ≡ some k'
    → (g : Kernel) × Untouched (drowsy k.current k) g × (k' ≡ schedule g)
unfolding sleep
sleep-Untouched fuel tick k k' e =
    let t : ℕ = k.current in
    let x : ℕ = task_timer t in
    let (r, h, e1) =
      bind_some (timer_control fuel x (set_time (some tick)) (drowsy t k))
        (λ (r : Err × Kernel). timer_control fuel x set_oneshot r.1 >>= λ r'.
          timer_start fuel x r'.1 >>= λ r''. some (schedule r''.1))
        e in
    let (r', h', e2) =
      bind_some (timer_control fuel x set_oneshot r.1)
        (λ (r' : Err × Kernel). timer_start fuel x r'.1 >>= λ r''. some (schedule r''.1)) e1 in
    let (r'', h'', e3) =
      bind_some (timer_start fuel x r'.1) (λ (r'' : Err × Kernel). some (schedule r''.1)) e2 in
    let a = set_time-Untouched fuel x tick (drowsy t k) r h in
    let b = set_oneshot-Untouched fuel x r.1 r' h' in
    let c = timer_start-Untouched fuel x r'.1 r'' h'' in
    (
      r''.1,
      Untouched-trans (drowsy t k) r.1 r''.1 a (Untouched-trans r.1 r'.1 r''.1 b c),
      ground arith,
    )

delay-sleep :
    (fuel tick : ℕ) (k k' : Kernel)
    → tick ≢ 0
    → delay fuel tick k ≡ some (eok, k')
    → sleep fuel tick k ≡ some k'
unfolding delay
delay-sleep fuel tick k k' positive e =
    let some_ticks : (tick == 0) ≡ false = ground arith in
    elim (Bool-cases (ltb 0 k.interrupt_nest)) [
      | inl h ↦ absurd (ground (arith, rw h at e))
      | inr h ↦
          let (g, asleep, same) =
            bind_some (sleep fuel tick k) (λ (k1 : Kernel). some (eok, k1))
              (rw (h, some_ticks) at e) in
          asleep ∙ ground arith
    ]

module _ (m : Machine) (ok : IsOk m) where
  pub delays-IsOk :
      (fuel tick : ℕ) (k : Kernel)
      → IsQueued m m.kernel.current
      → tick ≢ 0
      → delay fuel tick m.kernel ≡ some (eok, k)
      → IsOk (record m { kernel = k; ready = dequeued m.kernel m.kernel.current m.ready })
  unfolding remove_task
  delays-IsOk fuel tick k q positive e =
      let t : ℕ = m.kernel.current in
      let rq : ℕ → List ℕ = dequeued m.kernel t m.ready in
      let (g, u, end) =
        sleep-Untouched fuel tick m.kernel k (delay-sleep fuel tick m.kernel k positive e) in
      let k1 : Kernel = remove_task t m.kernel in
      let k2 : Kernel = set_state t suspend k1 in
      let k3 : Kernel = drowsy t m.kernel in
      let ok1 = remove_task-ListsOk m.objs m.kernel m.ready m.waiting ok.lists t q.level q.queued in
      let f = remove_task-IsFree m.objs m.kernel m.ready m.waiting ok.lists t q.level q.queued in
      let ok2 = set_state-ListsOk m.objs k1 rq m.waiting ok1 t suspend in
      let ok3 = timer_stop-ListsOk m.objs k2 rq m.waiting ok2 (task_timer t) in
      let ok4 = Untouched-ListsOk m.objs k3 rq m.waiting ok3 g u in
      let one : (s : ℕ) → (k.tcb s).state ≡ (if s == t then suspend else (m.kernel.tcb s).state) =
        λ s.
          ap (λ c. (c.tcb s).state) end
          ∙ ap (λ c. c.state) (reschedule-tcb g true s)
          ∙ ap (λ f. (f s).state) u.tcb
          ∙ ap (λ f. (f s).state) (tcb-timer_stop (task_timer t) k2)
          ∙ ground arith in
      record {
        lists = rw end (reschedule-ListsOk m.objs g rq m.waiting ok4 true);
        states =
            suspended-StatesOk m.objs m.kernel k m.ready rq m.waiting m.waiting t suspend ok.states
              one refl (λ p x b i. ground (arith, mem_of_erase x t (m.ready p))) f.idle
              (λ a x n i. ground arith);
        sems = ok.sems;
      }

  pub wakes-IsOk :
      (t : ℕ)
      → IsFree m.objs m.kernel m.ready m.waiting t
      → m.kernel.sched.next t ≡ t
      → m.kernel.sched.prev t ≡ t
      → IsOk (record m { kernel = timer_callback t m.kernel; ready = enqueued m.kernel t m.ready })
  unfolding timer_callback insert_task
  wakes-IsOk t f next prev =
      let k1 : Kernel = record m.kernel { sched = DList.init t m.kernel.sched } in
      let ok1 = init-ListsOk m.objs m.kernel m.ready m.waiting ok.lists t f in
      let f1 : IsFree m.objs k1 m.ready m.waiting t = record {
        object = f.object;
        level = f.level;
        idle = f.idle;
        away = f.away;
      } in
      let k2 : Kernel = set_state t ready (insert_task t k1) in
      let need : Bool = prio_ht t k2.current k2 in
      let lists =
        set_state-ListsOk m.objs (insert_task t k1) (enqueued k1 t m.ready) m.waiting
          (insert_task-ListsOk m.objs k1 m.ready m.waiting ok1 t f1) t ready in
      rw (remove_self t m.kernel.sched next prev) (
        free-IsOk m ok t (reschedule_if need k2) f
          (λ s. ap (λ c. c.state) (reschedule-tcb k2 need s) ∙ ground (arith, ==_refl t))
          (reschedule-ListsOk m.objs k2 (enqueued m.kernel t m.ready) m.waiting lists need))

  -- The priority of a task that is not ready changes where it stands.
  pub repriced-IsOk :
      (t priority : ℕ)
      → t ≢ null
      → is_runnable (m.kernel.tcb t).state ≡ false
      → priority < prio_levels
      → IsOk (record m { kernel = (set_task_priority t priority m.kernel).1 })
  unfolding set_task_priority change_priority
  repriced-IsOk t priority object asleep bound =
      let real : (t == null) ≡ false = ground arith in
      let valid : ltb priority prio_levels ≡ true = ground arith in
      let k1 : Kernel = set_priority t priority m.kernel in
      let need : Bool = prio_ht t k1.current k1 in
      let lists : ListsOk m.objs k1 m.ready m.waiting = record {
        queues =
            let q = ok.lists.queues in
            record {
              ring = q.ring;
              prio = λ p s h i. ground (arith, q.prio p s h i, ok.states.runs p s h i);
              object = q.object;
              bits = q.bits;
              small = q.small;
            };
        waits = λ o n.
            let w = ok.lists.waits o n in
            record {
              ring = w.ring;
              head = w.head;
              object = w.object;
              level = λ s i. ground (arith, w.level s i);
              blocked = w.blocked;
              no_task = w.no_task;
            };
        apart = ok.lists.apart;
      } in
      let kept : (s : ℕ) → ((reschedule_if need k1).tcb s).state ≡ (m.kernel.tcb s).state =
        λ s. ap (λ c. c.state) (reschedule-tcb k1 need s) ∙ ground arith in
      rw (real, valid, asleep)
        (record {
          lists = reschedule-ListsOk m.objs k1 m.ready m.waiting lists need;
          states = record {
            runs = λ p s h i. ap is_runnable (kept s) ∙ ok.states.runs p s h i;
            sleeps = λ o s n i. kept s ∙ ok.states.sleeps o s n i;
          };
          sems = ok.sems;
        })
