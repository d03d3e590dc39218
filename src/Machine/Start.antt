-- ===== src/Machine/Start.antt =====
-- `mrtk_system_init` and `mrtk_system_start`: the machine in which the calls begin.
use mathlib.Core.Path.{subst}
use micro_rt_kernel.Prelude.{ℕ, ◌≤◌, ◌<◌, ◌≡◌, refl, ◌≢◌, true, [], ◌∷◌, ◌++◌, arith, ==_refl}
use micro_rt_kernel.Kernel.{Kernel, eok, ready, first_object, prio_levels, update, set_state}
use micro_rt_kernel.Irq.{irq_init}
use micro_rt_kernel.Obj.{obj_system_init}
use micro_rt_kernel.Timer.{tick_max, timer_system_init}
use micro_rt_kernel.Sched.{schedule_init, insert_task, idle_priority}
use micro_rt_kernel.Sched.Queues.{enqueued}
use micro_rt_kernel.Sched.Init.{schedule_init-QueuesOk}
use micro_rt_kernel.Sem.{Sem}
use micro_rt_kernel.System.{system_init, system_start}
use micro_rt_kernel.Task.{task_init, init_idle, init_timer_daemon}
use micro_rt_kernel.Machine.{Machine, IsOk, IsSpare}
use micro_rt_kernel.Machine.Lists.{IsFree, ListsOk-congr, insert_task-ListsOk}
use micro_rt_kernel.Machine.Moves.{set_state-ListsOk}
use micro_rt_kernel.Machine.Created.{inits_task-IsOk, inited-Untouched}
use micro_rt_kernel.Machine.Queued.{free-IsOk}

-- No task and no semaphore yet.
abbrev empty : Kernel → (ℕ → Sem) → Machine
empty k sem = record {
  kernel = schedule_init k;
  objs = [];
  sem = sem;
  ready = λ p. [];
  waiting = λ o. [];
}

empty-IsOk : (k : Kernel) (sem : ℕ → Sem) → IsOk (empty k sem)
empty-IsOk k sem = record {
  lists = record {
    queues = schedule_init-QueuesOk k;
    waits = λ o h. absurd (ground arith);
    apart = λ o o' h h' ne. absurd (ground arith);
  };
  states = record {
    runs = λ p t h i. absurd (ground arith);
    sleeps = λ o t n i. absurd (ground arith);
  };
  sems = λ o n. absurd (ground arith);
}

-- A task that is initialised and becomes ready without `mrtk_task_start`.
abbrev admitted : ℕ → ℕ → Machine → Kernel
admitted t priority m =
    let k1 = (task_init t true priority tick_max m.kernel).1 in set_state t ready (insert_task t k1)

abbrev with_task : ℕ → ℕ → Machine → Machine
with_task t priority m = record m {
  kernel = admitted t priority m;
  ready = update m.ready priority (m.ready priority ++ t ∷ []);
}

with_task-IsOk :
    (m : Machine) (t priority : ℕ)
    → IsOk m
    → IsSpare m t
    → priority < prio_levels
    → IsOk (with_task t priority m)
unfolding insert_task
with_task-IsOk m t priority ok spare bound =
    let k1 : Kernel = (task_init t true priority tick_max m.kernel).1 in
    let m1 : Machine = record m { kernel = k1 } in
    let ok1 : IsOk m1 = inits_task-IsOk m ok t spare priority tick_max bound in
    let u = inited-Untouched m ok t spare priority tick_max bound in
    let same : (k1.tcb t).priority ≡ priority = rw u.tcb (ground (arith, ==_refl t)) in
    let f : IsFree m.objs k1 m.ready m.waiting t = record {
      object = spare.object;
      level = rw same bound;
      idle = spare.idle;
      away = spare.away;
    } in
    let lists =
      set_state-ListsOk m.objs (insert_task t k1) (enqueued k1 t m.ready) m.waiting
        (insert_task-ListsOk m.objs k1 m.ready m.waiting ok1.lists t f) t ready in
    subst
      (λ n. IsOk (record m {
        kernel = admitted t priority m;
        ready = update m.ready n (m.ready n ++ t ∷ []);
      }))
      same (free-IsOk m1 ok1 t (admitted t priority m) f (λ s. ground (arith, ==_refl t)) lists)

task_init-eok :
    (t priority tick : ℕ) (k : Kernel)
    → first_object ≤ t
    → priority < prio_levels
    → (task_init t true priority tick k).0 ≡ eok
unfolding task_init
task_init-eok t priority tick k object bound = ground arith

init_idle-eq :
    (m : Machine) (t : ℕ)
    → first_object ≤ t
    → init_idle t m.kernel ≡ (eok, admitted t idle_priority m)
unfolding init_idle
init_idle-eq m t object =
    rw (task_init-eok t idle_priority tick_max m.kernel object (omega arith), init_idle) refl

init_timer_daemon-eq :
    (m : Machine) (t : ℕ) → first_object ≤ t → init_timer_daemon t m.kernel ≡ (eok, admitted t 8 m)
unfolding init_timer_daemon
init_timer_daemon-eq m t object =
    rw (task_init-eok t 8 tick_max m.kernel object (omega arith), init_timer_daemon) refl

-- The kernel as `mrtk_system_start` leaves it to the first task, if the heap was set up.
abbrev pub booted : ℕ → ℕ → Kernel → (ℕ → Sem) → Machine
booted idle daemon k sem = record {
  kernel = system_start (system_init eok idle daemon k).1;
  objs = [];
  sem = sem;
  ready = update (update (λ p. []) idle_priority (idle ∷ [])) 8 (daemon ∷ []);
  waiting = λ o. [];
}

module _ (idle daemon : ℕ) (k : Kernel) (sem : ℕ → Sem) (idle_object : first_object ≤ idle)
    (daemon_object : first_object ≤ daemon) (distinct : idle ≢ daemon) where
  abbrev cleared : Machine
  cleared = empty (timer_system_init (obj_system_init (irq_init k))) sem

  abbrev with_both : Machine
  with_both = with_task daemon 8 (with_task idle idle_priority cleared)

  with_both-IsOk : IsOk with_both
  with_both-IsOk =
      with_task-IsOk (with_task idle idle_priority cleared) daemon 8
        (with_task-IsOk cleared idle idle_priority
          (empty-IsOk (timer_system_init (obj_system_init (irq_init k))) sem)
          (record { object = idle_object; idle = λ p h. refl; away = λ o n. absurd (ground arith) })
          (omega arith))
        (record {
          object = daemon_object;
          idle = λ p h. ground (arith, distinct);
          away = λ o n. absurd (ground arith);
        })
        (omega arith)

  system_init-eq : system_init eok idle daemon k ≡ (eok, with_both.kernel)
  unfolding system_init
  system_init-eq =
      let first = init_idle-eq cleared idle idle_object in
      let second =
        init_timer_daemon-eq (with_task idle idle_priority cleared) daemon daemon_object in
      rw (first, system_init) (rw first second)

  pub booted-IsOk : IsOk (booted idle daemon k sem)
  unfolding system_start
  booted-IsOk =
      let ok = with_both-IsOk in
      rw system_init-eq (record {
        lists =
            ListsOk-congr [] with_both.kernel (system_start with_both.kernel) with_both.ready
              with_both.waiting refl (λ t. refl) refl ok.lists;
        states = record { runs = ok.states.runs; sleeps = ok.states.sleeps };
        sems = ok.sems;
      })
