-- ===== src/Machine.antt =====
-- The kernel as a whole, as far as tasks and semaphores go: beside its memory stand the lists that
-- the pointers are meant to hold, and each call is a step that says what becomes of both. A step is
-- a critical section; interrupts, timers, the other objects and the switch of tasks come in between.
-- Not among the steps: the resumption of a task that waits for a semaphore, which corrupts the list in
-- which it waits (Task.Doubled); the end of a slice or a yield of a task that is not the first of its
-- queue; the calls on mutexes, events, mail boxes, message queues and pools that move tasks; and
-- the deletions.
pub mod Lists
pub mod Moves
pub mod States
pub mod Blocked
pub mod Sems
pub mod Queued
pub mod Turns
pub mod Asleep
pub mod Created
pub mod Start
pub mod Safety
use micro_rt_kernel.Prelude.{
  ℕ, ◌≤◌, ◌<◌, ◌≡◌, ◌≢◌, Bool, true, false, Option, some, List, [], ◌∷◌, ◌++◌, mem, erase, length,
}
use micro_rt_kernel.DList.Seg.{place}
use micro_rt_kernel.Kernel.{
  Kernel, Err, eok, init, suspend, null, first_object, prio_levels, update, set_last_error,
}
use micro_rt_kernel.Sched.{round_robin}
use micro_rt_kernel.Sched.Queues.{enqueued, dequeued}
use micro_rt_kernel.Sched.Change.{moved}
use micro_rt_kernel.Ipc.Suspend.{lower_than}
use micro_rt_kernel.Blocking.{Outcome, returned, blocked}
use micro_rt_kernel.Sem.{Sem, max_value}
use micro_rt_kernel.Sem
use micro_rt_kernel.Sem.Tokens.{IsValid}
use micro_rt_kernel.Task.{
  task_init, start, task_suspend, task_resume, yield, delay, is_runnable, set_task_priority,
  timer_callback,
}
use Lists.{ListsOk, IsFree}
use States.{StatesOk}

pub record Machine : Type 0 where
  pub kernel : Kernel
  -- the semaphores there are, and their control blocks
  pub objs : List ℕ
  pub sem : ℕ → Sem
  -- the tasks that are ready at a priority, and that wait for a semaphore
  pub ready : ℕ → List ℕ
  pub waiting : ℕ → List ℕ

-- Pointers, bitmap, states and counters agree with the lists.
pub record IsOk (m : Machine) : Type 0 where
  pub lists : ListsOk m.objs m.kernel m.ready m.waiting
  pub states : StatesOk m.objs m.kernel m.ready m.waiting
  pub sems : (o : ℕ) → mem o m.objs ≡ true → IsValid (m.sem o) (m.waiting o)

-- A task that stands in the queue of its priority.
pub record IsQueued (m : Machine) (t : ℕ) : Type 0 where
  pub level : (m.kernel.tcb t).priority < prio_levels
  pub queued : mem t (m.ready (m.kernel.tcb t).priority) ≡ true

-- An address that no list holds.
pub record IsSpare (m : Machine) (a : ℕ) : Type 0 where
  pub object : first_object ≤ a
  pub idle : (p : ℕ) → p < prio_levels → mem a (m.ready p) ≡ false
  pub away : (o : ℕ) → mem o m.objs ≡ true → mem a (o ∷ m.waiting o) ≡ false

-- What becomes of the lists at a release: the first waiting task, if there is one, is ready.
abbrev pub ready_after : Kernel → (ℕ → List ℕ) → List ℕ → ℕ → List ℕ
ready_after k rq [] = rq
ready_after k rq (t ∷ ts) = enqueued k t rq

abbrev pub tail : List ℕ → List ℕ
tail [] = []
tail (t ∷ ts) = ts

pub data Step (m : Machine) : Machine → Type 0 where
  -- `mrtk_sem_take` that returns at once, with a resource or an error
  takes :
      (fuel o timeout : ℕ) {e : Err} {s : Sem} {k : Kernel}
      → mem o m.objs ≡ true
      → Sem.take fuel o timeout (m.sem o) m.kernel ≡ some (returned e, s, k)
      → Step m (record m { kernel = k; sem = update m.sem o s })
  -- `mrtk_sem_take` whose caller goes to sleep, with or without a time limit
  waits :
      (fuel o timeout : ℕ) {s : Sem} {k : Kernel}
      → mem o m.objs ≡ true
      → IsQueued m m.kernel.current
      → length (m.waiting o) < fuel
      → Sem.take fuel o timeout (m.sem o) m.kernel ≡ some (blocked, s, k)
      → Step m (record m {
        kernel = k;
        ready = dequeued m.kernel m.kernel.current m.ready;
        waiting =
            update m.waiting o
              (place (lower_than m.kernel m.kernel.current) m.kernel.current (m.waiting o));
      })
  -- `mrtk_sem_release`, from a task or an interrupt
  releases :
      (o : ℕ)
      → mem o m.objs ≡ true
      → Step m (record m {
        kernel = (Sem.release o (m.sem o) m.kernel).2;
        sem = update m.sem o (Sem.release o (m.sem o) m.kernel).1;
        ready = ready_after m.kernel m.ready (m.waiting o);
        waiting = update m.waiting o (tail (m.waiting o));
      })
  -- The time limit of a waiting task passes.
  times_out :
      (o t : ℕ)
      → mem o m.objs ≡ true
      → mem t (m.waiting o) ≡ true
      → Step m (record m {
        kernel = timer_callback t m.kernel;
        ready = enqueued m.kernel t m.ready;
        waiting = update m.waiting o (erase t (m.waiting o));
      })
  suspends :
      (t : ℕ)
      → IsQueued m t
      → Step m
          (record m { kernel = (task_suspend t m.kernel).1; ready = dequeued m.kernel t m.ready })
  -- `mrtk_task_resume` and `mrtk_task_start`, of a task that waits for nothing
  resumes :
      (t : ℕ)
      → IsFree m.objs m.kernel m.ready m.waiting t
      → (m.kernel.tcb t).state ≡ suspend
      → Step m
          (record m { kernel = (task_resume t m.kernel).1; ready = enqueued m.kernel t m.ready })
  starts :
      (t : ℕ)
      → IsFree m.objs m.kernel m.ready m.waiting t
      → (m.kernel.tcb t).state ≡ init
      → Step m (record m { kernel = (start t m.kernel).1; ready = enqueued m.kernel t m.ready })
  -- `mrtk_task_yield` of the first task of its queue
  yields :
      (rs : List ℕ)
      → m.kernel.interrupt_nest ≡ 0
      → (m.kernel.tcb m.kernel.current).priority < prio_levels
      → m.ready (m.kernel.tcb m.kernel.current).priority ≡ m.kernel.current ∷ rs
      → Step m (record m {
        kernel = (yield m.kernel).1;
        ready =
            update m.ready (m.kernel.tcb m.kernel.current).priority (rs ++ m.kernel.current ∷ []);
      })
  -- `mrtk_task_delay` of the running task, for some ticks
  delays :
      (fuel tick : ℕ) {k : Kernel}
      → IsQueued m m.kernel.current
      → tick ≢ 0
      → delay fuel tick m.kernel ≡ some (eok, k)
      → Step m (record m { kernel = k; ready = dequeued m.kernel m.kernel.current m.ready })
  -- The time of a delay is over: the task stands in no list, its node leads to itself.
  wakes :
      (t : ℕ)
      → IsFree m.objs m.kernel m.ready m.waiting t
      → m.kernel.sched.next t ≡ t
      → m.kernel.sched.prev t ≡ t
      → Step m
          (record m { kernel = timer_callback t m.kernel; ready = enqueued m.kernel t m.ready })
  -- The tick that ends the slice of the running task, if that is the first of its queue
  slices :
      (rs : List ℕ)
      → m.kernel.current ≢ null
      → (m.kernel.tcb m.kernel.current).remain_tick ≡ 1
      → (m.kernel.tcb m.kernel.current).priority < prio_levels
      → m.ready (m.kernel.tcb m.kernel.current).priority ≡ m.kernel.current ∷ rs
      → Step m (record m {
        kernel = round_robin m.kernel;
        ready =
            update m.ready (m.kernel.tcb m.kernel.current).priority (rs ++ m.kernel.current ∷ []);
      })
  -- `mrtk_task_set_priority` of a ready task
  reprioritises :
      (t priority : ℕ)
      → IsQueued m t
      → priority < prio_levels
      → Step m (record m {
        kernel = (set_task_priority t priority m.kernel).1;
        ready = moved m.kernel m.ready t priority;
      })
  -- `mrtk_task_set_priority` of a task that is not ready, waiting for a semaphore or not
  reprices :
      (t priority : ℕ)
      → t ≢ null
      → is_runnable (m.kernel.tcb t).state ≡ false
      → priority < prio_levels
      → Step m (record m { kernel = (set_task_priority t priority m.kernel).1 })
  -- `mrtk_task_init` and `mrtk_sem_init` of an object whose memory is in no list
  inits_task :
      (t priority tick : ℕ)
      → IsSpare m t
      → priority < prio_levels
      → Step m (record m { kernel = (task_init t true priority tick m.kernel).1 })
  inits_sem :
      (o value flag : ℕ)
      → IsSpare m o
      → value ≤ max_value
      → Step m (record m {
        kernel = (Sem.init o true value flag (m.sem o) m.kernel).2;
        objs = o ∷ m.objs;
        sem = update m.sem o (Sem.init o true value flag (m.sem o) m.kernel).1;
        waiting = update m.waiting o [];
      })
  -- Whatever leaves the links, the bitmap and the priorities and states of the tasks alone: a tick
  -- that ends no slice, interrupts, the switch of tasks, calls that report an error.
  elsewhere :
      (k : Kernel)
      → k.sched ≡ m.kernel.sched
      → ((t : ℕ) → (k.tcb t).priority ≡ (m.kernel.tcb t).priority)
      → ((t : ℕ) → (k.tcb t).state ≡ (m.kernel.tcb t).state)
      → k.ready_prio_bitmap ≡ m.kernel.ready_prio_bitmap
      → Step m (record m { kernel = k })

pub data Reach (m : Machine) : Machine → Type 0 where
  here : Reach m m
  later : {n n' : Machine} → Reach m n → Step n n' → Reach m n'
