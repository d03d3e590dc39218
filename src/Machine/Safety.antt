-- ===== src/Machine/Safety.antt =====
-- What holds in every state that the calls can reach from the start of the kernel.
use micro_rt_kernel.Prelude.{
  ℕ, ◌≤◌, ◌<◌, ◌≡◌, refl, ◌≢◌, ap, true, false, List, [], ◌∷◌, arith, ==_refl, mem,
}
use micro_rt_kernel.Kernel.{Kernel, suspend, first_object, prio_levels}
use micro_rt_kernel.Sched.{select}
use micro_rt_kernel.Sched.Select.{select-head}
use micro_rt_kernel.Task.{is_runnable}
use micro_rt_kernel.Sem.{Sem}
use micro_rt_kernel.Machine.{
  Machine, IsOk, Step, takes, waits, releases, times_out, suspends, resumes, starts, yields, delays,
  wakes, slices, reprices, reprioritises, inits_task, inits_sem, elsewhere, Reach, here, later,
}
use micro_rt_kernel.Machine.Lists.{ListsOk-congr}
use micro_rt_kernel.Machine.Sems.{takes-IsOk, waits-IsOk, releases-IsOk, times_out-IsOk}
use micro_rt_kernel.Machine.Queued.{suspends-IsOk, resumes-IsOk, starts-IsOk, reprioritises-IsOk}
use micro_rt_kernel.Machine.Turns.{yields-IsOk, slices-IsOk}
use micro_rt_kernel.Machine.Asleep.{delays-IsOk, wakes-IsOk, repriced-IsOk}
use micro_rt_kernel.Machine.Created.{inits_task-IsOk, inits_sem-IsOk}
use micro_rt_kernel.Machine.Start.{booted, booted-IsOk}

elsewhere-IsOk :
    (m : Machine) (k : Kernel)
    → IsOk m
    → k.sched ≡ m.kernel.sched
    → ((t : ℕ) → (k.tcb t).priority ≡ (m.kernel.tcb t).priority)
    → ((t : ℕ) → (k.tcb t).state ≡ (m.kernel.tcb t).state)
    → k.ready_prio_bitmap ≡ m.kernel.ready_prio_bitmap
    → IsOk (record m { kernel = k })
elsewhere-IsOk m k ok es ep et eb = record {
  lists = ListsOk-congr m.objs m.kernel k m.ready m.waiting es ep eb ok.lists;
  states = record {
    runs = λ p t h i. rw (et t) (ok.states.runs p t h i);
    sleeps = λ o t n i. rw (et t) (ok.states.sleeps o t n i);
  };
  sems = ok.sems;
}

-- Each call keeps the machine in order.
pub Step-IsOk : {m n : Machine} → Step m n → IsOk m → IsOk n
Step-IsOk {m} (takes fuel o timeout {e} {s} {k} known h) ok =
    takes-IsOk m ok o known fuel timeout e s k h
Step-IsOk {m} (waits fuel o timeout {s} {k} known q lt h) ok =
    waits-IsOk m ok o known fuel timeout s k q lt h
Step-IsOk {m} (releases o known) ok = releases-IsOk m ok o known
Step-IsOk {m} (times_out o t known i) ok = times_out-IsOk m ok o known t i
Step-IsOk {m} (suspends t q) ok = suspends-IsOk m ok t q
Step-IsOk {m} (resumes t f is) ok = resumes-IsOk m ok t f is
Step-IsOk {m} (starts t f is) ok = starts-IsOk m ok t f is
Step-IsOk {m} (yields rs calm level front) ok = yields-IsOk m ok level rs calm front
Step-IsOk {m} (reprioritises t priority q bound) ok = reprioritises-IsOk m ok t q priority bound
Step-IsOk {m} (inits_task t priority tick spare bound) ok =
    inits_task-IsOk m ok t spare priority tick bound
Step-IsOk {m} (inits_sem o value flag spare small) ok = inits_sem-IsOk m ok o spare value flag small
Step-IsOk {m} (delays fuel tick {k} q positive h) ok = delays-IsOk m ok fuel tick k q positive h
Step-IsOk {m} (wakes t f next prev) ok = wakes-IsOk m ok t f next prev
Step-IsOk {m} (slices rs real last level front) ok = slices-IsOk m ok level rs front real last
Step-IsOk {m} (reprices t priority real asleep bound) ok =
    repriced-IsOk m ok t priority real asleep bound
Step-IsOk {m} (elsewhere k es ep et eb) ok = elsewhere-IsOk m k ok es ep et eb

pub Reach-IsOk : {m n : Machine} → IsOk m → Reach m n → IsOk n
Reach-IsOk ok here = ok
Reach-IsOk ok (later r s) = Step-IsOk s (Reach-IsOk ok r)

-- From the start of the kernel on, with two distinct tasks for idling and for the timers, whatever
-- the memory held, in every state that the following steps reach, in any order: take (by a ready
-- task, if it sleeps), release and time-out of a semaphore; initialisation of tasks and semaphores
-- that no list holds; start of a task that no list holds, and resumption of a suspended one;
-- suspension of a ready task; delay of the running task by some ticks, if it is ready, and its
-- wake-up, if no list holds it and its node leads to itself; change of the priority of a task;
-- yield outside interrupts, and end of the slice, of a task that is the first of its queue; and
-- whatever leaves the links, the bitmap and the priorities and states of the tasks alone.
-- Priorities are below 32. No such step are the resumption of a task that waits for a semaphore,
-- deletions, and the calls on other objects that move tasks. Then the pointers of all ready queues
-- and waiting lists, the bitmap, the states of the tasks and the counts of the semaphores are those
-- of the lists that the steps describe.
pub booted-Reach :
    (idle daemon : ℕ) (k : Kernel) (sem : ℕ → Sem) (m : Machine)
    → first_object ≤ idle
    → first_object ≤ daemon
    → idle ≢ daemon
    → Reach (booted idle daemon k sem) m
    → IsOk m
booted-Reach idle daemon k sem m hi hd ne r = Reach-IsOk (booted-IsOk idle daemon k sem hi hd ne) r

-- In every state that the steps of `booted-Reach` reach from a machine in order, so without a
-- resumption of a waiting task, deletions, and calls on other objects that move tasks: a task that
-- waits for a semaphore is suspended, is in no ready queue and waits for no other semaphore, and
-- the semaphore has no resource left.
pub waiting-Reach :
    (m n : Machine) (o t : ℕ)
    → IsOk m
    → Reach m n
    → mem o n.objs ≡ true
    → mem t (n.waiting o) ≡ true
    → ((n.kernel.tcb t).state ≡ suspend)
      × ((p : ℕ) → p < prio_levels → mem t (n.ready p) ≡ false)
      × ((o' : ℕ) → mem o' n.objs ≡ true → o ≢ o' → mem t (n.waiting o') ≡ false)
      × ((n.sem o).value ≡ 0)
waiting-Reach m n o t start r known there =
    let ok = Reach-IsOk start r in
    (
      ok.states.sleeps o t known there,
      λ p h. (ok.lists.waits o known).blocked p t h there,
      λ o' known' ne. ground (arith, ok.lists.apart o o' known known' ne t),
      (ok.sems o known).idle (λ e. absurd (ground (arith, ap (mem t) e))),
    )

-- In every state that the steps of `booted-Reach` reach from a machine in order, so without a
-- resumption of a waiting task, deletions, and calls on other objects that move tasks: if `p` is
-- the most urgent level that has a ready task, the scheduler selects the first task of that level,
-- which is READY or RUNNING and waits for no semaphore.
pub select-Reach :
    (m n : Machine) (p t : ℕ) (ts : List ℕ)
    → IsOk m
    → Reach m n
    → p < prio_levels
    → n.ready p ≡ t ∷ ts
    → ((above : ℕ) → above < p → n.ready above ≡ [])
    → (select n.kernel ≡ t)
      × (is_runnable (n.kernel.tcb (select n.kernel)).state ≡ true)
      × ((o : ℕ) → mem o n.objs ≡ true → mem (select n.kernel) (n.waiting o) ≡ false)
select-Reach m n p t ts start r bound first above =
    let ok = Reach-IsOk start r in
    let chosen = select-head n.kernel n.ready ok.lists.queues p t ts bound first above in
    let queued : mem t (n.ready p) ≡ true = rw first (ground (arith, ==_refl t)) in
    rw chosen (
      refl,
      ok.states.runs p t bound queued,
      λ o known. ground (arith, (ok.lists.waits o known).blocked p t bound),
    )
