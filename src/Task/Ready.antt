-- ===== src/Task/Ready.antt =====
-- What the calls on tasks do to the ready queues.
use mathlib.Core.Path.{subst}
use micro_rt_kernel.Prelude.{
  ℕ, ◌≤◌, ◌<◌, ◌≡◌, refl, ap, ◌∙◌, true, false, List, [], ◌∷◌, ◌++◌, arith, ◌==◌, ==_refl, mem,
}
use micro_rt_kernel.DList
use micro_rt_kernel.DList.{Links}
use micro_rt_kernel.DList.Ring.{init-other}
use micro_rt_kernel.Kernel.{
  Kernel, Tcb, eok, TaskState, init, ready, suspend, null, ready_list, prio_levels, first_object,
  update, set_state, task_timer,
}
use micro_rt_kernel.Sched.{insert_task, remove_task, prio_ht}
use micro_rt_kernel.Sched.Queues.{
  QueuesOk, IsUnlinked, enqueued, dequeued, insert_task-QueuesOk, remove_task-QueuesOk,
}
use micro_rt_kernel.Sched.Change.{unqueued, moved}
use micro_rt_kernel.Timer.{timer_stop}
use micro_rt_kernel.Blocking.Reschedule.{reschedule-QueuesOk, reschedule-tcb}
use micro_rt_kernel.Ipc.Wait.{QueuesOk-congr}
use micro_rt_kernel.Ipc.Wake.{sched-timer_stop, tcb-timer_stop, bitmap-timer_stop}
use micro_rt_kernel.Task.{is_runnable, make_ready, start, task_suspend, task_resume}

-- A change of the state of a task leaves the queues.
pub set_state-QueuesOk :
    (t : ℕ) (st : TaskState) (k : Kernel) (rq : ℕ → List ℕ)
    → QueuesOk k rq
    → QueuesOk (set_state t st k) rq
set_state-QueuesOk t st k rq q =
    QueuesOk-congr k (set_state t st k) rq refl (λ s. ground arith) refl q

make_ready-QueuesOk :
    (task : ℕ) (k : Kernel) (rq : ℕ → List ℕ)
    → QueuesOk k rq
    → IsUnlinked k rq task
    → QueuesOk (make_ready task k) (enqueued k task rq)
      × (((make_ready task k).tcb task).state ≡ ready)
unfolding make_ready
make_ready-QueuesOk task k rq q u =
    let k1 = set_state task ready (insert_task task k) in
    let need = prio_ht task k1.current k1 in
    let q1 =
      set_state-QueuesOk task ready (insert_task task k) (enqueued k task rq)
        (insert_task-QueuesOk k rq q task u) in
    (
      reschedule-QueuesOk k1 need (enqueued k task rq) q1,
      ap (λ (c : Tcb). c.state) (reschedule-tcb k1 need task) ∙ ground (arith, ==_refl task),
    )

-- A task that was initialised and stands in no queue is started: it is ready, at the end of the queue
-- of its priority, and the other queues and the bitmap are in step.
pub start-QueuesOk :
    (task : ℕ) (k : Kernel) (rq : ℕ → List ℕ)
    → QueuesOk k rq
    → IsUnlinked k rq task
    → (k.tcb task).state ≡ init
    → ((start task k).0 ≡ eok)
      × QueuesOk (start task k).1 (enqueued k task rq)
      × (((start task k).1.tcb task).state ≡ ready)
unfolding start
start-QueuesOk task k rq q u is =
    let real : (task == null) ≡ false = ground (arith, u.object) in
    let (q1, st) = make_ready-QueuesOk task k rq q u in rw (real, is) (refl, q1, st)

-- A suspended task that stands in no queue is resumed.
pub task_resume-QueuesOk :
    (task : ℕ) (k : Kernel) (rq : ℕ → List ℕ)
    → QueuesOk k rq
    → IsUnlinked k rq task
    → (k.tcb task).state ≡ suspend
    → ((task_resume task k).0 ≡ eok)
      × QueuesOk (task_resume task k).1 (enqueued k task rq)
      × (((task_resume task k).1.tcb task).state ≡ ready)
unfolding task_resume
task_resume-QueuesOk task k rq q u is =
    let real : (task == null) ≡ false = ground (arith, u.object) in
    let k1 : Kernel = (timer_stop (task_timer task) k).1 in
    let tcbs : k1.tcb ≡ k.tcb = tcb-timer_stop (task_timer task) k in
    let same : (t : ℕ) → (k1.tcb t).priority ≡ (k.tcb t).priority =
      (λ t. ap (λ f. (f t).priority) tcbs) in
    let q1 =
      QueuesOk-congr k k1 rq (sched-timer_stop (task_timer task) k) same
        (bitmap-timer_stop (task_timer task) k) q in
    let u1 : IsUnlinked k1 rq task = record {
      object = u.object;
      level = rw (same task) u.level;
      absent = rw (same task) u.absent;
    } in
    let (q2, st) = make_ready-QueuesOk task k1 rq q1 u1 in
    rw (real, is)
      (
        refl,
        subst (λ n. QueuesOk (make_ready task k1) (update rq n (rq n ++ task ∷ []))) (same task) q2,
        st,
      )

module _ (task : ℕ) (k : Kernel) (rq : ℕ → List ℕ) (q : QueuesOk k rq)
    (level : (k.tcb task).priority < prio_levels)
    (queued : mem task (rq (k.tcb task).priority) ≡ true)
    (runs : is_runnable (k.tcb task).state ≡ true) where
  parked : Kernel
  parked =
      let k1 = remove_task task k in
      set_state task suspend (record k1 { sched = DList.init task k1.sched })

  parked-QueuesOk : QueuesOk parked (dequeued k task rq)
  unfolding parked
  parked-QueuesOk =
      let k1 : Kernel = remove_task task k in
      let q1 = remove_task-QueuesOk k rq q task level queued in
      let object : first_object ≤ task = q.object (k.tcb task).priority task level queued in
      record {
        ring = λ p h. init-other k1.sched (ready_list p) task (dequeued k task rq p) (q1.ring p h) (
            ground
              (arith, unqueued k rq task q level queued (k.tcb task).priority level p h, object));
        prio = λ p s h m. ground (arith, q1.prio p s h m);
        object = q1.object;
        bits = q1.bits;
        small = q1.small;
      }

  parked-IsUnlinked : IsUnlinked parked (dequeued k task rq) task
  unfolding parked remove_task
  parked-IsUnlinked = record {
    object = q.object (k.tcb task).priority task level queued;
    level = rw (==_refl task) level;
    absent =
        rw (==_refl task) (
          unqueued k rq task q level queued (k.tcb task).priority level (k.tcb task).priority
            level);
  }

  -- A queued task is suspended: it leaves its queue, and the others and the bitmap stay in step.
  pub task_suspend-QueuesOk :
      ((task_suspend task k).0 ≡ eok)
      × QueuesOk (task_suspend task k).1 (dequeued k task rq)
      × (((task_suspend task k).1.tcb task).state ≡ suspend)
  unfolding task_suspend parked
  task_suspend-QueuesOk =
      let object : first_object ≤ task = q.object (k.tcb task).priority task level queued in
      let real : (task == null) ≡ false = ground (arith, object) in
      let need = task == k.current in
      rw (real, runs)
        (
          refl,
          reschedule-QueuesOk parked need (dequeued k task rq) parked-QueuesOk,
          ap (λ (c : Tcb). c.state) (reschedule-tcb parked need task)
              ∙ ground (arith, ==_refl task),
        )

  priority-kept : ((task_suspend task k).1.tcb task).priority ≡ (k.tcb task).priority
  unfolding task_suspend remove_task parked
  priority-kept =
      let object : first_object ≤ task = q.object (k.tcb task).priority task level queued in
      let real : (task == null) ≡ false = ground (arith, object) in
      rw (real, runs)
        (ap (λ (c : Tcb). c.priority) (reschedule-tcb parked (task == k.current) task)
          ∙ ground (arith, ==_refl task))

  -- A queued task is suspended and resumed: it is ready again, at the end of its queue, and the other
  -- queues and the bitmap are in step.
  pub task_resume-suspend :
      let r = task_resume task (task_suspend task k).1 in
      (r.0 ≡ eok)
      × QueuesOk r.1 (moved k rq task (k.tcb task).priority)
      × ((r.1.tcb task).state ≡ ready)
  task_resume-suspend =
      let k1 : Kernel = (task_suspend task k).1 in
      let (done, q1, st) = task_suspend-QueuesOk in
      let u : IsUnlinked k1 (dequeued k task rq) task = record {
        object = q.object (k.tcb task).priority task level queued;
        level = rw priority-kept level;
        absent = rw priority-kept (
            unqueued k rq task q level queued (k.tcb task).priority level (k.tcb task).priority
              level);
      } in
      let (done', q2, st') = task_resume-QueuesOk task k1 (dequeued k task rq) q1 u st in
      (
        done',
        subst
            (λ n.
              QueuesOk (task_resume task k1).1
                (update (dequeued k task rq) n (dequeued k task rq n ++ task ∷ [])))
            priority-kept q2,
        st',
      )
