-- ===== src/Machine/Blocked.antt =====
-- `mrtk_sem_take` as a step: what a call that returns and a call that sleeps leave behind.
use mathlib.Core.Path.{subst, fun_ext}
use mathlib.Core.Option.{Option}
use micro_rt_kernel.Prelude.{
  ℕ, zero, suc, ◌+◌, ◌-◌, ◌%◌, ◌^◌, ◌<◌, ◌≡◌, refl, ◌≢◌, ◌⊎◌, inl, inr, ap, ◌∙◌, Bool, true, false,
  ◌||◌, none, some, List, arith, ◌==◌, if◌then◌else◌, ◌>>=◌, Bool-cases, mem, erase, length,
}
use micro_rt_kernel.Kernel.{
  Kernel, Err, suspend, eok, null, update, set_timer, task_timer, prio_levels,
}
use micro_rt_kernel.Sched.{schedule, remove_task}
use micro_rt_kernel.Sched.Queues.{dequeued}
use micro_rt_kernel.Timer.{
  timer_insert, timer_start, timer_control, timer_remove, set_time, waiting_forever,
}
use micro_rt_kernel.Blocking.{returned, blocked, is_positive, arm}
use micro_rt_kernel.Ipc.{suspend_one}
use micro_rt_kernel.Blocking.Reschedule.{reschedule-tcb}
use micro_rt_kernel.Ipc.{link_task}
use micro_rt_kernel.DList.Seg.{first, place}
use micro_rt_kernel.Ipc.Suspend.{lower_than, left}
use micro_rt_kernel.Sem.{Sem, take, wait}
use micro_rt_kernel.Sem.Take.{cleared, cleared-priority}
use micro_rt_kernel.Machine.Lists.{ListsOk, ListsOk-congr}
use micro_rt_kernel.Machine.Moves.{suspend_one-ListsOk, set_last_error-ListsOk, reschedule-ListsOk}

-- What only the timers change.
pub record Untouched (k g : Kernel) : Type 0 where
  pub sched : g.sched ≡ k.sched
  pub tcb : g.tcb ≡ k.tcb
  pub bitmap : g.ready_prio_bitmap ≡ k.ready_prio_bitmap

timer_insert-Untouched :
    (fuel t : ℕ) (k g : Kernel) → timer_insert fuel t k ≡ some g → Untouched k g
unfolding timer_insert
timer_insert-Untouched fuel t k g e = ground arith

pub take-returned :
    (fuel o timeout : ℕ) (s s' : Sem) (k k' : Kernel) (e : Err)
    → take fuel o timeout s k ≡ some (returned e, s', k')
    → (k' ≡ k) × ((s' ≡ s) ⊎ ((0 < s.value) × (s' ≡ record s { value = s.value - 1 })))
unfolding take
take-returned fuel o timeout s s' k k' e h = ground arith

pub take-blocked :
    (fuel o timeout : ℕ) (s s' : Sem) (k k' : Kernel)
    → take fuel o timeout s k ≡ some (blocked, s', k')
    → (s' ≡ s) × (s.value ≡ 0) × (wait fuel o s.flag timeout k ≡ some k')
unfolding take
take-blocked fuel o timeout s s' k k' h = ground arith

pub bind_some :
    {A B : Type 0} (o : Option A) (f : A → Option B) {b : B}
    → (o >>= f) ≡ some b
    → (a : A) × (o ≡ some a) × (f a ≡ some b)
bind_some none f h = cc
bind_some (some a) f h = (a, refl, h)

pub timer_start-Untouched :
    (fuel t : ℕ) (k : Kernel) (r : Err × Kernel) → timer_start fuel t k ≡ some r → Untouched k r.1
unfolding timer_start timer_remove
timer_start-Untouched fuel t k r e =
    let kk : Kernel =
      let k1 = if (k.timer t).activated then timer_remove t k else k in
      let due = (k1.tick + (k1.timer t).init_tick) % 2 ^ 32 in
      set_timer t (record (k1.timer t) { timeout_tick = due }) k1 in
    let before : Untouched k kk = ground arith in
    elim (Bool-cases ((t == null) || ((k.timer t).init_tick == waiting_forever))) [
      | inl e' ↦ let h = rw e' at e in ground arith
      | inr e' ↦
          let (g, inserted, h) =
            bind_some (timer_insert fuel t kk) (λ (k2 : Kernel). some (eok, k2)) (rw e' at e) in
          let after = timer_insert-Untouched fuel t kk g inserted in ground arith
    ]

pub set_time-Untouched :
    (fuel t time : ℕ) (k : Kernel) (r : Err × Kernel)
    → timer_control fuel t (set_time (some time)) k ≡ some r
    → Untouched k r.1
unfolding timer_control
set_time-Untouched fuel zero time k r e = ground arith
set_time-Untouched fuel (suc t) time k r e = ground arith

pub Untouched-trans : (k g h : Kernel) → Untouched k g → Untouched g h → Untouched k h
Untouched-trans k g h a b = record {
  sched = b.sched ∙ a.sched;
  tcb = b.tcb ∙ a.tcb;
  bitmap = b.bitmap ∙ a.bitmap;
}

-- Setting and starting the timer of a task.
arm-Untouched : (fuel t time : ℕ) (k g : Kernel) → arm fuel t time k ≡ some g → Untouched k g
unfolding arm
arm-Untouched fuel t time k g e =
    let (r, set, e') =
      bind_some (timer_control fuel (task_timer t) (set_time (some time)) k)
        (λ (r : Err × Kernel). (timer_start fuel (task_timer t) r.1 >>= λ r'. some r'.1)) e in
    let (r', started, e'') =
      bind_some (timer_start fuel (task_timer t) r.1) (λ (r' : Err × Kernel). some r'.1) e' in
    let a = set_time-Untouched fuel (task_timer t) time k r set in
    let b = timer_start-Untouched fuel (task_timer t) r.1 r' started in
    let c = Untouched-trans k r.1 r'.1 a b in ground arith

arm_if-Untouched :
    (limited : Bool) (fuel t time : ℕ) (k g : Kernel)
    → (if limited then arm fuel t time k else some k) ≡ some g
    → Untouched k g
arm_if-Untouched true fuel t time k g e = arm-Untouched fuel t time k g e
arm_if-Untouched false fuel t time k g e = ground arith

module _ (objs : List ℕ) (k : Kernel) (rq wl : ℕ → List ℕ) (ok : ListsOk objs k rq wl) where
  pub Untouched-ListsOk : (g : Kernel) → Untouched k g → ListsOk objs g rq wl
  Untouched-ListsOk g u =
      ListsOk-congr objs k g rq wl u.sched (λ t. ap (λ f. (f t).priority) u.tcb) u.bitmap ok

module _ (objs : List ℕ) (k : Kernel) (rq wl : ℕ → List ℕ) (ok : ListsOk objs k rq wl) where
  module _ (fuel o flag timeout : ℕ) (known : mem o objs ≡ true) (ne : k.current ≢ null)
      (level : (k.tcb k.current).priority < prio_levels)
      (queued : mem k.current (rq (k.tcb k.current).priority) ≡ true)
      (lt : length (wl o) < fuel) where
    -- The caller has left its ready queue and stands in the waiting list.
    abbrev parked : Kernel
    parked =
        link_task (first (lower_than (cleared k) k.current) (wl o) o) k.current
          (left k.current (cleared k))

    same_order : lower_than (cleared k) k.current ≡ lower_than k k.current
    same_order = fun_ext λ s. ground (arith, cleared-priority k s, cleared-priority k k.current)

    parked-suspended :
        (suspend_one fuel o flag k.current (cleared k) ≡ some parked)
        × ListsOk objs parked
            (dequeued k k.current rq)
            (update wl o (place (lower_than k k.current) k.current (wl o)))
    parked-suspended =
        let same : ((cleared k).tcb k.current).priority ≡ (k.tcb k.current).priority =
          cleared-priority k k.current in
        let (made, lists) =
          suspend_one-ListsOk objs (cleared k) rq wl
            (set_last_error-ListsOk objs k rq wl ok k.current eok) fuel o flag k.current known ne
            (rw same level) (rw same queued) lt in
        (
          made,
          subst
              (λ n.
                ListsOk objs parked (update rq n (erase k.current (rq n)))
                  (update wl o (place (lower_than k k.current) k.current (wl o))))
              same
              (subst
                (λ f.
                  ListsOk objs parked (dequeued (cleared k) k.current rq)
                    (update wl o (place f k.current (wl o))))
                same_order lists),
        )

    parked-state :
        (s : ℕ) → (parked.tcb s).state ≡ (if s == k.current then suspend else (k.tcb s).state)
    unfolding remove_task
    parked-state s = ground arith

    pub wait-ListsOk :
        (k' : Kernel)
        → wait fuel o flag timeout k ≡ some k'
        → ListsOk objs k'
            (dequeued k k.current rq)
            (update wl o (place (lower_than k k.current) k.current (wl o)))
          × ((s : ℕ) → (k'.tcb s).state ≡ (if s == k.current then suspend else (k.tcb s).state))
    unfolding wait
    wait-ListsOk k' e =
        let (made, lists) = parked-suspended in
        let e' = rw made at e in
        let (k2, armed, e'') =
          bind_some (if is_positive timeout then arm fuel k.current timeout parked else some parked)
            (λ (k2 : Kernel). some (schedule k2)) e' in
        let u = arm_if-Untouched (is_positive timeout) fuel k.current timeout parked k2 armed in
        let end : k' ≡ schedule k2 = ground arith in
        let lists2 =
          Untouched-ListsOk objs parked (dequeued k k.current rq)
            (update wl o (place (lower_than k k.current) k.current (wl o))) lists k2 u in
        rw end (
          reschedule-ListsOk objs k2 (dequeued k k.current rq)
              (update wl o (place (lower_than k k.current) k.current (wl o))) lists2 true,
          λ s.
              ap (λ c. c.state) (reschedule-tcb k2 true s)
              ∙ (ap (λ f. (f s).state) u.tcb ∙ parked-state s),
        )
