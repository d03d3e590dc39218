-- ===== src/Mutex/Handover.antt =====
-- The release of a mutex for which tasks wait.
use mathlib.Core.Path.{subst}
use micro_rt_kernel.Prelude.{
  ℕ, ◌+◌, ◌%◌, ◌<◌, ◌≡◌, refl, ap, ◌∙◌, ◌≢◌, inl, inr, Bool, true, false, not, ◌||◌, some, List, [],
  ◌∷◌, ◌++◌, arith, ◌==◌, ==_of_ne, ==_refl, ==_iff, mem, if◌then◌else◌, Bool-cases,
}
use micro_rt_kernel.DList.Ring.{IsRing, next-cons, is_empty-cons}
use micro_rt_kernel.Kernel.{
  Kernel, Tcb, Mutex, eok, ready, null, update, prio_levels, set_mutex, set_tcb, set_last_error,
}
use micro_rt_kernel.Sched.{insert_task, remove_task, prio_change}
use micro_rt_kernel.Sched.Queues.{QueuesOk, IsUnlinked, enqueued, dequeued, remove_task-QueuesOk}
use micro_rt_kernel.Sched.Change.{moved, unqueued, set_tcb-QueuesOk, prio_change-QueuesOk}
use micro_rt_kernel.Blocking.{reschedule_if}
use micro_rt_kernel.Blocking.Reschedule.{
  reschedule-QueuesOk, reschedule-WaitOk, reschedule-tcb, reschedule-mutex,
}
use micro_rt_kernel.Ipc.{resume_one}
use micro_rt_kernel.Ipc.Wait.{
  WaitOk, QueuesOk-congr, WaitOk-congr, insert_task-WaitOk, remove_task-WaitOk,
}
use micro_rt_kernel.Ipc.ResumeAll.{resume_one-Resumed}
use micro_rt_kernel.Mutex.{find_highest_inherited_prio, unhold, hold, hand_over, release}

-- A change of the priority of a queued task leaves a waiting list.
module _ (k : Kernel) (rq : ℕ → List ℕ) (q : QueuesOk k rq) (list : ℕ) (ws : List ℕ)
    (w : WaitOk k rq list ws) (task prio : ℕ) (level : (k.tcb task).priority < prio_levels)
    (queued : mem task (rq (k.tcb task).priority) ≡ true) (bound : prio < prio_levels) where
  waits-not : mem task ws ≡ false
  waits-not = elim (Bool-cases (mem task ws)) [
    | inl e ↦ absurd (ground (arith, w.blocked (k.tcb task).priority task level e))
    | inr e ↦ e
  ]

  list-not : (task == list) ≡ false
  list-not = elim (Bool-cases (task == list)) [
    | inl e ↦
        let same : task ≡ list = (==_iff _ _).0 e in
        absurd (
          ground (
            arith,
            w.no_task (k.tcb task).priority level,
            ap (λ z. mem z (rq (k.tcb task).priority)) same,
          ))
    | inr e ↦ e
  ]

  prio_change-WaitOk : WaitOk (prio_change task prio k) (moved k rq task prio) list ws
  unfolding prio_change
  prio_change-WaitOk =
      let k1 : Kernel = remove_task task k in
      let c : Tcb = record (k1.tcb task) { priority = prio % 256 } in
      let e : (if task == task then c else k1.tcb task).priority ≡ prio = ground arith in
      let q1 =
        set_tcb-QueuesOk k1 (dequeued k task rq) (remove_task-QueuesOk k rq q task level queued)
          task c (λ p h m. ground (arith, unqueued k rq task q level queued prio bound p h)) in
      let w1 = remove_task-WaitOk k rq q list ws w task level queued in
      let w2 : WaitOk (set_tcb task c k1) (dequeued k task rq) list ws = record {
        ring = w1.ring;
        head = w1.head;
        object = w1.object;
        level = λ t m. elim (Bool-cases (t == task)) [
          | inl f ↦
              let same : t ≡ task = (==_iff _ _).0 f in
              absurd (ground (arith, waits-not, ap (λ z. mem z ws) same))
          | inr f ↦ rw f (w1.level t m)
        ];
        blocked = w1.blocked;
        no_task = w1.no_task;
      } in
      let u : IsUnlinked (set_tcb task c k1) (dequeued k task rq) task = record {
        object = q.object (k.tcb task).priority task level queued;
        level = rw e bound;
        absent = rw e (unqueued k rq task q level queued prio bound prio bound);
      } in
      subst
        (λ n.
          WaitOk (insert_task task (set_tcb task c k1))
            (update (dequeued k task rq) n (dequeued k task rq n ++ task ∷ [])) list ws)
        e
        (insert_task-WaitOk (set_tcb task c k1) (dequeued k task rq) q1 list ws w2 task u
          (ground (arith, waits-not, list-not)))

-- The steps of the third part, with the priority `prio` that the owner gets back.
module _ (mutex prio : ℕ) (k : Kernel) where
  abbrev lowered : Kernel
  lowered = prio_change k.current prio (unhold mutex k)

  abbrev woken : Bool × Kernel
  woken = resume_one mutex eok lowered

  abbrev handed : ℕ → Kernel
  handed heir =
      let k3 =
        set_mutex mutex
          (record (woken.1.mutex mutex) {
            nest = 1;
            orig_prio = (woken.1.tcb heir).priority;
            owner_task = heir;
          })
          woken.1 in
      set_last_error heir eok (hold heir mutex k3)

  hand_over-eq :
      (fuel : ℕ) (stray : ℕ → ℕ)
      → find_highest_inherited_prio fuel stray k.current (unhold mutex k) ≡ some prio
      → hand_over fuel stray mutex k
        ≡ some (reschedule_if woken.0 (handed (lowered.sched.next mutex)))
  unfolding hand_over
  hand_over-eq fuel stray e = rw e refl

module _ (fuel mutex heir prio : ℕ) (stray : ℕ → ℕ) (k : Kernel) (rq : ℕ → List ℕ) (ws : List ℕ)
    (q : QueuesOk k rq) (w : WaitOk k rq mutex (heir ∷ ws))
    (level : (k.tcb k.current).priority < prio_levels)
    (queued : mem k.current (rq (k.tcb k.current).priority) ≡ true) (bound : prio < prio_levels)
    (restored : find_highest_inherited_prio fuel stray k.current (unhold mutex k) ≡ some prio) where
  abbrev low : Kernel
  low = lowered mutex prio k

  abbrev low_queues : ℕ → List ℕ
  low_queues = moved k rq k.current prio

  low-QueuesOk : QueuesOk low low_queues
  low-QueuesOk =
      prio_change-QueuesOk (unhold mutex k) rq k.current
        (QueuesOk-congr k (unhold mutex k) rq refl (λ t. refl) refl q) level queued prio bound

  low-WaitOk : WaitOk low low_queues mutex (heir ∷ ws)
  low-WaitOk =
      prio_change-WaitOk (unhold mutex k) rq
        (QueuesOk-congr k (unhold mutex k) rq refl (λ t. refl) refl q) mutex (heir ∷ ws)
        (WaitOk-congr k (unhold mutex k) rq mutex (heir ∷ ws) refl (λ t. refl) w) k.current prio
        level queued bound

  hand_over-heir :
      (k' : Kernel) × (hand_over fuel stray mutex k ≡ some k')
      × ((k'.mutex mutex).owner_task ≡ heir)
      × ((k'.mutex mutex).nest ≡ 1)
      × ((k'.tcb heir).state ≡ ready)
      × ((k'.tcb heir).last_error ≡ eok)
      × QueuesOk k' (enqueued low heir low_queues)
      × WaitOk k' (enqueued low heir low_queues) mutex ws
  hand_over-heir =
      let first : low.sched.next mutex ≡ heir = next-cons low.sched mutex heir ws low-WaitOk.ring in
      let (q1, w1, st, er) =
        resume_one-Resumed mutex eok low low_queues low-QueuesOk heir ws low-WaitOk in
      let end : Kernel = handed mutex prio k heir in
      let need : Bool = (woken mutex prio k).0 in
      let k' : Kernel = reschedule_if need end in
      let made = hand_over-eq mutex prio k fuel stray restored in
      (
        k',
        subst
            (λ x. hand_over fuel stray mutex k ≡ some (reschedule_if need (handed mutex prio k x)))
            first made,
        ap (λ (m : Mutex). m.owner_task) (reschedule-mutex end need mutex)
            ∙ ground (arith, ==_refl mutex),
        ap (λ (m : Mutex). m.nest) (reschedule-mutex end need mutex)
            ∙ ground (arith, ==_refl mutex),
        ap (λ (c : Tcb). c.state) (reschedule-tcb end need heir) ∙ ground (arith, ==_refl heir, st),
        ap (λ (c : Tcb). c.last_error) (reschedule-tcb end need heir)
            ∙ ground (arith, ==_refl heir),
        reschedule-QueuesOk end need (enqueued low heir low_queues) (
            QueuesOk-congr (woken mutex prio k).1 end (enqueued low heir low_queues) refl
              (λ t. ground arith) refl q1),
        reschedule-WaitOk end need (enqueued low heir low_queues) mutex ws (
            WaitOk-congr (woken mutex prio k).1 end (enqueued low heir low_queues) mutex ws refl
              (λ t. ground arith) w1),
      )

-- The queues after the release: the former owner moves, then the heir is put in.
abbrev pub released_queues : ℕ → ℕ → ℕ → Kernel → (ℕ → List ℕ) → ℕ → List ℕ
released_queues mutex heir prio k rq =
    let k1 : Kernel = set_mutex mutex (record (k.mutex mutex) { nest = 0 }) k in
    enqueued (lowered mutex prio k1) heir (moved k1 rq k1.current prio)

release-hand_over :
    (fuel mutex : ℕ) (stray : ℕ → ℕ) (k k' : Kernel) (heir : ℕ) (ws : List ℕ)
    → IsRing k.sched mutex (heir ∷ ws)
    → k.current ≢ null
    → mutex ≢ null
    → k.interrupt_nest ≡ 0
    → (k.mutex mutex).owner_task ≡ k.current
    → (k.mutex mutex).nest ≡ 1
    → hand_over fuel stray mutex (set_mutex mutex (record (k.mutex mutex) { nest = 0 }) k) ≡ some k'
    → release fuel stray mutex k ≡ some (eok, k')
unfolding release
release-hand_over fuel mutex stray k k' heir ws ring here ne calm own once e =
    let guard : (k.interrupt_nest == 0) ≡ true = ground arith in
    let mine : ((k.current == null) || not (k.current == (k.mutex mutex).owner_task)) ≡ false =
      ground arith in
    let nest : ((k.mutex mutex).nest + 255) % 256 ≡ 0 = omega arith in
    let some_wait = is_empty-cons k.sched mutex heir ws ring in
    rw (==_of_ne mutex 0 ne, guard, mine, nest, some_wait, e) refl

-- The release of a mutex that its owner holds once and for which tasks wait, outside interrupts, with
-- `prio` the priority that the search gives back to the owner: the mutex belongs to the first of
-- them, which holds it once, is ready with `MRTK_EOK` and stands at the end of its queue; the others
-- wait on in order, the former owner is at the end of the queue of `prio`, and all queues and the
-- bitmap are in step.
pub release-heir :
    (fuel mutex heir prio : ℕ) (stray : ℕ → ℕ) (k : Kernel) (rq : ℕ → List ℕ) (ws : List ℕ)
    → QueuesOk k rq
    → WaitOk k rq mutex (heir ∷ ws)
    → (k.tcb k.current).priority < prio_levels
    → mem k.current (rq (k.tcb k.current).priority) ≡ true
    → prio < prio_levels
    → mutex ≢ null
    → k.interrupt_nest ≡ 0
    → (k.mutex mutex).owner_task ≡ k.current
    → (k.mutex mutex).nest ≡ 1
    → find_highest_inherited_prio fuel stray k.current
        (unhold mutex (set_mutex mutex (record (k.mutex mutex) { nest = 0 }) k))
      ≡ some prio
    → (k' : Kernel) × (release fuel stray mutex k ≡ some (eok, k'))
      × ((k'.mutex mutex).owner_task ≡ heir)
      × ((k'.mutex mutex).nest ≡ 1)
      × ((k'.tcb heir).state ≡ ready)
      × ((k'.tcb heir).last_error ≡ eok)
      × QueuesOk k' (released_queues mutex heir prio k rq)
      × WaitOk k' (released_queues mutex heir prio k rq) mutex ws
release-heir fuel mutex heir prio stray k rq ws q w level queued bound ne calm own once restored =
    let k1 : Kernel = set_mutex mutex (record (k.mutex mutex) { nest = 0 }) k in
    let (k', e, owner, nest, st, er, q', w') =
      hand_over-heir fuel mutex heir prio stray k1 rq ws
        (QueuesOk-congr k k1 rq refl (λ t. refl) refl q)
        (WaitOk-congr k k1 rq mutex (heir ∷ ws) refl (λ t. refl) w) level queued bound restored in
    let object = q.object (k.tcb k.current).priority k.current level queued in
    let here : k.current ≢ null = (λ z. absurd (omega (arith, object, z))) in
    (
      k',
      release-hand_over fuel mutex stray k k' heir ws w.ring here ne calm own once e,
      owner,
      nest,
      st,
      er,
      q',
      w',
    )
