-- ===== src/Mutex/Asleep.antt =====
-- Priority inheritance by an owner that is asleep itself.
use micro_rt_kernel.Prelude.{
  ℕ, ◌<◌, ◌≡◌, refl, ◌≢◌, ap, ◌∙◌, true, false, some, List, [], ◌∷◌, ◌++◌, arith, ◌==◌, ltb,
  ==_of_ne, ==_refl, mem, erase, length, mem-append,
}
use micro_rt_kernel.DList.Seg.{first, place}
use micro_rt_kernel.Kernel.{Kernel, eok, null, update, prio_levels, set_last_error}
use micro_rt_kernel.Sched.{prio_ht, prio_change, insert_task, remove_task}
use micro_rt_kernel.Sched.Queues.{QueuesOk, dequeued}
use micro_rt_kernel.Timer.{waiting_forever}
use micro_rt_kernel.Blocking.{blocked, reschedule_if}
use micro_rt_kernel.Blocking.Reschedule.{reschedule-tcb, reschedule-QueuesOk, reschedule-WaitOk}
use micro_rt_kernel.Ipc.{link_task, suspend_one}
use micro_rt_kernel.Ipc.Suspend.{lower_than, left}
use micro_rt_kernel.Ipc.Wait.{WaitOk}
use micro_rt_kernel.Machine.Lists.{ListsOk}
use micro_rt_kernel.Machine.Moves.{set_last_error-ListsOk, stolen-ListsOk, suspend_one-ListsOk}
use micro_rt_kernel.Mutex.{unlocked, inherit, wait, take}

mem-erase_ne :
    (b a : ℕ) (xs : List ℕ) → (b == a) ≡ false → mem b xs ≡ true → mem b (erase a xs) ≡ true
mem-erase_ne b a [] ne h = h
mem-erase_ne b a (x ∷ xs) ne h = ground (arith, mem-erase_ne b a xs)

-- The ready queues when the owner has been put there and the caller sleeps.
abbrev pub woken_queues : ℕ → Kernel → (ℕ → List ℕ) → ℕ → List ℕ
woken_queues mutex k rq =
    let owner = (k.mutex mutex).owner_task in
    let prio = (k.tcb k.current).priority in
    dequeued (prio_change owner prio (set_last_error k.current eok k)) k.current
      (update rq prio (rq prio ++ owner ∷ []))

module _ (objs : List ℕ) (k : Kernel) (rq wl : ℕ → List ℕ) (ok : ListsOk objs k rq wl) (mutex o : ℕ)
    (known : mem mutex objs ≡ true) (other : mem o objs ≡ true) (ne : o ≢ mutex)
    (asleep : mem (k.mutex mutex).owner_task (wl o) ≡ true)
    (urgent : (k.tcb k.current).priority < (k.tcb (k.mutex mutex).owner_task).priority)
    (level : (k.tcb k.current).priority < prio_levels)
    (queued : mem k.current (rq (k.tcb k.current).priority) ≡ true) where
  abbrev owner : ℕ
  owner = (k.mutex mutex).owner_task

  abbrev prio : ℕ
  prio = (k.tcb k.current).priority

  abbrev cleared : Kernel
  cleared = set_last_error k.current eok k

  -- The kernel after the inheritance, and the lists then.
  abbrev raised : Kernel
  raised = prio_change owner prio cleared

  abbrev raised_queues : ℕ → List ℕ
  raised_queues = update rq prio (rq prio ++ owner ∷ [])

  abbrev raised_waiting : ℕ → List ℕ
  raised_waiting = update wl o (erase owner (wl o))

  raised-ListsOk : ListsOk objs raised raised_queues raised_waiting
  raised-ListsOk =
      stolen-ListsOk objs cleared rq wl (set_last_error-ListsOk objs k rq wl ok k.current eok) o
        owner prio other asleep level

  not_self : (k.current == owner) ≡ false
  not_self = ground arith

  inherit-raised : inherit mutex cleared ≡ raised
  unfolding inherit prio_ht
  inherit-raised =
      let real = (ok.waits o other).object owner asleep in
      let there : (owner == null) ≡ false = ground (arith, real) in
      let apart : (owner == k.current) ≡ false = ground arith in
      let less : ltb prio (k.tcb owner).priority ≡ true = ground arith in
      rw (there, ==_refl k.current, apart, less) refl

  raised-fields :
      ((raised.tcb owner).state ≡ (k.tcb owner).state) × ((raised.tcb k.current).priority ≡ prio)
  unfolding prio_change insert_task remove_task
  raised-fields = ground (arith, not_self, ==_refl owner, ==_refl k.current)

  abbrev parked : Kernel
  parked =
      link_task (first (lower_than raised k.current) (raised_waiting mutex) mutex) k.current
        (left k.current raised)

  parked-suspended :
      (fuel : ℕ)
      → length (wl mutex) < fuel
      → (suspend_one fuel mutex (k.mutex mutex).flag k.current raised ≡ some parked)
        × ListsOk objs parked (woken_queues mutex k rq) (
            update raised_waiting mutex
              (place (lower_than raised k.current) k.current (raised_waiting mutex)))
  parked-suspended fuel lt =
      let object = ok.queues.object prio k.current level queued in
      let same = raised-fields.1 in
      let there : mem k.current (raised_queues prio) ≡ true =
        ground (arith, mem-append k.current (rq prio) (owner ∷ [])) in
      suspend_one-ListsOk objs raised raised_queues raised_waiting raised-ListsOk fuel mutex
        (k.mutex mutex).flag k.current known (λ e. absurd (omega (arith, object, e)))
        (rw same level) (rw same there) (ground (arith, ne))

  wait-parked :
      (fuel : ℕ)
      → length (wl mutex) < fuel
      → wait fuel mutex waiting_forever k ≡ some (reschedule_if true parked)
  unfolding wait
  wait-parked fuel lt = rw (inherit-raised, (parked-suspended fuel lt).0) refl

  owner-queued : mem owner (woken_queues mutex k rq prio) ≡ true
  owner-queued =
      let apart : (owner == k.current) ≡ false = ground arith in
      let there : mem owner (rq prio ++ owner ∷ []) ≡ true =
        ground (arith, mem-append owner (rq prio) (owner ∷ []), ==_refl owner) in
      rw (raised-fields.1, ==_refl prio)
        (mem-erase_ne owner k.current (rq prio ++ owner ∷ []) apart there)

  parked-state : (parked.tcb owner).state ≡ (k.tcb owner).state
  unfolding remove_task
  parked-state = ground (arith, raised-fields.0)

  -- A take of a mutex whose owner is less urgent and waits for another object, outside interrupts and
  -- without a time limit: the caller sleeps, and the inheritance has taken the owner out of the list
  -- in which it waits and put it into the ready queue of the caller's priority, still marked SUSPEND.
  -- So it runs on without having got what it waits for.
  pub take-asleep :
      (fuel : ℕ)
      → k.interrupt_nest ≡ 0
      → (k.mutex mutex).value ≢ unlocked
      → length (wl mutex) < fuel
      → (k' : Kernel) × (take fuel mutex waiting_forever k ≡ some (blocked, k'))
        × QueuesOk k' (woken_queues mutex k rq)
        × (mem owner (woken_queues mutex k rq prio) ≡ true)
        × ((k'.tcb owner).state ≡ (k.tcb owner).state)
        × WaitOk k' (woken_queues mutex k rq) o (erase owner (wl o))
  unfolding take
  take-asleep fuel calm held lt =
      let (made, lists) = parked-suspended fuel lt in
      let head = (ok.waits mutex known).head in
      let real : (mutex == null) ≡ false = ground (arith, head) in
      let guard : (k.interrupt_nest == 0) ≡ true = ground arith in
      let apart : (o == mutex) ≡ false = ==_of_ne o mutex ne in
      (
        reschedule_if true parked,
        rw (real, guard, not_self, ==_of_ne (k.mutex mutex).value 0 held, wait-parked fuel lt) refl,
        reschedule-QueuesOk parked true (woken_queues mutex k rq) lists.queues,
        owner-queued,
        ap (λ c. c.state) (reschedule-tcb parked true owner) ∙ parked-state,
        reschedule-WaitOk parked true (woken_queues mutex k rq) o (erase owner (wl o))
            (rw (apart, ==_refl o) at (lists.waits o other)),
      )
