-- ===== src/Ipc/ResumeAll.antt =====
-- `_mrtk_ipc_resume_one` and `_mrtk_ipc_resume_all` on a well-formed waiting list.
use mathlib.Core.Path.{fun_ext}
use mathlib.Core.List.{append-nil, append_assoc}
use micro_rt_kernel.Prelude.{
  ℕ, zero, suc, ◌<◌, ◌≡◌, refl, sym, ap, ◌∙◌, inl, inr, Bool, true, false, ◌||◌, some, List, [],
  ◌∷◌, ◌++◌, arith, ◌==◌, Bool-cases, ==_refl, ==_iff, ==_of_ne, length, mem,
}
use micro_rt_kernel.DList.{Links}
use micro_rt_kernel.DList.Ring.{IsRing, is_empty-nil, is_empty-cons}
use micro_rt_kernel.Kernel.{Kernel, Err, ready}
use micro_rt_kernel.Sched.{prio_ht}
use micro_rt_kernel.Sched.Queues.{QueuesOk, enqueued}
use micro_rt_kernel.Ipc.{wake, resume_one, resume_loop, resume_all}
use micro_rt_kernel.Ipc.Wait.{WaitOk}
use micro_rt_kernel.Ipc.Wake.{
  wake-QueuesOk, wake-WaitOk, priority-wake, current-wake, tcb-wake, of_prio, refilled, Resumed,
}

abbrev pub first_or : List ℕ → ℕ → ℕ
first_or [] q = q
first_or (x ∷ xs) q = x

module _ (l : Links) (head : ℕ) where
  pub next_head : (xs : List ℕ) → IsRing l head xs → l.next head ≡ first_or xs head
  next_head [] r = r.links.0
  next_head (x ∷ xs) r = r.links.0

  next_node : (x : ℕ) (xs : List ℕ) → IsRing l head (x ∷ xs) → l.next x ≡ first_or xs head
  next_node x [] r = r.links.2.0
  next_node x (y ∷ xs) r = r.links.2.0

-- The queues after one task more.
pub refilled-cons :
    (k : Kernel) (pr : ℕ → ℕ) (rq : ℕ → List ℕ) (t : ℕ) (ts : List ℕ)
    → (k.tcb t).priority ≡ pr t
    → refilled pr (enqueued k t rq) ts ≡ refilled pr rq (t ∷ ts)
refilled-cons k pr rq t ts e = fun_ext λ p. rw e (elim (Bool-cases (p == pr t)) [
  | inl h ↦
      let h' : p ≡ pr t = (==_iff _ _).0 h in
      rw h (
        ap (λ n. (rq n ++ t ∷ []) ++ of_prio pr p ts) (sym h')
        ∙ append_assoc (rq p) (t ∷ []) (of_prio pr p ts))
  | inr h ↦ rw h
])

pub refilled-nil : (pr : ℕ → ℕ) (rq : ℕ → List ℕ) → refilled pr rq [] ≡ rq
refilled-nil pr rq = fun_ext λ p. append-nil (rq p)

module _ (list : ℕ) (err : Err) (pr : ℕ → ℕ) where
  Resumed-nil :
      (k : Kernel) (rq : ℕ → List ℕ) (need : Bool)
      → QueuesOk k rq
      → WaitOk k rq list []
      → Resumed k pr rq list [] err need (need, k)
  Resumed-nil k rq need q w = record {
    queues = rw (refilled-nil pr rq) q;
    waiting = rw (refilled-nil pr rq) w;
    woken = λ t m. absurd (ground arith);
    others = λ t m. refl;
    current = refl;
    flag = refl;
  }

  module _ (k : Kernel) (rq : ℕ → List ℕ) (t : ℕ) (ts : List ℕ) (need : Bool) (r : Bool × Kernel)
      (same : (s : ℕ) → (k.tcb s).priority ≡ pr s) where
    Resumed-cons :
        mem t ts ≡ false
        → Resumed
            (wake t err k)
            pr
            (enqueued k t rq)
            list
            ts
            err
            (prio_ht t (wake t err k).current (wake t err k) || need)
            r
        → Resumed k pr rq list (t ∷ ts) err need r
    unfolding prio_ht
    Resumed-cons out h = record {
      queues = rw (← refilled-cons k pr rq t ts (same t)) h.queues;
      waiting = rw (← refilled-cons k pr rq t ts (same t)) h.waiting;
      woken = λ s m. elim (Bool-cases (s == t)) [
        | inl e ↦ ground (arith, h.others s, tcb-wake t err k s)
        | inr e ↦ h.woken s (ground arith)
      ];
      others = λ s m. ground (arith, h.others s, tcb-wake t err k s);
      current = ground (arith, h.current, current-wake t err k);
      flag = ground (
        arith,
        h.flag,
        current-wake t err k,
        priority-wake t err k t,
        priority-wake t err k k.current,
        same t,
        same k.current,
      );
    }

  resume_loop-Resumed :
      (fuel : ℕ) (k : Kernel) (rq : ℕ → List ℕ) (ws : List ℕ) (need : Bool)
      → ((s : ℕ) → (k.tcb s).priority ≡ pr s)
      → QueuesOk k rq
      → WaitOk k rq list ws
      → length ws < fuel
      → (r : Bool × Kernel) × (resume_loop fuel list err
            (k.sched.next list)
            (k.sched.next (k.sched.next list))
            need
            k
          ≡ some r)
        × Resumed k pr rq list ws err need r
  unfolding resume_loop
  resume_loop-Resumed zero k rq ws need same q w lt = absurd (omega arith)
  resume_loop-Resumed (suc fuel) k rq [] need same q w lt =
      ((need, k), rw (next_head k.sched list [] w.ring, ==_refl list), Resumed-nil k rq need q w)
  resume_loop-Resumed (suc fuel) k rq (t ∷ ts) need same q w lt =
      let k1 : Kernel = wake t err k in
      let waits : mem t (t ∷ ts) ≡ true = ground arith in
      let w1 : WaitOk k1 (enqueued k t rq) list ts =
        rw (==_refl t) at (wake-WaitOk k rq q list (t ∷ ts) w t waits err) in
      let (r, e, h) =
        resume_loop-Resumed fuel k1 (enqueued k t rq) ts (prio_ht t k1.current k1 || need)
          (λ s. priority-wake t err k s ∙ same s) (wake-QueuesOk k rq q list (t ∷ ts) w t waits err)
          w1 (omega arith) in
      (
        r,
        rw
            (
              next_head k.sched list (t ∷ ts) w.ring,
              next_node k.sched list t ts w.ring,
              ==_of_ne t list (ground (arith, w.ring.fresh)),
            )
            (rw (next_head k1.sched list ts w1.ring) at e),
        Resumed-cons k rq t ts need r same w.ring.distinct.0 h,
      )

  -- `_mrtk_ipc_resume_all` ends on every well-formed waiting list. It empties the list, puts each
  -- task in order at the end of the ready queue of its priority with the given error, leaves the
  -- control blocks of all other tasks alone, and reports whether one of the woken tasks has a higher
  -- priority than the running task.
  pub resume_all-Resumed :
      (fuel : ℕ) (k : Kernel) (rq : ℕ → List ℕ) (ws : List ℕ)
      → ((s : ℕ) → (k.tcb s).priority ≡ pr s)
      → QueuesOk k rq
      → WaitOk k rq list ws
      → length ws < fuel
      → (r : Bool × Kernel) × (resume_all fuel list err k ≡ some r)
        × Resumed k pr rq list ws err false r
  unfolding resume_all
  resume_all-Resumed fuel k rq ws same q w lt = resume_loop-Resumed fuel k rq ws false same q w lt

module _ (list : ℕ) (err : Err) (k : Kernel) (rq : ℕ → List ℕ) (q : QueuesOk k rq) where
  -- Nobody waits: `_mrtk_ipc_resume_one` changes nothing.
  pub resume_one-nil : WaitOk k rq list [] → resume_one list err k ≡ (false, k)
  unfolding resume_one
  resume_one-nil w = rw (is_empty-nil k.sched list w.ring)

  pub resume_one-cons :
      (t : ℕ) (ts : List ℕ)
      → WaitOk k rq list (t ∷ ts)
      → resume_one list err k ≡ (prio_ht t k.current (wake t err k), wake t err k)
  unfolding resume_one
  resume_one-cons t ts w = rw (
    is_empty-cons k.sched list t ts w.ring,
    next_head k.sched list (t ∷ ts) w.ring,
    current-wake t err k,
  )

  -- `_mrtk_ipc_resume_one` wakes exactly the first waiting task, with the given error.
  pub resume_one-Resumed :
      (t : ℕ) (ts : List ℕ)
      → WaitOk k rq list (t ∷ ts)
      → let r = resume_one list err k in
        QueuesOk r.1 (enqueued k t rq)
        × WaitOk r.1 (enqueued k t rq) list ts
        × ((r.1.tcb t).state ≡ ready)
        × ((r.1.tcb t).last_error ≡ err)
  resume_one-Resumed t ts w =
      let waits : mem t (t ∷ ts) ≡ true = ground arith in
      rw (resume_one-cons t ts w) (
        wake-QueuesOk k rq q list (t ∷ ts) w t waits err,
        rw (==_refl t) at (wake-WaitOk k rq q list (t ∷ ts) w t waits err),
        ground (arith, tcb-wake t err k t),
        ground (arith, tcb-wake t err k t),
      )
