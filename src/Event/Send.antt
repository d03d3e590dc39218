-- ===== src/Event/Send.antt =====
-- `mrtk_event_send` on a well-formed waiting list: which tasks its walk wakes.
use mathlib.Core.List.{append_assoc, append-nil}
use micro_rt_kernel.Prelude.{
  ℕ, zero, suc, ◌<◌, ◌≡◌, refl, ◌∙◌, inl, inr, Bool, true, false, ◌||◌, some, not, List, [], ◌∷◌,
  ◌++◌, arith, ◌==◌, if◌then◌else◌, Bool-cases, ==_refl, ==_of_ne, ==_iff, length, mem, erase,
  Distinct, bit_and, bit_or, mem-append, mem-erase_self,
}
use micro_rt_kernel.DList
use micro_rt_kernel.DList.{Links}
use micro_rt_kernel.DList.Seg.{Seg}
use micro_rt_kernel.Kernel.{Kernel, Tcb, eok, null, update, set_last_error}
use micro_rt_kernel.Sched.{insert_task}
use micro_rt_kernel.Sched.Queues.{QueuesOk, nonempty, IsUnlinked, enqueued, insert_task-QueuesOk}
use micro_rt_kernel.Ipc.Wait.{
  WaitOk, QueuesOk-congr, WaitOk-congr, unlink-QueuesOk, unlink-WaitOk, insert_task-WaitOk,
}
use micro_rt_kernel.Ipc.Wake.{refilled}
use micro_rt_kernel.Ipc.ResumeAll.{first_or, refilled-cons, refilled-nil}
use micro_rt_kernel.Event.{Sent, satisfy, send_loop, check_condition, has, flag_clear}

-- The members that pass a test, in order.
abbrev pub chosen : (ℕ → Bool) → List ℕ → List ℕ
chosen test [] = []
chosen test (t ∷ ts) = if test t then t ∷ chosen test ts else chosen test ts

next-inside :
    (l : Links) (p q x : ℕ) (pre ts : List ℕ) → Seg l p (pre ++ x ∷ ts) q → l.next x ≡ first_or ts q
next-inside l p q x [] [] s = s.2.0
next-inside l p q x [] (t ∷ ts) s = s.2.0
next-inside l p q x (y ∷ pre) ts s = next-inside l y q x pre ts s.2

absent-before : (x : ℕ) (pre ts : List ℕ) → Distinct (pre ++ x ∷ ts) → mem x pre ≡ false
absent-before x [] ts d = refl
absent-before x (y ∷ pre) ts d =
    ground (arith, absent-before x pre ts d.1, mem-append y pre (x ∷ ts), ==_refl x)

absent-after : (x : ℕ) (pre ts : List ℕ) → Distinct (pre ++ x ∷ ts) → mem x ts ≡ false
absent-after x [] ts d = d.0
absent-after x (y ∷ pre) ts d = absent-after x pre ts d.1

erase-inside : (x : ℕ) (pre ts : List ℕ) → mem x pre ≡ false → erase x (pre ++ x ∷ ts) ≡ pre ++ ts
erase-inside x [] ts out = rw (==_refl x) refl
erase-inside x (y ∷ pre) ts out = ground (arith, erase-inside x pre ts)

module _ (k : Kernel) (rq : ℕ → List ℕ) (q : QueuesOk k rq) (event : ℕ) (ws : List ℕ)
    (w : WaitOk k rq event ws) (t : ℕ) (waits : mem t ws ≡ true) (set : ℕ) (s : Sent)
    (at : s.kernel ≡ k) where
  abbrev unlinked : Kernel
  unlinked = record k { sched = DList.remove t k.sched }

  unlinked-IsUnlinked : IsUnlinked unlinked rq t
  unlinked-IsUnlinked = record {
    object = w.object t waits;
    level = w.level t waits;
    absent = w.blocked (k.tcb t).priority t (w.level t waits) waits;
  }

  satisfy-QueuesOk : QueuesOk (satisfy set t s).kernel (enqueued k t rq)
  unfolding satisfy insert_task
  satisfy-QueuesOk = rw at (
      QueuesOk-congr (insert_task t unlinked) (set_last_error t eok (insert_task t unlinked))
        (enqueued k t rq) refl (λ a. ground arith) refl
        (insert_task-QueuesOk unlinked rq (unlink-QueuesOk k rq q event ws w t waits) t
          unlinked-IsUnlinked))

  satisfy-WaitOk : WaitOk (satisfy set t s).kernel (enqueued k t rq) event (erase t ws)
  unfolding satisfy insert_task
  satisfy-WaitOk = rw at (
      WaitOk-congr (insert_task t unlinked) (set_last_error t eok (insert_task t unlinked))
        (enqueued k t rq) event (erase t ws) refl (λ a. ground arith)
        (insert_task-WaitOk unlinked rq (unlink-QueuesOk k rq q event ws w t waits) event
          (erase t ws) (unlink-WaitOk k rq q event ws w t waits) t unlinked-IsUnlinked
          (ground (arith, mem-erase_self t ws w.ring.distinct, w.ring.fresh))))

-- What the walk stores for its callers, and the events it is asked to clear, when it wakes tasks.
abbrev pub delivered : (ℕ → Tcb) → ℕ → List ℕ → (ℕ → ℕ) → ℕ → ℕ
delivered tcb set [] cells = cells
delivered tcb set (t ∷ ts) cells = delivered tcb set ts (
    if (tcb t).event_recved == null
    then cells
    else update cells (tcb t).event_recved (bit_and set (tcb t).event_set))

abbrev pub to_clear : (ℕ → Tcb) → List ℕ → ℕ → ℕ
to_clear tcb [] mask = mask
to_clear tcb (t ∷ ts) mask =
    to_clear tcb ts
      (if has (tcb t).event_option flag_clear then bit_or mask (tcb t).event_set else mask)

-- Whose condition the events `set` fulfil.
abbrev pub fulfilled : (ℕ → Tcb) → ℕ → ℕ → Bool
fulfilled tcb set t = check_condition set (tcb t).event_set (tcb t).event_option

module _ (event set : ℕ) (tcb : ℕ → Tcb) where
  abbrev pr : ℕ → ℕ
  pr t = (tcb t).priority

  abbrev test : ℕ → Bool
  test = fulfilled tcb set

  -- The tasks have the priorities and the wishes that `tcb` has.
  pub record Agrees (k : Kernel) : Type 0 where
    pub priority : (t : ℕ) → (k.tcb t).priority ≡ pr t
    pub mask : (t : ℕ) → (k.tcb t).event_set ≡ (tcb t).event_set
    pub option : (t : ℕ) → (k.tcb t).event_option ≡ (tcb t).event_option
    pub recved : (t : ℕ) → (k.tcb t).event_recved ≡ (tcb t).event_recved

  condition : (k : Kernel) (t : ℕ) → Agrees k → fulfilled k.tcb set t ≡ test t
  condition k t a = rw (a.mask t, a.option t) refl

  -- The walk is over: the tasks `ups` have become ready, in order at the ends of their queues, and
  -- the tasks `ws` wait on.
  pub record Served (rq : ℕ → List ℕ) (ups ws : List ℕ) (s r : Sent) : Type 0 where
    pub queues : QueuesOk r.kernel (refilled pr rq ups)
    pub waiting : WaitOk r.kernel (refilled pr rq ups) event ws
    pub woken : (t : ℕ) → mem t ups ≡ true → (r.kernel.tcb t).last_error ≡ eok
    pub others : (t : ℕ) → mem t ups ≡ false → r.kernel.tcb t ≡ s.kernel.tcb t
    pub flag : r.need_schedule ≡ (nonempty ups || s.need_schedule)
    pub cells : r.cells ≡ delivered tcb set ups s.cells
    pub clear : r.clear_mask ≡ to_clear tcb ups s.clear_mask

  Agrees-satisfy : (t : ℕ) (s : Sent) → Agrees s.kernel → Agrees (satisfy set t s).kernel
  unfolding satisfy insert_task
  Agrees-satisfy t s a = record {
    priority = λ x. ground (arith, a.priority x, a.priority t);
    mask = λ x. ground (arith, a.mask x, a.mask t);
    option = λ x. ground (arith, a.option x, a.option t);
    recved = λ x. ground (arith, a.recved x, a.recved t);
  }

  satisfy-tcb :
      (t x : ℕ) (s : Sent)
      → (satisfy set t s).kernel.tcb x
        ≡ (if x == t then record (s.kernel.tcb t) { last_error = eok } else s.kernel.tcb x)
  unfolding satisfy insert_task
  satisfy-tcb t x s = refl

  satisfy-flag : (t : ℕ) (s : Sent) → (satisfy set t s).need_schedule ≡ true
  unfolding satisfy
  satisfy-flag t s = refl

  satisfy-cells :
      (t : ℕ) (s : Sent) (ups : List ℕ)
      → Agrees s.kernel
      → delivered tcb set ups (satisfy set t s).cells ≡ delivered tcb set (t ∷ ups) s.cells
  unfolding satisfy
  satisfy-cells t s ups a = rw (a.recved t, a.mask t) refl

  satisfy-clear :
      (t : ℕ) (s : Sent) (ups : List ℕ)
      → Agrees s.kernel
      → to_clear tcb ups (satisfy set t s).clear_mask ≡ to_clear tcb (t ∷ ups) s.clear_mask
  unfolding satisfy
  satisfy-clear t s ups a = rw (a.option t, a.mask t) refl

  -- One more task is woken at the front.
  Served-woken :
      (rq : ℕ → List ℕ) (ups ws : List ℕ) (t : ℕ) (s r : Sent)
      → Agrees s.kernel
      → mem t ups ≡ false
      → Served (enqueued s.kernel t rq) ups ws (satisfy set t s) r
      → Served rq (t ∷ ups) ws s r
  Served-woken rq ups ws t s r a out h = record {
    queues = rw (← refilled-cons s.kernel pr rq t ups (a.priority t)) h.queues;
    waiting = rw (← refilled-cons s.kernel pr rq t ups (a.priority t)) h.waiting;
    woken = λ x m. elim (Bool-cases (x == t)) [
      | inl e ↦
          let same : x ≡ t = (==_iff x t).0 e in
          rw same (ground (arith, h.others t, satisfy-tcb t t s, ==_refl t))
      | inr e ↦ h.woken x (ground arith)
    ];
    others = λ x m. ground (arith, h.others x, satisfy-tcb t x s);
    flag = ground (arith, h.flag, satisfy-flag t s);
    cells = h.cells ∙ satisfy-cells t s ups a;
    clear = h.clear ∙ satisfy-clear t s ups a;
  }

  mem-chosen : (t : ℕ) (ts : List ℕ) → mem t ts ≡ false → mem t (chosen test ts) ≡ false
  mem-chosen t [] out = refl
  mem-chosen t (x ∷ ts) out = ground (arith, mem-chosen t ts)

  Served-nil :
      (rq : ℕ → List ℕ) (pre : List ℕ) (s : Sent)
      → QueuesOk s.kernel rq
      → WaitOk s.kernel rq event pre
      → Served rq [] pre s s
  Served-nil rq pre s q w = record {
    queues = rw (refilled-nil pr rq) q;
    waiting = rw (refilled-nil pr rq) w;
    woken = λ t m. absurd (ground arith);
    others = λ t m. refl;
    flag = refl;
    cells = refl;
    clear = refl;
  }

  pub send_loop-Served :
      (fuel : ℕ) (s : Sent) (rq : ℕ → List ℕ) (pre ws : List ℕ)
      → Agrees s.kernel
      → QueuesOk s.kernel rq
      → WaitOk s.kernel rq event (pre ++ ws)
      → length ws < fuel
      → (r : Sent) × (send_loop fuel event set
            (first_or ws event)
            (s.kernel.sched.next (first_or ws event))
            s
          ≡ some r)
        × Served rq (chosen test ws) (pre ++ chosen (λ x. not (test x)) ws) s r
  unfolding send_loop
  send_loop-Served zero s rq pre ws a q w lt = absurd (omega arith)
  send_loop-Served (suc fuel) s rq pre [] a q w lt = (
    s,
    rw (==_refl event),
    rw (append-nil pre) (Served-nil rq pre s q (rw (append-nil pre) at w)),
  )
  send_loop-Served (suc fuel) s rq pre (t ∷ ts) a q w lt =
      let next : s.kernel.sched.next t ≡ first_or ts event =
        next-inside s.kernel.sched event event t pre ts w.ring.links in
      let before : mem t pre ≡ false = absent-before t pre ts w.ring.distinct in
      let waits : mem t (pre ++ t ∷ ts) ≡ true = ground (arith, mem-append t pre (t ∷ ts)) in
      let other : (t == event) ≡ false =
        ==_of_ne t event (λ e. absurd (ground (arith, w.ring.fresh, e, waits))) in
      elim (Bool-cases (test t)) [
        | inl e ↦
            let s1 : Sent = satisfy set t s in
            let w1 = satisfy-WaitOk s.kernel rq q event (pre ++ t ∷ ts) w t waits set s refl in
            let (r, found, h) =
              send_loop-Served fuel s1 (enqueued s.kernel t rq) pre ts (Agrees-satisfy t s a)
                (satisfy-QueuesOk s.kernel rq q event (pre ++ t ∷ ts) w t waits set s refl)
                (rw (erase-inside t pre ts before) at w1) (omega arith) in
            (
              r,
              rw (next, condition s.kernel t a, e, other, found) refl,
              rw e (
                  Served-woken rq (chosen test ts) (pre ++ chosen (λ x. not (test x)) ts) t s r a
                    (mem-chosen t ts (absent-after t pre ts w.ring.distinct)) h),
            )
        | inr e ↦
            let (r, found, h) =
              send_loop-Served fuel s rq (pre ++ t ∷ []) ts a q
                (rw (← append_assoc pre (t ∷ []) ts) at w) (omega arith) in
            (
              r,
              rw (next, condition s.kernel t a, e, other, found) refl,
              rw e (rw (append_assoc pre (t ∷ []) (chosen (λ x. not (test x)) ts)) at h),
            )
      ]
