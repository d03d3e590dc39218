-- ===== src/Machine/Sems.antt =====
-- The steps of the semaphores keep the machine in order.
use mathlib.Core.Path.{fun_ext}
use micro_rt_kernel.Prelude.{
  ℕ, ◌≡◌, refl, ◌≢◌, ap, sym, ◌∙◌, inl, inr, true, some, List, [], ◌∷◌, arith, ◌==◌, Bool-cases,
  ==_iff, ==_refl, mem, erase, length, if◌then◌else◌, mem-append, mem_of_erase, ◌<◌, ◌-◌, ◌⊎◌, ◌||◌,
  Bool, false,
}
use micro_rt_kernel.DList
use micro_rt_kernel.DList.Ring.{is_empty-cons}
use micro_rt_kernel.DList.Seg.{place, mem-place}
use micro_rt_kernel.Kernel.{Kernel, Err, ready, suspend, eok, null, update, set_state}
use micro_rt_kernel.Sched.{insert_task, prio_ht}
use micro_rt_kernel.Task.{timer_callback}
use micro_rt_kernel.Sched.Queues.{dequeued, enqueued}
use micro_rt_kernel.Sched.Change.{unqueued}
use micro_rt_kernel.Ipc.{wake}
use micro_rt_kernel.Ipc.Suspend.{lower_than}
use micro_rt_kernel.Ipc.Wake.{tcb-wake}
use micro_rt_kernel.Ipc.ResumeAll.{resume_one-cons}
use micro_rt_kernel.Blocking.{returned, blocked, reschedule_if}
use micro_rt_kernel.Blocking.Reschedule.{reschedule-tcb}
use micro_rt_kernel.Sem.{Sem, take, release}
use micro_rt_kernel.Sem.Tokens.{IsValid, release-free}
use micro_rt_kernel.Machine.{Machine, IsOk, IsQueued, ready_after, tail}
use micro_rt_kernel.Machine.Lists.{ListsOk, unlink-ListsOk, unlink-IsFree, insert_task-ListsOk}
use micro_rt_kernel.Machine.Moves.{wake-ListsOk, set_state-ListsOk, reschedule-ListsOk}
use micro_rt_kernel.Machine.States.{StatesOk, mem-update, readied-StatesOk, suspended-StatesOk}
use micro_rt_kernel.Machine.Blocked.{take-returned, take-blocked, wait-ListsOk}

List-cases : (xs : List ℕ) → (xs ≡ []) ⊎ ((x : ℕ) × (rest : List ℕ) × (xs ≡ x ∷ rest))
List-cases [] = inl refl
List-cases (x ∷ xs) = inr (x, xs, refl)

-- One semaphore and its list change, and the others stay valid.
update-IsValid :
    (m : Machine) (ok : IsOk m) (o : ℕ) (s : Sem) (ws : List ℕ)
    → IsValid s ws
    → (o' : ℕ) → mem o' m.objs ≡ true
    → IsValid (update m.sem o s o') (update m.waiting o ws o')
update-IsValid m ok o s ws v o' known = elim (Bool-cases (o' == o)) [
  | inl e ↦ rw e v
  | inr e ↦ rw e (ok.sems o' known)
]

module _ (m : Machine) (ok : IsOk m) (o : ℕ) (known : mem o m.objs ≡ true) where
  taken-IsValid :
      (s : Sem)
      → ((s ≡ m.sem o)
          ⊎ ((0 < (m.sem o).value) × (s ≡ record (m.sem o) { value = (m.sem o).value - 1 })))
      → IsValid s (m.waiting o)
  taken-IsValid s (inl e) = rw e (ok.sems o known)
  taken-IsValid s (inr (some_left, e)) =
      let v = ok.sems o known in
      rw e (record {
        bounded = omega (arith, v.bounded);
        idle = λ h. absurd (omega (arith, v.idle h));
      })

  pub takes-IsOk :
      (fuel timeout : ℕ) (e : Err) (s : Sem) (k : Kernel)
      → take fuel o timeout (m.sem o) m.kernel ≡ some (returned e, s, k)
      → IsOk (record m { kernel = k; sem = update m.sem o s })
  takes-IsOk fuel timeout e s k h =
      let (same, s') = take-returned fuel o timeout (m.sem o) s m.kernel k e h in
      rw same (record {
        lists = ok.lists;
        states = ok.states;
        sems = λ o' known'. elim (Bool-cases (o' == o)) [
          | inl f ↦ let e' : o' ≡ o = (==_iff _ _).0 f in rw (f, e') (taken-IsValid s s')
          | inr f ↦ rw f (ok.sems o' known')
        ];
      })

  pub waits-IsOk :
      (fuel timeout : ℕ) (s : Sem) (k : Kernel)
      → IsQueued m m.kernel.current
      → length (m.waiting o) < fuel
      → take fuel o timeout (m.sem o) m.kernel ≡ some (blocked, s, k)
      → IsOk (record m {
        kernel = k;
        ready = dequeued m.kernel m.kernel.current m.ready;
        waiting =
            update m.waiting o
              (place (lower_than m.kernel m.kernel.current) m.kernel.current (m.waiting o));
      })
  waits-IsOk fuel timeout s k q lt h =
      let t : ℕ = m.kernel.current in
      let (same, none_left, e) = take-blocked fuel o timeout (m.sem o) s m.kernel k h in
      let object = ok.lists.queues.object (m.kernel.tcb t).priority t q.level q.queued in
      let ne : t ≢ null = (λ z. absurd (omega (arith, object, z))) in
      let ws : List ℕ = place (lower_than m.kernel t) t (m.waiting o) in
      let (lists, states) =
        wait-ListsOk m.objs m.kernel m.ready m.waiting ok.lists fuel o (m.sem o).flag timeout known
          ne q.level q.queued lt k e in
      let v = ok.sems o known in
      record {
        lists = lists;
        states =
            suspended-StatesOk m.objs m.kernel k m.ready (dequeued m.kernel t m.ready) m.waiting
              (update m.waiting o ws) t suspend ok.states states refl
              (λ p x b i. ground (arith, mem_of_erase x t (m.ready p)))
              (unqueued m.kernel m.ready t ok.lists.queues q.level q.queued
                (m.kernel.tcb t).priority q.level)
              (λ a x n i. elim (mem-update m.waiting o a x ws i) [
                | inl (e', h') ↦
                    let h2 : (mem x (m.waiting o) || x == t) ≡ true =
                      ground (arith, mem-place (lower_than m.kernel t) x t (m.waiting o)) in
                    rw e' h2
                | inr h' ↦ ground arith
              ]);
        sems = λ o' known'. elim (Bool-cases (o' == o)) [
          | inl f ↦
              let e' : o' ≡ o = (==_iff _ _).0 f in
              rw (f, e') (record { bounded = v.bounded; idle = λ z. none_left })
          | inr f ↦ rw f (ok.sems o' known')
        ];
      }

  -- A waiting task is ready again.
  module _ (t : ℕ) (waits : mem t (m.waiting o) ≡ true) (g : Kernel)
      (one : (s : ℕ) → (g.tcb s).state ≡ (if s == t then ready else (m.kernel.tcb s).state)) where
    woken-StatesOk :
        StatesOk m.objs g (enqueued m.kernel t m.ready) (update m.waiting o (erase t (m.waiting o)))
    woken-StatesOk =
        let f = unlink-IsFree m.objs m.kernel m.ready m.waiting ok.lists o known t waits in
        readied-StatesOk m.objs m.kernel g m.ready (enqueued m.kernel t m.ready) m.waiting
          (update m.waiting o (erase t (m.waiting o))) t ready ok.states one refl
          (λ p x b i. ground (arith, mem-append x (m.ready p) (t ∷ [])))
          (λ a x n i. elim (mem-update m.waiting o a x (erase t (m.waiting o)) i) [
            | inl (e, h) ↦ rw e (mem_of_erase x t (m.waiting o) h)
            | inr h ↦ h
          ])
          (λ a n. ground (arith, f.away a n))

    erased-IsValid : IsValid (m.sem o) (erase t (m.waiting o))
    erased-IsValid =
        let v = ok.sems o known in
        record {
          bounded = v.bounded;
          idle = λ h. v.idle (λ e. absurd (ground (arith, ap (mem t) e)));
        }

    woken-IsOk :
        ListsOk m.objs g (enqueued m.kernel t m.ready) (update m.waiting o (erase t (m.waiting o)))
        → IsOk (record m {
          kernel = g;
          ready = enqueued m.kernel t m.ready;
          waiting = update m.waiting o (erase t (m.waiting o));
        })
    woken-IsOk lists = record {
      lists = lists;
      states = woken-StatesOk;
      sems = λ o' n. elim (Bool-cases (o' == o)) [
        | inl f ↦ let e : o' ≡ o = (==_iff _ _).0 f in rw (f, e) erased-IsValid
        | inr f ↦ rw f (ok.sems o' n)
      ];
    }

  -- The time limit of a waiting task passes.
  pub times_out-IsOk :
      (t : ℕ)
      → mem t (m.waiting o) ≡ true
      → IsOk (record m {
        kernel = timer_callback t m.kernel;
        ready = enqueued m.kernel t m.ready;
        waiting = update m.waiting o (erase t (m.waiting o));
      })
  unfolding timer_callback insert_task
  times_out-IsOk t waits =
      let k1 : Kernel = record m.kernel { sched = DList.remove t m.kernel.sched } in
      let wl : ℕ → List ℕ = update m.waiting o (erase t (m.waiting o)) in
      let ok1 = unlink-ListsOk m.objs m.kernel m.ready m.waiting ok.lists o known t waits in
      let f = unlink-IsFree m.objs m.kernel m.ready m.waiting ok.lists o known t waits in
      let k2 : Kernel = set_state t ready (insert_task t k1) in
      let ok2 =
        set_state-ListsOk m.objs (insert_task t k1) (enqueued m.kernel t m.ready) wl
          (insert_task-ListsOk m.objs k1 m.ready wl ok1 t f) t ready in
      let need : Bool = prio_ht t k2.current k2 in
      woken-IsOk t waits (reschedule_if need k2)
        (λ s. ap (λ c. c.state) (reschedule-tcb k2 need s) ∙ ground (arith, ==_refl t))
        (reschedule-ListsOk m.objs k2 (enqueued m.kernel t m.ready) wl ok2 need)

  -- A release with nobody waiting, and with a first waiting task.
  abbrev given : Err × Sem × Kernel
  given = release o (m.sem o) m.kernel

  abbrev after : Machine
  after = record m {
    kernel = given.2;
    sem = update m.sem o given.1;
    ready = ready_after m.kernel m.ready (m.waiting o);
    waiting = update m.waiting o (tail (m.waiting o));
  }

  head-cons :
      (t : ℕ) (ts : List ℕ)
      → m.waiting o ≡ t ∷ ts
      → let w = wake t eok m.kernel in
        (given.1 ≡ m.sem o) × (given.2 ≡ reschedule_if (prio_ht t m.kernel.current w) w)
  unfolding release
  head-cons t ts e =
      let w = rw e at (ok.lists.waits o known) in
      let ne : (o == null) ≡ false = ground (arith, w.head) in
      rw
        (
          ne,
          is_empty-cons m.kernel.sched o t ts w.ring,
          resume_one-cons o eok m.kernel m.ready ok.lists.queues t ts w,
        )
        (refl, refl)

  releases-nil : m.waiting o ≡ [] → IsOk after
  releases-nil e =
      let w = rw e at (ok.lists.waits o known) in
      let v = rw e at (ok.sems o known) in
      let (same, v', branch) =
        release-free o (m.sem o) m.kernel m.ready (λ z. absurd (omega (arith, w.head, z)))
          ok.lists.queues w v in
      let kept : update m.waiting o [] ≡ m.waiting = fun_ext λ a. elim (Bool-cases (a == o)) [
        | inl f ↦ let e' : a ≡ o = (==_iff _ _).0 f in rw f (sym (ap m.waiting e' ∙ e))
        | inr f ↦ rw f refl
      ] in
      rw (e, same)
        (rw kept (record {
          lists = ok.lists;
          states = ok.states;
          sems = λ o' n. elim (Bool-cases (o' == o)) [
            | inl f ↦ let e' : o' ≡ o = (==_iff _ _).0 f in rw (f, e', e) v'
            | inr f ↦ rw f (ok.sems o' n)
          ];
        }))

  releases-cons : (t : ℕ) (ts : List ℕ) → m.waiting o ≡ t ∷ ts → IsOk after
  releases-cons t ts e =
      let w : Kernel = wake t eok m.kernel in
      let need : Bool = prio_ht t m.kernel.current w in
      let waits : mem t (m.waiting o) ≡ true = rw e (ground (arith, ==_refl t)) in
      let (s', k') = head-cons t ts e in
      let rest : erase t (m.waiting o) ≡ ts = rw e (rw (==_refl t) refl) in
      let lists = wake-ListsOk m.objs m.kernel m.ready m.waiting ok.lists o known t eok waits in
      let done =
        woken-IsOk t waits (reschedule_if need w)
          (λ s.
            ap (λ c. c.state) (reschedule-tcb w need s) ∙ ground (arith, tcb-wake t eok m.kernel s))
          (reschedule-ListsOk m.objs w (enqueued m.kernel t m.ready)
            (update m.waiting o (erase t (m.waiting o))) lists need) in
      let kept : update m.sem o (m.sem o) ≡ m.sem = fun_ext λ a. elim (Bool-cases (a == o)) [
        | inl f ↦ let e' : a ≡ o = (==_iff _ _).0 f in rw (f, e') refl
        | inr f ↦ rw f refl
      ] in
      rw (e, k', s') (rw kept (rw rest at done))

  pub releases-IsOk : IsOk after
  releases-IsOk = elim (List-cases (m.waiting o)) [
    | inl e ↦ releases-nil e
    | inr (t, ts, e) ↦ releases-cons t ts e
  ]
