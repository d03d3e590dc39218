-- ===== src/Machine/Created.antt =====
-- The initialisation of tasks and semaphores keeps the machine in order.
use micro_rt_kernel.Prelude.{
  ℕ, ◌≤◌, ◌<◌, ◌≡◌, refl, ◌≢◌, ap, ◌∙◌, inl, inr, true, false, List, [], ◌∷◌, arith, ◌==◌,
  Bool-cases, ==_iff, mem, Apart,
}
use micro_rt_kernel.DList
use micro_rt_kernel.DList.Ring.{init-IsRing, init-other}
use micro_rt_kernel.Kernel.{Kernel, null, ready_list, prio_levels, update, set_tcb}
use micro_rt_kernel.Obj
use micro_rt_kernel.Obj.{obj_init}
use micro_rt_kernel.Sched.Change.{set_tcb-QueuesOk}
use micro_rt_kernel.Timer.{timer_init}
use micro_rt_kernel.Ipc.{ipc_obj_init}
use micro_rt_kernel.Ipc.Wait.{WaitOk, QueuesOk-congr, WaitOk-congr}
use micro_rt_kernel.Sem.{max_value}
use micro_rt_kernel.Sem
use micro_rt_kernel.Task.{task_init, new_tcb, is_runnable}
use micro_rt_kernel.Machine.{Machine, IsOk, IsSpare}
use micro_rt_kernel.Machine.Lists.{ListsOk, ListsOk-congr}
use micro_rt_kernel.Machine.Blocked.{Untouched}

module _ (m : Machine) (ok : IsOk m) (a : ℕ) (spare : IsSpare m a) where
  -- A spare address is made a list of its own.
  abbrev pub linked : Kernel
  linked = let k = m.kernel in record k { sched = DList.init a k.sched }

  linked-ListsOk : ListsOk m.objs linked m.ready m.waiting
  linked-ListsOk = record {
    queues = record {
      ring = λ p h.
          init-other m.kernel.sched (ready_list p) a (m.ready p) (ok.lists.queues.ring p h)
            (ground (arith, spare.idle p h, spare.object));
      prio = ok.lists.queues.prio;
      object = ok.lists.queues.object;
      bits = ok.lists.queues.bits;
      small = ok.lists.queues.small;
    };
    waits = λ o n.
        let w = ok.lists.waits o n in
        record {
          ring = init-other m.kernel.sched o a (m.waiting o) w.ring (spare.away o n);
          head = w.head;
          object = w.object;
          level = w.level;
          blocked = w.blocked;
          no_task = w.no_task;
        };
    apart = ok.lists.apart;
  }

  -- It becomes the list of a new semaphore.
  own-WaitOk : (g : Kernel) → g.sched ≡ linked.sched → WaitOk g m.ready a []
  own-WaitOk g e = record {
    ring = rw e (init-IsRing m.kernel.sched a);
    head = spare.object;
    object = λ t h. absurd (ground arith);
    level = λ t h. absurd (ground arith);
    blocked = λ p t h n. absurd (ground arith);
    no_task = spare.idle;
  }

  new-Apart :
      (o o' : ℕ)
      → mem o (a ∷ m.objs) ≡ true
      → mem o' (a ∷ m.objs) ≡ true
      → o ≢ o'
      → Apart (o ∷ update m.waiting a [] o) (o' ∷ update m.waiting a [] o')
  new-Apart o o' n n' ne x h = elim (Bool-cases (o == a)) [
    | inl e ↦ ground (arith, spare.away o')
    | inr e ↦ elim (Bool-cases (o' == a)) [
      | inl f ↦ ground (arith, spare.away o, ==_iff x a, ==_iff o' a)
      | inr f ↦ rw f (ok.lists.apart o o' (ground arith) (ground arith) ne x (rw e at h))
    ]
  ]

  pub inits_sem-IsOk :
      (value flag : ℕ)
      → value ≤ max_value
      → IsOk (record m {
        kernel = (Sem.init a true value flag (m.sem a) m.kernel).2;
        objs = a ∷ m.objs;
        sem = update m.sem a (Sem.init a true value flag (m.sem a) m.kernel).1;
        waiting = update m.waiting a [];
      })
  unfolding Sem.init ipc_obj_init obj_init
  inits_sem-IsOk value flag small =
      let real : (a == null) ≡ false = ground (arith, spare.object) in
      let k = linked in
      let g : Kernel = record k { objs = (ipc_obj_init Obj.sem a a m.kernel).objs } in
      let wl : ℕ → List ℕ = update m.waiting a [] in
      let made : Sem.Sem = record (m.sem a) { value = value; is_dynamic = false } in
      let lists : ListsOk (a ∷ m.objs) g m.ready wl = record {
        queues = QueuesOk-congr linked g m.ready refl (λ t. refl) refl linked-ListsOk.queues;
        waits = λ o n. elim (Bool-cases (o == a)) [
          | inl e ↦ let e' : o ≡ a = (==_iff _ _).0 e in rw (e, e') (own-WaitOk g refl)
          | inr e ↦ rw e (
              WaitOk-congr linked g m.ready o (m.waiting o) refl (λ t. refl)
                (linked-ListsOk.waits o (ground arith)))
        ];
        apart = new-Apart;
      } in
      rw real (record {
        lists = lists;
        states = record {
          runs = ok.states.runs;
          sleeps = λ o t n i. elim (Bool-cases (o == a)) [
            | inl e ↦ absurd (ground arith)
            | inr e ↦ ok.states.sleeps o t (ground arith) (rw e at i)
          ];
        };
        sems = λ o n. elim (Bool-cases (o == a)) [
          | inl e ↦ rw e (record { bounded = small; idle = λ z. absurd (z refl) })
          | inr e ↦ rw e (ok.sems o (ground arith))
        ];
      })

  -- It becomes the node of a new task.
  module _ (priority tick : ℕ) (bound : priority < prio_levels) where
    abbrev pub created : Kernel
    created = set_tcb a (new_tcb priority tick) linked

    created-ListsOk : ListsOk m.objs created m.ready m.waiting
    created-ListsOk =
        let l = linked-ListsOk in
        record {
          queues =
              set_tcb-QueuesOk linked m.ready l.queues a (new_tcb priority tick)
                (λ p h n. absurd (ground (arith, spare.idle p h)));
          waits = λ o n.
              let w = l.waits o n in
              record {
                ring = w.ring;
                head = w.head;
                object = w.object;
                level = λ s h. ground (arith, w.level s h, spare.away o n);
                blocked = w.blocked;
                no_task = w.no_task;
              };
          apart = l.apart;
        }

    abbrev pub inited : Kernel
    inited = (task_init a true priority tick m.kernel).1

    pub inited-Untouched : Untouched created inited
    unfolding task_init timer_init obj_init
    inited-Untouched = ground (arith, spare.object)

    pub inits_task-IsOk : IsOk (record m { kernel = inited })
    inits_task-IsOk =
        let u = inited-Untouched in
        record {
          lists =
              ListsOk-congr m.objs created inited m.ready m.waiting u.sched
                (λ t. ap (λ f. (f t).priority) u.tcb) u.bitmap created-ListsOk;
          states = record {
            runs = λ p t h i.
                ap (λ f. is_runnable (f t).state) u.tcb
                ∙ ground (arith, ok.states.runs p t h, spare.idle p h);
            sleeps = λ o t n i.
                ap (λ f. (f t).state) u.tcb
                ∙ ground (arith, ok.states.sleeps o t n, spare.away o n);
          };
          sems = ok.sems;
        }
