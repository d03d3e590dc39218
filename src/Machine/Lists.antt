-- ===== src/Machine/Lists.antt =====
-- The ready queues and several waiting lists at once: what each change of the links does to all.
use micro_rt_kernel.Prelude.{
  ℕ, ◌≤◌, ◌<◌, ◌≡◌, ◌≢◌, inl, inr, Bool, true, false, List, ◌∷◌, arith, ◌==◌, Bool-cases, ==_iff,
  mem, Distinct, Apart, erase, mem_of_erase, mem-erase, mem-erase_self,
}
use micro_rt_kernel.DList
use micro_rt_kernel.DList.Ring.{insert_before-other, remove-other, place-IsRing, init-other}
use micro_rt_kernel.DList.Seg.{first, place, mem-place, first-mem}
use micro_rt_kernel.Kernel.{Kernel, first_object, ready_list, prio_levels, update}
use micro_rt_kernel.Sched.{insert_task, remove_task}
use micro_rt_kernel.Sched.Queues.{
  QueuesOk, IsUnlinked, enqueued, dequeued, insert_task-QueuesOk, remove_task-QueuesOk,
}
use micro_rt_kernel.Ipc.{link_task}
use micro_rt_kernel.Ipc.Wait.{
  WaitOk, QueuesOk-congr, WaitOk-congr, wait-Apart, unlink-QueuesOk, unlink-WaitOk,
  insert_task-WaitOk, remove_task-WaitOk,
}

-- The lists of the objects `objs` hold `wl`, apart from each other and from the ready queues `rq`.
pub record ListsOk (objs : List ℕ) (k : Kernel) (rq wl : ℕ → List ℕ) : Type 0 where
  pub queues : QueuesOk k rq
  pub waits : (o : ℕ) → mem o objs ≡ true → WaitOk k rq o (wl o)
  pub apart :
      (o o' : ℕ) → mem o objs ≡ true → mem o' objs ≡ true → o ≢ o' → Apart (o ∷ wl o) (o' ∷ wl o')

-- A task that stands in no list at all.
pub record IsFree (objs : List ℕ) (k : Kernel) (rq wl : ℕ → List ℕ) (t : ℕ) : Type 0 where
  pub object : first_object ≤ t
  pub level : (k.tcb t).priority < prio_levels
  pub idle : (p : ℕ) → p < prio_levels → mem t (rq p) ≡ false
  pub away : (o : ℕ) → mem o objs ≡ true → mem t (o ∷ wl o) ≡ false

pub ListsOk-congr :
    (objs : List ℕ) (k g : Kernel) (rq wl : ℕ → List ℕ)
    → g.sched ≡ k.sched
    → ((t : ℕ) → (g.tcb t).priority ≡ (k.tcb t).priority)
    → g.ready_prio_bitmap ≡ k.ready_prio_bitmap
    → ListsOk objs k rq wl
    → ListsOk objs g rq wl
ListsOk-congr objs k g rq wl es et eb ok = record {
  queues = QueuesOk-congr k g rq es et eb ok.queues;
  waits = λ o m. WaitOk-congr k g rq o (wl o) es et (ok.waits o m);
  apart = ok.apart;
}

pub IsFree-congr :
    (objs : List ℕ) (k g : Kernel) (rq wl : ℕ → List ℕ) (t : ℕ)
    → (g.tcb t).priority ≡ (k.tcb t).priority
    → IsFree objs k rq wl t
    → IsFree objs g rq wl t
IsFree-congr objs k g rq wl t e f = record {
  object = f.object;
  level = rw e f.level;
  idle = f.idle;
  away = f.away;
}

module _ (objs : List ℕ) (k : Kernel) (rq wl : ℕ → List ℕ) (ok : ListsOk objs k rq wl) (t : ℕ) where
  -- A free task becomes ready.
  pub insert_task-ListsOk :
      IsFree objs k rq wl t → ListsOk objs (insert_task t k) (enqueued k t rq) wl
  insert_task-ListsOk f =
      let u : IsUnlinked k rq t = record {
        object = f.object;
        level = f.level;
        absent = f.idle (k.tcb t).priority f.level;
      } in
      record {
        queues = insert_task-QueuesOk k rq ok.queues t u;
        waits = λ o m. insert_task-WaitOk k rq ok.queues o (wl o) (ok.waits o m) t u (f.away o m);
        apart = ok.apart;
      }

  -- A free task is made a list of its own.
  pub init-ListsOk :
      IsFree objs k rq wl t → ListsOk objs (record k { sched = DList.init t k.sched }) rq wl
  init-ListsOk f = record {
    queues = record {
      ring = λ p h.
          init-other k.sched (ready_list p) t (rq p) (ok.queues.ring p h)
            (ground (arith, f.idle p h, f.object));
      prio = ok.queues.prio;
      object = ok.queues.object;
      bits = ok.queues.bits;
      small = ok.queues.small;
    };
    waits = λ o m.
        let w = ok.waits o m in
        record {
          ring = init-other k.sched o t (wl o) w.ring (f.away o m);
          head = w.head;
          object = w.object;
          level = w.level;
          blocked = w.blocked;
          no_task = w.no_task;
        };
    apart = ok.apart;
  }

  -- A queued task stands in no waiting list.
  module _ (level : (k.tcb t).priority < prio_levels)
      (queued : mem t (rq (k.tcb t).priority) ≡ true) where
    pub queued-away : (o : ℕ) → mem o objs ≡ true → mem t (o ∷ wl o) ≡ false
    queued-away o m =
        let w = ok.waits o m in
        ground (arith, w.blocked (k.tcb t).priority t level, w.no_task (k.tcb t).priority level)

    -- It stops being ready.
    pub remove_task-ListsOk : ListsOk objs (remove_task t k) (dequeued k t rq) wl
    remove_task-ListsOk = record {
      queues = remove_task-QueuesOk k rq ok.queues t level queued;
      waits = λ o m. remove_task-WaitOk k rq ok.queues o (wl o) (ok.waits o m) t level queued;
      apart = ok.apart;
    }

erased-away :
    (t o : ℕ) (ws : List ℕ)
    → Distinct ws
    → mem o ws ≡ false
    → mem t ws ≡ true
    → mem t (o ∷ erase t ws) ≡ false
erased-away t o ws d fresh waiting = ground (arith, mem-erase_self t ws d, ==_iff t o)

-- Changes of one waiting list, that of the object `o`.
module _ (objs : List ℕ) (k : Kernel) (rq wl : ℕ → List ℕ) (ok : ListsOk objs k rq wl) (o : ℕ)
    (known : mem o objs ≡ true) (t : ℕ) where
  -- A waiting task is taken out of the list.
  module _ (waiting : mem t (wl o) ≡ true) where
    abbrev unlinked : Kernel
    unlinked = record k { sched = DList.remove t k.sched }

    unlink-other : (o' : ℕ) → mem o' objs ≡ true → o' ≢ o → WaitOk unlinked rq o' (wl o')
    unlink-other o' m ne =
        let w = ok.waits o' m in
        record {
          ring =
              remove-other k.sched o' (wl o') w.ring o (wl o) (ok.waits o known).ring t waiting
                (ok.apart o' o m known ne);
          head = w.head;
          object = w.object;
          level = w.level;
          blocked = w.blocked;
          no_task = w.no_task;
        }

    pub unlink-ListsOk : ListsOk objs unlinked rq (update wl o (erase t (wl o)))
    unlink-ListsOk = record {
      queues = unlink-QueuesOk k rq ok.queues o (wl o) (ok.waits o known) t waiting;
      waits = λ o' m. elim (Bool-cases (o' == o)) [
        | inl e ↦
            let same : o' ≡ o = (==_iff _ _).0 e in
            rw (e, same) (unlink-WaitOk k rq ok.queues o (wl o) (ok.waits o known) t waiting)
        | inr e ↦ rw e (unlink-other o' m (ground arith))
      ];
      apart = λ a b m n ne x h.
          ground (arith, ok.apart a b m n ne x, mem_of_erase x t (wl o), mem-erase x t (wl o));
    }

    pub unlink-IsFree : IsFree objs unlinked rq (update wl o (erase t (wl o))) t
    unlink-IsFree =
        let w = ok.waits o known in
        record {
          object = w.object t waiting;
          level = w.level t waiting;
          idle = λ p h. w.blocked p t h waiting;
          away = λ o' m. elim (Bool-cases (o' == o)) [
            | inl e ↦
                let same : o' ≡ o = (==_iff _ _).0 e in
                rw (e, same) (erased-away t o (wl o) w.ring.distinct w.ring.fresh waiting)
            | inr e ↦ rw e (ok.apart o o' known m (ground arith) t (ground arith))
          ];
        }

  -- A free task is linked in front of the first one that passes a test, or at the end.
  module _ (test : ℕ → Bool) (f : IsFree objs k rq wl t) where
    abbrev linked : Kernel
    linked = link_task (first test (wl o) o) t k

    link-other : (o' : ℕ) → mem o' objs ≡ true → o' ≢ o → WaitOk linked rq o' (wl o')
    link-other o' m ne =
        let w = ok.waits o' m in
        record {
          ring =
              insert_before-other k.sched o' (wl o') w.ring o (wl o) (ok.waits o known).ring
                (first test (wl o) o) t (first-mem test (wl o) o)
                (λ a h. ground (arith, ok.apart o' o m known ne a h, f.away o' m));
          head = w.head;
          object = w.object;
          level = w.level;
          blocked = w.blocked;
          no_task = w.no_task;
        }

    link-own : WaitOk linked rq o (place test t (wl o))
    link-own =
        let w = ok.waits o known in
        record {
          ring =
              place-IsRing k.sched o test t (wl o) w.ring (ground (arith, f.away o known))
                (ground (arith, f.away o known));
          head = w.head;
          object = λ s m. ground (arith, w.object s, mem-place test s t (wl o), f.object);
          level = λ s m. ground (arith, w.level s, mem-place test s t (wl o), f.level);
          blocked =
              λ p s h m. ground (arith, w.blocked p s h, mem-place test s t (wl o), f.idle p h);
          no_task = w.no_task;
        }

    pub link-ListsOk : ListsOk objs linked rq (update wl o (place test t (wl o)))
    link-ListsOk = record {
      queues = record {
        ring = λ p h.
            insert_before-other k.sched (ready_list p) (rq p) (ok.queues.ring p h) o (wl o)
              (ok.waits o known).ring (first test (wl o) o) t (first-mem test (wl o) o)
              (λ a m. ground (
                arith,
                wait-Apart k rq ok.queues o (wl o) (ok.waits o known) p h a m,
                f.idle p h,
                f.object,
              ));
        prio = ok.queues.prio;
        object = ok.queues.object;
        bits = ok.queues.bits;
        small = ok.queues.small;
      };
      waits = λ o' m. elim (Bool-cases (o' == o)) [
        | inl e ↦ let same : o' ≡ o = (==_iff _ _).0 e in rw (e, same) link-own
        | inr e ↦ rw e (link-other o' m (ground arith))
      ];
      apart = λ a b m n ne x h.
          ground (arith, ok.apart a b m n ne x, mem-place test x t (wl o), f.away a m, f.away b n);
    }
