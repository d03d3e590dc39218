-- ===== src/Ipc/Wait.antt =====
-- A list of waiting tasks beside the ready queues: what the pointers stand for, and which changes
-- of the kernel's state leave both alone.
use micro_rt_kernel.Prelude.{
  ℕ, ◌≤◌, ◌<◌, ◌≡◌, true, false, List, [], ◌∷◌, arith, mem, Apart, erase, mem-append, mem_of_erase,
}
use micro_rt_kernel.DList
use micro_rt_kernel.DList.Ring.{IsRing, insert_before-other, remove-IsRing, remove-other}
use micro_rt_kernel.Kernel.{Kernel, first_object, ready_list, prio_levels}
use micro_rt_kernel.Sched.{insert_task, remove_task}
use micro_rt_kernel.Sched.Queues.{QueuesOk, IsUnlinked, enqueued, dequeued}

-- The list at `list` holds the waiting tasks `ws`, none of which is ready.
pub record WaitOk (k : Kernel) (rq : ℕ → List ℕ) (list : ℕ) (ws : List ℕ) : Type 0 where
  pub ring : IsRing k.sched list ws
  pub head : first_object ≤ list
  pub object : (t : ℕ) → mem t ws ≡ true → first_object ≤ t
  pub level : (t : ℕ) → mem t ws ≡ true → (k.tcb t).priority < prio_levels
  pub blocked : (p t : ℕ) → p < prio_levels → mem t ws ≡ true → mem t (rq p) ≡ false
  pub no_task : (p : ℕ) → p < prio_levels → mem list (rq p) ≡ false

-- Both depend on the links, the priorities and the bitmap alone.
pub QueuesOk-congr :
    (k g : Kernel) (rq : ℕ → List ℕ)
    → g.sched ≡ k.sched
    → ((t : ℕ) → (g.tcb t).priority ≡ (k.tcb t).priority)
    → g.ready_prio_bitmap ≡ k.ready_prio_bitmap
    → QueuesOk k rq
    → QueuesOk g rq
QueuesOk-congr k g rq es et eb q = record {
  ring = λ p h. rw es (q.ring p h);
  prio = λ p t h m. ground (arith, et t, q.prio p t h);
  object = q.object;
  bits = λ p h. rw eb (q.bits p h);
  small = rw eb q.small;
}

pub WaitOk-congr :
    (k g : Kernel) (rq : ℕ → List ℕ) (list : ℕ) (ws : List ℕ)
    → g.sched ≡ k.sched
    → ((t : ℕ) → (g.tcb t).priority ≡ (k.tcb t).priority)
    → WaitOk k rq list ws
    → WaitOk g rq list ws
WaitOk-congr k g rq list ws es et w = record {
  ring = rw es w.ring;
  head = w.head;
  object = w.object;
  level = λ t m. ground (arith, et t, w.level t);
  blocked = w.blocked;
  no_task = w.no_task;
}

module _ (k : Kernel) (rq : ℕ → List ℕ) (q : QueuesOk k rq) (list : ℕ) (ws : List ℕ)
    (w : WaitOk k rq list ws) where
  pub wait-Apart : (p : ℕ) → p < prio_levels → Apart (ready_list p ∷ rq p) (list ∷ ws)
  wait-Apart p h a m =
      ground (arith, q.object p a, w.blocked p a h, w.no_task p h, w.object a, w.head)

  pub ready-Apart : (p : ℕ) → p < prio_levels → Apart (list ∷ ws) (ready_list p ∷ rq p)
  ready-Apart p h a m =
      ground (arith, q.object p a, w.blocked p a h, w.no_task p h, w.object a, w.head)

  module _ (t : ℕ) (waits : mem t ws ≡ true) where
    -- A waiting task is taken out of its list: the ready queues stay as they are.
    pub unlink-QueuesOk : QueuesOk (record k { sched = DList.remove t k.sched }) rq
    unlink-QueuesOk = record {
      ring = λ p h.
          remove-other k.sched (ready_list p) (rq p) (q.ring p h) list ws w.ring t waits
            (wait-Apart p h);
      prio = q.prio;
      object = q.object;
      bits = q.bits;
      small = q.small;
    }

    pub unlink-WaitOk : WaitOk (record k { sched = DList.remove t k.sched }) rq list (erase t ws)
    unlink-WaitOk = record {
      ring = remove-IsRing k.sched list t ws w.ring waits;
      head = w.head;
      object = λ s m. w.object s (mem_of_erase s t ws m);
      level = λ s m. w.level s (mem_of_erase s t ws m);
      blocked = λ p s h m. w.blocked p s h (mem_of_erase s t ws m);
      no_task = w.no_task;
    }

  -- A task that is not in the list becomes ready.
  pub insert_task-WaitOk :
      (t : ℕ)
      → IsUnlinked k rq t
      → mem t (list ∷ ws) ≡ false
      → WaitOk (insert_task t k) (enqueued k t rq) list ws
  unfolding insert_task
  insert_task-WaitOk t u out = record {
    ring =
        insert_before-other k.sched list ws w.ring (ready_list (k.tcb t).priority)
          (rq (k.tcb t).priority) (q.ring _ u.level) (ready_list (k.tcb t).priority) t
          (ground arith) (λ a m. ground (arith, ready-Apart (k.tcb t).priority u.level a m));
    head = w.head;
    object = w.object;
    level = w.level;
    blocked = λ p s h m. ground (arith, w.blocked p s h, mem-append s (rq p) (t ∷ []));
    no_task = λ p h. ground (arith, w.no_task p h, mem-append list (rq p) (t ∷ []));
  }

  -- A task stops being ready.
  pub remove_task-WaitOk :
      (t : ℕ)
      → (k.tcb t).priority < prio_levels
      → mem t (rq (k.tcb t).priority) ≡ true
      → WaitOk (remove_task t k) (dequeued k t rq) list ws
  unfolding remove_task
  remove_task-WaitOk t level queued = record {
    ring =
        remove-other k.sched list ws w.ring (ready_list (k.tcb t).priority) (rq (k.tcb t).priority)
          (q.ring _ level) t queued (ready-Apart (k.tcb t).priority level);
    head = w.head;
    object = w.object;
    level = w.level;
    blocked = λ p s h m. ground (arith, w.blocked p s h, mem_of_erase s t (rq p));
    no_task = λ p h. ground (arith, w.no_task p h, mem_of_erase list t (rq p));
  }
