-- ===== src/Sched/Queues.antt =====
-- The ready queues: what the pointers and the bitmap stand for, and that insertion, removal and a
-- change of priority keep the two in step.
use micro_rt_kernel.Prelude.{
  ℕ, ◌^◌, ◌≤◌, ◌<◌, ◌≡◌, refl, ◌≢◌, inl, inr, Bool, true, false, not, List, [], ◌∷◌, ◌++◌, arith,
  ◌==◌, Bool-cases, ==_refl, ==_iff, mem, Apart, erase, mem-append, mem-erase_self, mem_of_erase,
}
use micro_rt_kernel.Prelude.Bits.{
  test_bit, test_bit-bit_and, test_bit-bit_or, test_bit-pow, test_bit-not_pow, bit_or-lt,
  bit_and-le, pow-lt,
}
use micro_rt_kernel.DList
use micro_rt_kernel.DList.{Links}
use micro_rt_kernel.DList.Ring.{
  IsRing, is_empty-nil, is_empty-cons, insert_before-IsRing, remove-IsRing, insert_before-other,
  remove-other,
}
use micro_rt_kernel.Kernel.{Kernel, first_object, ready_list, prio_levels, update}
use micro_rt_kernel.Sched.{insert_task, remove_task, not_bit}

abbrev pub nonempty : List ℕ → Bool
nonempty [] = false
nonempty (x ∷ xs) = true

-- The ready lists hold `rq`: each task stands in the list of its priority, and the bitmap has
-- exactly the bits of the lists that are not empty.
pub record QueuesOk (k : Kernel) (rq : ℕ → List ℕ) : Type 0 where
  pub ring : (p : ℕ) → p < prio_levels → IsRing k.sched (ready_list p) (rq p)
  pub prio : (p t : ℕ) → p < prio_levels → mem t (rq p) ≡ true → (k.tcb t).priority ≡ p
  pub object : (p t : ℕ) → p < prio_levels → mem t (rq p) ≡ true → first_object ≤ t
  pub bits : (p : ℕ) → p < prio_levels → test_bit k.ready_prio_bitmap p ≡ nonempty (rq p)
  pub small : k.ready_prio_bitmap < 2 ^ 32

-- A task that may be put into a ready list: it has a level, and stands in none of the lists.
pub record IsUnlinked (k : Kernel) (rq : ℕ → List ℕ) (t : ℕ) : Type 0 where
  pub object : first_object ≤ t
  pub level : (k.tcb t).priority < prio_levels
  pub absent : mem t (rq (k.tcb t).priority) ≡ false

-- The queues with `t` at the end of the queue of its priority, or taken out of it.
abbrev pub enqueued : Kernel → ℕ → (ℕ → List ℕ) → ℕ → List ℕ
enqueued k t rq = update rq (k.tcb t).priority (rq (k.tcb t).priority ++ t ∷ [])

abbrev pub dequeued : Kernel → ℕ → (ℕ → List ℕ) → ℕ → List ℕ
dequeued k t rq = update rq (k.tcb t).priority (erase t (rq (k.tcb t).priority))

nonempty-snoc : (xs : List ℕ) (t : ℕ) → nonempty (xs ++ t ∷ []) ≡ true
nonempty-snoc [] t = refl
nonempty-snoc (x ∷ xs) t = refl

nonempty_of_mem : (t : ℕ) (xs : List ℕ) → mem t xs ≡ true → nonempty xs ≡ true
nonempty_of_mem t [] h = cc
nonempty_of_mem t (x ∷ xs) h = refl

pub is_empty-nonempty :
    (l : Links) (head : ℕ) (xs : List ℕ)
    → IsRing l head xs
    → DList.is_empty head l ≡ not (nonempty xs)
is_empty-nonempty l head [] r = is_empty-nil l head r
is_empty-nonempty l head (x ∷ xs) r = is_empty-cons l head x xs r

module _ (k : Kernel) (rq : ℕ → List ℕ) (q : QueuesOk k rq) (t : ℕ) where
  -- Two ready lists share no node, the head and a node to be inserted included.
  pub lists-Apart :
      (p p' : ℕ)
      → p < prio_levels
      → p' < prio_levels
      → p ≢ p'
      → Apart (ready_list p ∷ rq p) (ready_list p' ∷ rq p')
  lists-Apart p p' h h' ne a m =
      ground (arith, q.prio p a, q.prio p' a, q.object p a, q.object p' a)

  module _ (u : IsUnlinked k rq t) where
    new-Apart :
        (p : ℕ)
        → p < prio_levels
        → p ≢ (k.tcb t).priority
        → Apart (ready_list p ∷ rq p) (ready_list (k.tcb t).priority ∷ t ∷ rq (k.tcb t).priority)
    new-Apart p h ne a m =
        ground (arith, lists-Apart p (k.tcb t).priority h u.level ne a m, q.prio p t, u.object)

    enqueue-IsRing :
        (p : ℕ)
        → p < prio_levels
        → IsRing (insert_task t k).sched (ready_list p) (enqueued k t rq p)
    unfolding insert_task
    enqueue-IsRing p h = elim (Bool-cases (p == (k.tcb t).priority)) [
      | inl e ↦
          let e' : p ≡ (k.tcb t).priority = (==_iff _ _).0 e in
          rw (e', ==_refl (k.tcb t).priority)
            (insert_before-IsRing k.sched (ready_list (k.tcb t).priority) t (rq (k.tcb t).priority)
              (q.ring _ u.level) (ground (arith, u.object, u.level)) u.absent)
      | inr e ↦ rw e (
          insert_before-other k.sched (ready_list p) (rq p) (q.ring p h)
            (ready_list (k.tcb t).priority) (rq (k.tcb t).priority) (q.ring _ u.level)
            (ready_list (k.tcb t).priority) t (ground arith) (new-Apart p h (ground arith)))
    ]

    -- Insertion puts the task at the end of the queue of its priority, and changes no other queue.
    pub insert_task-QueuesOk : QueuesOk (insert_task t k) (enqueued k t rq)
    unfolding insert_task
    insert_task-QueuesOk = record {
      ring = enqueue-IsRing;
      prio = λ p s h m. ground (arith, q.prio p s, mem-append s (rq p) (t ∷ []));
      object = λ p s h m. ground (arith, q.object p s, mem-append s (rq p) (t ∷ []), u.object);
      bits = λ p h. ground (
        arith,
        test_bit-bit_or p k.ready_prio_bitmap (2 ^ (k.tcb t).priority),
        test_bit-pow (k.tcb t).priority p u.level h,
        q.bits p h,
        nonempty-snoc (rq (k.tcb t).priority) t,
      );
      small =
          bit_or-lt 32 k.ready_prio_bitmap (2 ^ (k.tcb t).priority) q.small
            (pow-lt (k.tcb t).priority u.level);
    }

  module _ (level : (k.tcb t).priority < prio_levels)
      (queued : mem t (rq (k.tcb t).priority) ≡ true) where
    dequeue-IsRing :
        (p : ℕ)
        → p < prio_levels
        → IsRing (remove_task t k).sched (ready_list p) (dequeued k t rq p)
    unfolding remove_task
    dequeue-IsRing p h = elim (Bool-cases (p == (k.tcb t).priority)) [
      | inl e ↦
          let e' : p ≡ (k.tcb t).priority = (==_iff _ _).0 e in
          rw (e', ==_refl (k.tcb t).priority)
            (remove-IsRing k.sched (ready_list (k.tcb t).priority) t (rq (k.tcb t).priority)
              (q.ring _ level) queued)
      | inr e ↦ rw e (
          remove-other k.sched (ready_list p) (rq p) (q.ring p h) (ready_list (k.tcb t).priority)
            (rq (k.tcb t).priority) (q.ring _ level) t queued
            (lists-Apart p (k.tcb t).priority h level (ground arith)))
    ]

    emptied :
        DList.is_empty (ready_list (k.tcb t).priority) (DList.remove t k.sched)
        ≡ not (nonempty (erase t (rq (k.tcb t).priority)))
    emptied =
        is_empty-nonempty (DList.remove t k.sched) (ready_list (k.tcb t).priority)
          (erase t (rq (k.tcb t).priority))
          (remove-IsRing k.sched (ready_list (k.tcb t).priority) t (rq (k.tcb t).priority)
            (q.ring _ level) queued)

    -- Removal takes the task out of the queue of its priority, changes no other queue, and clears
    -- the bit of the priority exactly when the queue is left empty.
    pub remove_task-QueuesOk : QueuesOk (remove_task t k) (dequeued k t rq)
    unfolding remove_task
    remove_task-QueuesOk = record {
      ring = dequeue-IsRing;
      prio = λ p s h m. ground (arith, q.prio p s, mem_of_erase s t (rq p));
      object = λ p s h m. ground (arith, q.object p s, mem_of_erase s t (rq p));
      bits = λ p h. ground (
        arith,
        test_bit-bit_and p k.ready_prio_bitmap (not_bit (k.tcb t).priority),
        test_bit-not_pow (k.tcb t).priority p level h,
        q.bits p h,
        emptied,
        nonempty_of_mem t (rq (k.tcb t).priority),
      );
      small = ground (
        arith,
        q.small,
        bit_and-le k.ready_prio_bitmap k.ready_prio_bitmap (not_bit (k.tcb t).priority),
      );
    }

    -- A removed task stands in no queue.
    pub remove_task-absent : mem t (dequeued k t rq (k.tcb t).priority) ≡ false
    remove_task-absent =
        rw (==_refl (k.tcb t).priority)
          (mem-erase_self t (rq (k.tcb t).priority) ((q.ring _ level).distinct))
