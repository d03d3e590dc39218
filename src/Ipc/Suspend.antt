-- ===== src/Ipc/Suspend.antt =====
-- `_mrtk_ipc_suspend_one`: where the task goes, and what the policy flag changes.
use mathlib.Core.Path.{fun_ext}
use micro_rt_kernel.Prelude.{
  ℕ, ◌<◌, ◌≡◌, refl, ◌≢◌, Bool, true, false, some, List, ◌∷◌, arith, ltb, length, mem,
}
use micro_rt_kernel.Prelude.Bits.{bit_and-zero}
use micro_rt_kernel.DList.Ring.{place-IsRing, insert_before-other}
use micro_rt_kernel.DList.Seg.{first, place, mem-place, first-mem}
use micro_rt_kernel.DList.Walk.{search_node-first}
use micro_rt_kernel.Kernel.{Kernel, suspend, null, ready_list, prio_levels, set_state}
use micro_rt_kernel.Sched.{remove_task, prio_lt}
use micro_rt_kernel.Sched.Queues.{QueuesOk, dequeued, remove_task-QueuesOk, remove_task-absent}
use micro_rt_kernel.Ipc.{suspend_one, link_task}
use micro_rt_kernel.Ipc.Wait.{WaitOk, QueuesOk-congr, WaitOk-congr, remove_task-WaitOk, wait-Apart}

-- Whether a waiting task has a lower priority than `t`.
abbrev pub lower_than : Kernel → ℕ → ℕ → Bool
lower_than k t s = ltb (k.tcb t).priority (k.tcb s).priority

-- The wake-up policy has no effect: whatever flag the object was created with, a task is put in
-- front of the first waiting task of a lower priority.
suspend_one-flag :
    (fuel list flag t : ℕ) (k : Kernel)
    → suspend_one fuel list flag t k ≡ suspend_one fuel list 1 t k
unfolding suspend_one
suspend_one-flag fuel list flag t k = rw (bit_and-zero flag)

module _ (t : ℕ) (k : Kernel) where
  -- The state in which the list is searched.
  abbrev pub left : Kernel
  left = set_state t suspend (remove_task t k)

  tcb-left : (s : ℕ) → (left.tcb s).priority ≡ (k.tcb s).priority
  unfolding remove_task
  tcb-left s = ground arith

module _ (k : Kernel) (rq : ℕ → List ℕ) (q : QueuesOk k rq) (list : ℕ) (ws : List ℕ)
    (w : WaitOk k rq list ws) (t : ℕ) (ne : t ≢ null) (level : (k.tcb t).priority < prio_levels)
    (queued : mem t (rq (k.tcb t).priority) ≡ true) where
  left-QueuesOk : QueuesOk (left t k) (dequeued k t rq)
  left-QueuesOk =
      QueuesOk-congr (remove_task t k) (left t k) (dequeued k t rq) refl (λ s. ground arith) refl
        (remove_task-QueuesOk k rq q t level queued)

  left-WaitOk : WaitOk (left t k) (dequeued k t rq) list ws
  left-WaitOk =
      WaitOk-congr (remove_task t k) (left t k) (dequeued k t rq) list ws refl (λ s. ground arith)
        (remove_task-WaitOk k rq q list ws w t level queued)

  unqueued : (p : ℕ) → p < prio_levels → mem t (dequeued k t rq p) ≡ false
  unqueued p h = ground (arith, q.prio p t h, remove_task-absent k rq q t level queued)

  absent : mem t (list ∷ ws) ≡ false
  absent = ground (arith, w.blocked (k.tcb t).priority t level, w.no_task (k.tcb t).priority level)

  -- The running task, taken out of its ready queue, stands in the list in front of the first
  -- task of a lower priority.
  abbrev pub waiting : List ℕ
  waiting = place (lower_than k t) t ws

  abbrev pub blocked : Kernel
  blocked = link_task (first (lower_than k t) ws list) t (left t k)

  test_eq : ◌≡◌ {A = ℕ → Bool} (λ cur. prio_lt cur t (left t k)) (lower_than k t)
  unfolding prio_lt
  test_eq = fun_ext λ s. ground (arith, tcb-left t k s, tcb-left t k t)

  pub suspend_one-eq :
      (fuel flag : ℕ) → length ws < fuel → suspend_one fuel list flag t k ≡ some blocked
  unfolding suspend_one
  suspend_one-eq fuel flag lt = rw (
    bit_and-zero flag,
    test_eq,
    search_node-first (left t k).sched list (lower_than k t) fuel ws left-WaitOk.ring lt,
  )

  blocked-QueuesOk : QueuesOk blocked (dequeued k t rq)
  blocked-QueuesOk = record {
    ring = λ p h.
        insert_before-other (left t k).sched (ready_list p) (dequeued k t rq p)
          (left-QueuesOk.ring p h) list ws left-WaitOk.ring (first (lower_than k t) ws list) t
          (first-mem (lower_than k t) ws list)
          (λ a m. ground (
            arith,
            wait-Apart (left t k) (dequeued k t rq) left-QueuesOk list ws left-WaitOk p h a m,
            unqueued p h,
            q.object (k.tcb t).priority t level,
          ));
    prio = left-QueuesOk.prio;
    object = left-QueuesOk.object;
    bits = left-QueuesOk.bits;
    small = left-QueuesOk.small;
  }

  blocked-WaitOk : WaitOk blocked (dequeued k t rq) list waiting
  blocked-WaitOk = record {
    ring =
        place-IsRing (left t k).sched list (lower_than k t) t ws left-WaitOk.ring
          (ground (arith, absent)) (ground (arith, absent));
    head = w.head;
    object = λ s m.
        ground (
          arith,
          w.object s,
          mem-place (lower_than k t) s t ws,
          q.object (k.tcb t).priority t level,
        );
    level = λ s m.
        ground (arith, left-WaitOk.level s, mem-place (lower_than k t) s t ws, tcb-left t k t);
    blocked = λ p s h m.
        ground (arith, left-WaitOk.blocked p s h, mem-place (lower_than k t) s t ws, unqueued p h);
    no_task = left-WaitOk.no_task;
  }

  -- `_mrtk_ipc_suspend_one` always ends: the task leaves its ready queue, the bitmap follows, and
  -- the task stands in the waiting list in front of the first task of a lower priority.
  pub suspend_one-Waiting :
      (fuel flag : ℕ)
      → length ws < fuel
      → (k' : Kernel) × (suspend_one fuel list flag t k ≡ some k')
        × QueuesOk k' (dequeued k t rq)
        × WaitOk k' (dequeued k t rq) list waiting
        × ((k'.tcb t).state ≡ suspend)
  suspend_one-Waiting fuel flag lt =
      (blocked, suspend_one-eq fuel flag lt, blocked-QueuesOk, blocked-WaitOk, ground arith)
