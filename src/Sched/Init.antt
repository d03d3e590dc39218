-- ===== src/Sched/Init.antt =====
-- `mrtk_schedule_init`: the ready queues at the start.
use micro_rt_kernel.Prelude.{
  ℕ, zero, suc, ◌+◌, ◌<◌, ◌≡◌, inl, inr, [], arith, ◌==◌, Bool-cases, ==_iff,
}
use micro_rt_kernel.Prelude.Bits.{test_bit-zero}
use micro_rt_kernel.DList
use micro_rt_kernel.DList.{Links}
use micro_rt_kernel.DList.Ring.{IsRing, init-IsRing, init-other}
use micro_rt_kernel.Kernel.{Kernel, ready_list, prio_levels, defunct_list}
use micro_rt_kernel.Sched.{init_lists, schedule_init}
use micro_rt_kernel.Sched.Queues.{QueuesOk}

init_lists-IsRing :
    (left i : ℕ) (l : Links)
    → ((p : ℕ) → p < i → IsRing l (ready_list p) [])
    → (p : ℕ) → p < i + left
    → IsRing (init_lists left i l) (ready_list p) []
unfolding init_lists
init_lists-IsRing zero i l done p lt = done p (omega arith)
init_lists-IsRing (suc left) i l done p lt =
    init_lists-IsRing left (i + 1) (DList.init (ready_list i) l)
      (λ s h. elim (Bool-cases (s == i)) [
        | inl e ↦ let e' : s ≡ i = (==_iff s i).0 e in rw e' (init-IsRing l (ready_list i))
        | inr e ↦
            init-other l (ready_list s) (ready_list i) [] (done s (ground arith)) (ground arith)
      ])
      p (omega arith)

-- After `mrtk_schedule_init` all ready queues are empty, whatever the memory held before.
pub schedule_init-QueuesOk : (k : Kernel) → QueuesOk (schedule_init k) (λ p. [])
unfolding schedule_init
schedule_init-QueuesOk k = record {
  ring = λ p h.
      init-other (init_lists prio_levels 0 k.sched) (ready_list p) defunct_list []
        (init_lists-IsRing prio_levels 0 k.sched (λ s z. absurd (omega arith)) p (omega arith))
        (ground arith);
  prio = λ p t h m. absurd (ground arith);
  object = λ p t h m. absurd (ground arith);
  bits = λ p h. test_bit-zero p;
  small = omega arith;
}
