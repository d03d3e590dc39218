-- ===== src/Sched/Select.antt =====
-- The task that the scheduler selects, and when `mrtk_schedule` asks for a switch.
use mathlib.Core.Path.{subst}
use micro_rt_kernel.Prelude.{
  ℕ, ◌<◌, ◌≡◌, refl, ap, ◌∙◌, ◌≢◌, inl, inr, true, false, List, [], ◌∷◌, arith, ltb, Bool-cases,
}
use micro_rt_kernel.Prelude.Bits.{test_bit, test_bit-zero}
use micro_rt_kernel.DList.Ring.{IsRing, next-cons}
use micro_rt_kernel.Kernel.{Kernel, ready_list, prio_levels}
use micro_rt_kernel.Sched.{get_highest_prio, select}
use micro_rt_kernel.Sched.Lowest.{get_highest_prio-IsLowest}
use micro_rt_kernel.Sched.Queues.{QueuesOk, nonempty}

nonempty_of_cons : (t : ℕ) (ts xs : List ℕ) → xs ≡ t ∷ ts → nonempty xs ≡ true
nonempty_of_cons t ts xs e = rw e refl

empty_of_not : (xs : List ℕ) → nonempty xs ≡ false → xs ≡ []
empty_of_not [] e = refl
empty_of_not (x ∷ xs) e = absurd (ground arith)

module _ (k : Kernel) (rq : ℕ → List ℕ) (q : QueuesOk k rq) where
  highest :
      (p t : ℕ) (ts : List ℕ)
      → p < prio_levels
      → rq p ≡ t ∷ ts
      → ((m : ℕ) → m < p → rq m ≡ [])
      → get_highest_prio k.ready_prio_bitmap ≡ p
  highest p t ts bound here above =
      let bit : test_bit k.ready_prio_bitmap p ≡ true =
        q.bits p bound ∙ nonempty_of_cons t ts (rq p) here in
      let some_bit : k.ready_prio_bitmap ≢ 0 =
        λ e. absurd (ground (arith, test_bit-zero p, ap (λ b. test_bit b p) e)) in
      let r = get_highest_prio k.ready_prio_bitmap in
      let lowest = get_highest_prio-IsLowest k.ready_prio_bitmap some_bit q.small in
      elim (Bool-cases (ltb r p)) [
        | inl e ↦
            let lt : r < p = ground arith in
            absurd (ground (arith, lowest.here, q.bits r (omega arith), ap nonempty (above r lt)))
        | inr e ↦ ground (arith, lowest.below p)
      ]

  -- If the most urgent level that has a task is `p`, the scheduler selects the first task of `p`.
  pub select-head :
      (p t : ℕ) (ts : List ℕ)
      → p < prio_levels
      → rq p ≡ t ∷ ts
      → ((m : ℕ) → m < p → rq m ≡ [])
      → select k ≡ t
  unfolding select
  select-head p t ts bound here above =
      ap (λ r. k.sched.next (ready_list r)) (highest p t ts bound here above)
      ∙ next-cons k.sched (ready_list p) t ts
          (subst (λ xs. IsRing k.sched (ready_list p) xs) here (q.ring p bound))
