-- ===== src/Machine/Turns.antt =====
-- The yield of the running task and the end of its slice keep the machine in order.
use mathlib.Core.Path.{fun_ext}
use micro_rt_kernel.Prelude.{
  ℕ, ◌<◌, ◌≡◌, ◌≢◌, refl, sym, ap, ◌∙◌, inl, inr, true, false, List, [], ◌∷◌, ◌++◌, arith, ◌==◌,
  ltb, Bool-cases, ==_iff, mem-append,
}
use micro_rt_kernel.DList
use micro_rt_kernel.DList.Ring.{IsRing}
use micro_rt_kernel.Kernel.{Kernel, null, set_tcb, ready_list, prio_levels, update}
use micro_rt_kernel.Sched.{round_robin, slice_end}
use micro_rt_kernel.Machine.Lists.{ListsOk-congr}
use micro_rt_kernel.Sched.Change.{own-IsRing}
use micro_rt_kernel.Blocking.{reschedule_if}
use micro_rt_kernel.Blocking.Reschedule.{reschedule-tcb}
use micro_rt_kernel.Task.{is_runnable, yield}
use micro_rt_kernel.Machine.{Machine, IsOk}
use micro_rt_kernel.Machine.Moves.{reschedule-ListsOk, rotated-ListsOk}

module _ (m : Machine) (ok : IsOk m)
    (level : (m.kernel.tcb m.kernel.current).priority < prio_levels) where
  abbrev here : ℕ
  here = (m.kernel.tcb m.kernel.current).priority

  abbrev behind : List ℕ → ℕ → List ℕ
  behind rs = update m.ready here (rs ++ m.kernel.current ∷ [])

  alone_behind : m.ready here ≡ m.kernel.current ∷ [] → behind [] ≡ m.ready
  alone_behind front = fun_ext λ p. elim (Bool-cases (p == here)) [
    | inl e ↦ let e' : p ≡ here = (==_iff _ _).0 e in rw e (sym (ap m.ready e' ∙ front))
    | inr e ↦ rw e refl
  ]

  pub yields-IsOk :
      (rs : List ℕ)
      → m.kernel.interrupt_nest ≡ 0
      → m.ready here ≡ m.kernel.current ∷ rs
      → IsOk (record m { kernel = (yield m.kernel).1; ready = behind rs })
  unfolding yield
  yields-IsOk [] calm front =
      let t : ℕ = m.kernel.current in
      let head : ℕ = ready_list here in
      let ring : IsRing m.kernel.sched head (t ∷ []) =
        rw front at (ok.lists.queues.ring here level) in
      let alone : (m.kernel.sched.next (m.kernel.sched.next head) == head) ≡ true =
        ground (arith, ring.links) in
      let outside : ltb 0 m.kernel.interrupt_nest ≡ false = ground arith in
      rw (outside, alone) (rw (alone_behind front) ok)
  yields-IsOk (r ∷ rs) calm front =
      let t : ℕ = m.kernel.current in
      let head : ℕ = ready_list here in
      let ring = own-IsRing m.kernel m.ready ok.lists.queues t r rs level front in
      let more : (m.kernel.sched.next (m.kernel.sched.next head) == head) ≡ false =
        ground (arith, ring.links, ring.fresh) in
      let outside : ltb 0 m.kernel.interrupt_nest ≡ false = ground arith in
      let k1 : Kernel =
        let k = m.kernel in
        record k { sched = DList.insert_before head t (DList.remove t k.sched) } in
      let g : Kernel = reschedule_if true k1 in
      let lists = rotated-ListsOk m.objs m.kernel m.ready m.waiting ok.lists t r rs level front in
      rw (outside, more)
        (record {
          lists = reschedule-ListsOk m.objs k1 (behind (r ∷ rs)) m.waiting lists true;
          states = record {
            runs = λ p s h i.
                ap (λ c. is_runnable c.state) (reschedule-tcb k1 true s)
                ∙ ground (arith, ok.states.runs p s h, front, mem-append s (r ∷ rs) (t ∷ []));
            sleeps =
                λ o s n i. ap (λ c. c.state) (reschedule-tcb k1 true s) ∙ ok.states.sleeps o s n i;
          };
          sems = ok.sems;
        })

  -- The end of a slice gives the task a new one, and puts it behind the others.
  abbrev sliced : Kernel
  sliced =
      let t = m.kernel.current in
      set_tcb t (record (m.kernel.tcb t) { remain_tick = (m.kernel.tcb t).init_tick }) m.kernel

  sliced-state : (s : ℕ) → (sliced.tcb s).state ≡ (m.kernel.tcb s).state
  sliced-state s = ground arith

  sliced-priority : (s : ℕ) → (sliced.tcb s).priority ≡ (m.kernel.tcb s).priority
  sliced-priority s = ground arith

  pub slices-IsOk :
      (rs : List ℕ)
      → m.ready here ≡ m.kernel.current ∷ rs
      → m.kernel.current ≢ null
      → (m.kernel.tcb m.kernel.current).remain_tick ≡ 1
      → IsOk (record m { kernel = round_robin m.kernel; ready = behind rs })
  unfolding round_robin slice_end
  slices-IsOk [] front real last =
      let ring : IsRing m.kernel.sched (ready_list here) (m.kernel.current ∷ []) =
        rw front at (ok.lists.queues.ring here level) in
      let alone : (m.kernel.sched.next (m.kernel.sched.next (ready_list here)) == ready_list here)
          ≡ true =
        ground (arith, ring.links) in
      let some_task : (m.kernel.current == null) ≡ false = ground arith in
      rw (some_task, last, alone)
        (rw (alone_behind front) (record {
          lists =
              ListsOk-congr m.objs m.kernel sliced m.ready m.waiting refl sliced-priority refl
                ok.lists;
          states = record {
            runs = λ p s h i. ap is_runnable (sliced-state s) ∙ ok.states.runs p s h i;
            sleeps = λ o s n i. sliced-state s ∙ ok.states.sleeps o s n i;
          };
          sems = ok.sems;
        }))
  slices-IsOk (r ∷ rs) front real last =
      let t : ℕ = m.kernel.current in
      let head : ℕ = ready_list here in
      let ring = own-IsRing m.kernel m.ready ok.lists.queues t r rs level front in
      let more : (m.kernel.sched.next (m.kernel.sched.next head) == head) ≡ false =
        ground (arith, ring.links, ring.fresh) in
      let some_task : (t == null) ≡ false = ground arith in
      let k1 : Kernel =
        let k = m.kernel in
        record k { sched = DList.insert_before head t (DList.remove t k.sched) } in
      let g : Kernel = record k1 { tcb = sliced.tcb; need_schedule = true } in
      let lists = rotated-ListsOk m.objs m.kernel m.ready m.waiting ok.lists t r rs level front in
      rw (some_task, last, more)
        (record {
          lists =
              ListsOk-congr m.objs k1 g (behind (r ∷ rs)) m.waiting refl sliced-priority refl lists;
          states = record {
            runs = λ p s h i.
                ap is_runnable (sliced-state s)
                ∙ ground (arith, ok.states.runs p s h, front, mem-append s (r ∷ rs) (t ∷ []));
            sleeps = λ o s n i. sliced-state s ∙ ok.states.sleeps o s n i;
          };
          sems = ok.sems;
        })
