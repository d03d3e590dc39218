-- ===== src/Sem/Tokens.antt =====
-- The resources of a semaphore: `value` counts the free ones, and nobody waits while there are any.
use micro_rt_kernel.Prelude.{
  ℕ, ◌+◌, ◌≤◌, ◌≡◌, refl, ◌≢◌, ◌⊎◌, ap, List, [], ◌∷◌, arith, ==_of_ne, ◌∙◌,
}
use micro_rt_kernel.DList.Ring.{is_empty-nil, is_empty-cons}
use micro_rt_kernel.Kernel.{Kernel, Tcb, ready, eok, efull, null}
use micro_rt_kernel.Sched.Queues.{QueuesOk, enqueued}
use micro_rt_kernel.Sem.{Sem, max_value, release}
use micro_rt_kernel.Blocking.Reschedule.{reschedule-tcb, reschedule-QueuesOk, reschedule-WaitOk}
use micro_rt_kernel.Ipc.{resume_one}
use micro_rt_kernel.Ipc.Wait.{WaitOk}
use micro_rt_kernel.Ipc.ResumeAll.{resume_one-Resumed}

-- The invariant of a semaphore with the waiting tasks `ws`.
pub record IsValid (s : Sem) (ws : List ℕ) : Type 0 where
  pub bounded : s.value ≤ max_value
  pub idle : ws ≢ [] → s.value ≡ 0

module _ (sem : ℕ) (s : Sem) (k : Kernel) (rq : ℕ → List ℕ) (ne : sem ≢ null)
    (q : QueuesOk k rq) where
  -- Nobody waits: a release counts one resource more, or says that the count is at its maximum.
  -- Nothing else changes, and the invariant is kept.
  pub release-free :
      WaitOk k rq sem []
      → IsValid s []
      → let r = release sem s k in
        (r.2 ≡ k)
        × IsValid r.1 []
        × (((r.0 ≡ eok) × (r.1.value ≡ s.value + 1))
            ⊎ ((r.0 ≡ efull) × (s.value ≡ max_value) × (r.1 ≡ s)))
  unfolding release
  release-free w v =
      let empty = is_empty-nil k.sched sem w.ring in ground (arith, v.bounded, v.idle)

  -- Somebody waits: a release gives the resource to the first waiting task without counting it.
  -- That task becomes ready at the end of the queue of its priority, with the result of its own
  -- call set to success, and the others go on waiting.
  pub release-handover :
      (t : ℕ) (ts : List ℕ)
      → WaitOk k rq sem (t ∷ ts)
      → let r = release sem s k in
        (r.0 ≡ eok)
        × (r.1 ≡ s)
        × QueuesOk r.2 (enqueued k t rq)
        × WaitOk r.2 (enqueued k t rq) sem ts
        × ((r.2.tcb t).state ≡ ready)
        × ((r.2.tcb t).last_error ≡ eok)
  unfolding release
  release-handover t ts w =
      let r = resume_one sem eok k in
      let (queues, waiting, state, err) = resume_one-Resumed sem eok k rq q t ts w in
      rw (==_of_ne sem 0 ne, is_empty-cons k.sched sem t ts w.ring)
        (
          refl,
          refl,
          reschedule-QueuesOk r.1 r.0 (enqueued k t rq) queues,
          reschedule-WaitOk r.1 r.0 (enqueued k t rq) sem ts waiting,
          ap (λ (c : Tcb). c.state) (reschedule-tcb r.1 r.0 t) ∙ state,
          ap (λ (c : Tcb). c.last_error) (reschedule-tcb r.1 r.0 t) ∙ err,
        )
