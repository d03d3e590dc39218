-- ===== src/Event/Deliver.antt =====
-- `mrtk_event_send`: which tasks it wakes, what it stores for them and which events are left.
use micro_rt_kernel.Prelude.{
  ℕ, ◌<◌, ◌≡◌, refl, ◌≢◌, ap, ◌∙◌, true, false, not, some, List, [], ◌==◌, if◌then◌else◌, ==_of_ne,
  length, mem, bit_or,
}
use micro_rt_kernel.Kernel.{Kernel, Tcb, eok, null}
use micro_rt_kernel.Sched.Queues.{QueuesOk}
use micro_rt_kernel.Blocking.{reschedule_if}
use micro_rt_kernel.Blocking.Reschedule.{reschedule-tcb, reschedule-QueuesOk, reschedule-WaitOk}
use micro_rt_kernel.Ipc.Wait.{WaitOk}
use micro_rt_kernel.Ipc.Wake.{refilled}
use micro_rt_kernel.Ipc.ResumeAll.{next_head}
use micro_rt_kernel.Event.{Event, Sent, send, without}
use micro_rt_kernel.Event.Send.{chosen, fulfilled, delivered, to_clear, Agrees, send_loop-Served}

-- The events that are set after a send: those before it and those sent, less those that the woken
-- tasks clear.
abbrev pub left_set : ℕ → ℕ → ℕ
left_set total mask = if mask == 0 then total else without total mask

module _ (fuel event set : ℕ) (e : Event) (cells : ℕ → ℕ) (k : Kernel) (rq : ℕ → List ℕ)
    (ws : List ℕ) where
  abbrev pub total : ℕ
  total = bit_or e.set set

  -- The tasks that a send wakes, and those that wait on.
  abbrev pub met : List ℕ
  met = chosen (fulfilled k.tcb total) ws

  abbrev pub unmet : List ℕ
  unmet = chosen (λ t. not (fulfilled k.tcb total t)) ws

  -- A send of at least one event, with more fuel than tasks wait, succeeds. Of the waiting tasks it
  -- wakes exactly those whose condition holds for the events set before it or by it: they stand in
  -- order at the ends of their queues, with the result `MRTK_EOK`, and the others wait on in order.
  -- For each woken task in turn the events of its mask are stored where it asked for them. Only
  -- after all of them have been served are the events cleared that woken tasks clear.
  pub send-Served :
      QueuesOk k rq
      → WaitOk k rq event ws
      → event ≢ null
      → set ≢ 0
      → length ws < fuel
      → (k' : Kernel) × (send fuel event set e cells k
          ≡ some (
            eok,
            record e { set = left_set total (to_clear k.tcb met 0) },
            delivered k.tcb total met cells,
            k',
          ))
        × QueuesOk k' (refilled (λ t. (k.tcb t).priority) rq met)
        × WaitOk k' (refilled (λ t. (k.tcb t).priority) rq met) event unmet
        × ((t : ℕ) → mem t met ≡ true → (k'.tcb t).last_error ≡ eok)
        × ((t : ℕ) → mem t met ≡ false → k'.tcb t ≡ k.tcb t)
  unfolding send
  send-Served q w ne some_event lt =
      let start : Sent = record {
        kernel = k;
        cells = cells;
        clear_mask = 0;
        need_schedule = false;
      } in
      let same : Agrees event total k.tcb k = record {
        priority = λ t. refl;
        mask = λ t. refl;
        option = λ t. refl;
        recved = λ t. refl;
      } in
      let (r, found, h) = send_loop-Served event total k.tcb fuel start rq [] ws same q w lt in
      let k' : Kernel = reschedule_if r.need_schedule r.kernel in
      (
        k',
        rw
            (
              ==_of_ne event 0 ne,
              ==_of_ne set 0 some_event,
              next_head k.sched event ws w.ring,
              found,
              h.cells,
              h.clear,
            )
            refl,
        reschedule-QueuesOk r.kernel r.need_schedule (refilled _ rq met) h.queues,
        reschedule-WaitOk r.kernel r.need_schedule (refilled _ rq met) event unmet h.waiting,
        λ t m.
            ap (λ (c : Tcb). c.last_error) (reschedule-tcb r.kernel r.need_schedule t)
            ∙ h.woken t m,
        λ t m. reschedule-tcb r.kernel r.need_schedule t ∙ h.others t m,
      )
