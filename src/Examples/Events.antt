-- ===== src/Examples/Events.antt =====
-- The theorem on sending events, on a state in which a task waits for one of two events.
use micro_rt_kernel.Prelude.{ℕ, ◌≡◌, refl, true, false, some, [], ◌∷◌, arith, bit_or, mem}
use micro_rt_kernel.Kernel.{Kernel, eok, set_tcb}
use micro_rt_kernel.Sched.Queues.{QueuesOk}
use micro_rt_kernel.Ipc.Wait.{WaitOk, QueuesOk-congr, WaitOk-congr}
use micro_rt_kernel.Ipc.Wake.{refilled}
use micro_rt_kernel.Event.{Event, send, check_condition}
use micro_rt_kernel.Event.Send.{delivered, to_clear}
use micro_rt_kernel.Event.Deliver.{left_set, met, unmet, send-Served}
use micro_rt_kernel.Examples.{busy, queues, busy-QueuesOk, busy-WaitOk}

-- Task 104 waits for event 0 or 1, and clears them.
abbrev listening : Kernel
listening =
    set_tcb 104 (record (busy.tcb 104) { event_set = 3; event_option = 6; event_recved = 900 }) busy

abbrev event : Event
event = record { set = 4; flag = 0; is_dynamic = false }

abbrev no_cells : ℕ → ℕ
no_cells a = 0

met_104 : met 3 200 1 event no_cells listening queues (104 ∷ []) ≡ 104 ∷ []
unfolding check_condition
met_104 = refl

same_priority : (t : ℕ) → (listening.tcb t).priority ≡ (busy.tcb t).priority
same_priority t = ground arith

send-Served_example :
    (k' : Kernel) × (send 3 200 1 event no_cells listening
      ≡ some (
        eok,
        record event {
          set =
              left_set
                (bit_or 4 1)
                (to_clear listening.tcb (met 3 200 1 event no_cells listening queues (104 ∷ [])) 0);
        },
        delivered listening.tcb
            (bit_or 4 1)
            (met 3 200 1 event no_cells listening queues (104 ∷ []))
            no_cells,
        k',
      ))
    × QueuesOk k' (
        refilled
          (λ t. (listening.tcb t).priority)
          queues
          (met 3 200 1 event no_cells listening queues (104 ∷ [])))
    × WaitOk k'
        (refilled
          (λ t. (listening.tcb t).priority)
          queues
          (met 3 200 1 event no_cells listening queues (104 ∷ [])))
        200
        (unmet 3 200 1 event no_cells listening queues (104 ∷ []))
    × ((t : ℕ)
        → mem t (met 3 200 1 event no_cells listening queues (104 ∷ [])) ≡ true
        → (k'.tcb t).last_error ≡ eok)
    × ((t : ℕ)
        → mem t (met 3 200 1 event no_cells listening queues (104 ∷ [])) ≡ false
        → k'.tcb t ≡ listening.tcb t)
send-Served_example =
    send-Served 3 200 1 event no_cells listening queues (104 ∷ [])
      (QueuesOk-congr busy listening queues refl same_priority refl busy-QueuesOk)
      (WaitOk-congr busy listening queues 200 (104 ∷ []) refl same_priority busy-WaitOk)
      (λ e. absurd (omega arith)) (λ e. absurd (omega arith)) (omega arith)
