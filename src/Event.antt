-- ===== src/Event.antt =====
-- Kernel/Src/mrtk_event.c. `cells` is the memory of the callers, where `recved` points.
pub mod Bits
pub mod Send
pub mod Deliver
use micro_rt_kernel.Prelude.{
  ℕ, zero, suc, ◌+◌, ◌-◌, ◌^◌, Bool, true, false, not, ◌||◌, ◌&&◌, Option, none, some, ◌==◌,
  bit_and, bit_or, if◌then◌else◌, ◌>>=◌,
}
use micro_rt_kernel.DList
use micro_rt_kernel.Kernel.{
  Kernel, Err, eok, einval, eempty, e_in_isr, null, update, set_tcb, set_last_error,
}
use micro_rt_kernel.Obj
use micro_rt_kernel.Sched.{schedule, insert_task}
use micro_rt_kernel.Timer.{waiting_forever}
use micro_rt_kernel.Blocking.{Outcome, returned, blocked, reschedule_if, arm}
use micro_rt_kernel.Ipc.{ipc_obj_init, ipc_obj_delete, suspend_one}

-- `mrtk_event_t`: the set of events, with `ipc_obj.flag` and the way of allocation
pub record Event : Type 0 where
  pub set : ℕ
  pub flag : ℕ
  pub is_dynamic : Bool

abbrev pub flag_and : ℕ
flag_and = 0x01

abbrev pub flag_or : ℕ
flag_or = 0x02

abbrev pub flag_clear : ℕ
flag_clear = 0x04

abbrev pub has : ℕ → ℕ → Bool
has option flag = not (bit_and option flag == 0)

-- `s & ~mask` on 32 bits
abbrev pub without : ℕ → ℕ → ℕ
without s mask = bit_and s (2 ^ 32 - 1 - mask)

-- `_mrtk_event_check_condition`
unfoldable pub check_condition : ℕ → ℕ → ℕ → Bool
check_condition current_set wait_mask option =
    if has option flag_and
    then bit_and current_set wait_mask == wait_mask
    else not (bit_and current_set wait_mask == 0)

-- `mrtk_event_init`
unfoldable pub init : ℕ → Bool → ℕ → Event → Kernel → Err × Event × Kernel
init event named flag e k =
    if (event == null) || not named
    then (einval, e, k)
    else (eok, record e { set = 0; is_dynamic = false }, ipc_obj_init Obj.event event event k)

unfoldable pub dispose : ℕ → ℕ → Kernel → Option (Err × Kernel)
dispose fuel event k = do r ← ipc_obj_delete fuel event event k; some (eok, reschedule_if r.0 r.1)

-- `mrtk_event_detach`, and `mrtk_event_delete` but for the release of the memory
unfoldable pub detach : ℕ → ℕ → Event → Kernel → Option (Err × Kernel)
unfolding dispose
detach fuel event e k =
    if (event == null) || e.is_dynamic then some (einval, k) else dispose fuel event k

unfoldable pub delete : ℕ → ℕ → Event → Kernel → Option (Err × Kernel)
unfolding dispose
delete fuel event e k =
    if (event == null) || not e.is_dynamic then some (einval, k) else dispose fuel event k

-- What `mrtk_event_send` changes while it walks along the waiting tasks.
pub record Sent : Type 0 where
  pub kernel : Kernel
  pub cells : ℕ → ℕ
  pub clear_mask : ℕ
  pub need_schedule : Bool

-- The body of its loop for a task whose condition holds.
unfoldable pub satisfy : ℕ → ℕ → Sent → Sent
satisfy set task s =
    let c = s.kernel.tcb task in
    let k1 = s.kernel in
    let k2 = record k1 { sched = DList.remove task k1.sched } in
    record {
      kernel = set_last_error task eok (insert_task task k2);
      cells =
          if c.event_recved == null
          then s.cells
          else update s.cells c.event_recved (bit_and set c.event_set);
      clear_mask =
          if has c.event_option flag_clear then bit_or s.clear_mask c.event_set else s.clear_mask;
      need_schedule = true;
    }

-- The loop: `next` is read before the body runs.
unfoldable pub send_loop : ℕ → ℕ → ℕ → ℕ → ℕ → Sent → Option Sent
unfolding satisfy check_condition
send_loop zero event set task next s = none
send_loop (suc fuel) event set task next s =
    let c = s.kernel.tcb task in
    let s1 = if check_condition set c.event_set c.event_option then satisfy set task s else s in
    let rest = send_loop fuel event set next (s1.kernel.sched.next next) s1 in
    if task == event then some s else rest

-- `mrtk_event_send`
unfoldable pub send : ℕ → ℕ → ℕ → Event → (ℕ → ℕ) → Kernel → Option (Err × Event × (ℕ → ℕ) × Kernel)
unfolding send_loop
send fuel event set e cells k =
    let total = bit_or e.set set in
    let task = k.sched.next event in
    let start : Sent = record {
      kernel = k;
      cells = cells;
      clear_mask = 0;
      need_schedule = false;
    } in
    let sent : Option (Err × Event × (ℕ → ℕ) × Kernel) = do
      s ← send_loop fuel event total task (k.sched.next task) start
      some (
        eok,
        record e { set = if s.clear_mask == 0 then total else without total s.clear_mask },
        s.cells,
        reschedule_if s.need_schedule s.kernel,
      )
    in if (event == null) || set == 0 then some (einval, e, cells, k) else sent

-- The last part of `mrtk_event_recv`: the caller waits.
unfoldable pub wait : ℕ → ℕ → ℕ → ℕ → ℕ → ℕ → ℕ → Kernel → Option Kernel
wait fuel event flag mask option timeout recved k = do
  let task = k.current
  let c = record (k.tcb task) { event_set = mask; event_option = option; event_recved = recved }
  k1 ← suspend_one fuel event flag task (set_tcb task c k)
  k2 ← if timeout == waiting_forever then some k1 else arm fuel task timeout k1
  some (schedule k2)

-- `mrtk_event_recv`
unfoldable pub recv :
    ℕ → ℕ → ℕ → ℕ → ℕ → ℕ → Event → (ℕ → ℕ) → Kernel → Option (Outcome × Event × (ℕ → ℕ) × Kernel)
unfolding wait check_condition
recv fuel event mask option timeout recved e cells k =
    let sleep : Option (Outcome × Event × (ℕ → ℕ) × Kernel) = do
      k1 ← wait fuel event e.flag mask option timeout recved k
      some (blocked, e, cells, k1)
    in if (event == null) || mask == 0 || recved == null
      then some (returned einval, e, cells, k)
      else if has option flag_and && has option flag_or
      then some (returned einval, e, cells, k)
      else if not (timeout == 0) && not (k.interrupt_nest == 0)
      then some (returned e_in_isr, e, cells, k)
      else if check_condition e.set mask option
      then some (
        returned eok,
        record e { set = if has option flag_clear then without e.set mask else e.set },
        update cells recved (bit_and e.set mask),
        k,
      )
      else if timeout == 0
      then some (returned eempty, e, cells, k)
      else sleep

-- `mrtk_event_control`; `clear` says whether the command is `MRTK_EVENT_CMD_CLEAR`
unfoldable pub control : ℕ → Bool → Event → Err × Event
control event clear e =
    if (event == null) || not clear then (einval, e) else (eok, record e { set = 0 })
