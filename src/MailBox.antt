-- ===== src/MailBox.antt =====
-- Kernel/Src/mrtk_mail_box.c. The address of a mail box stands for the waiting list of its receivers
-- (`suspend_taker`); that of its senders has an address of its own.
-- A call that waits goes round a loop when its task runs again: `send_loop` and `recv_loop` are one
-- round, `send_resume` and `recv_resume` what a call does when its task is woken.
pub mod Fifo
use micro_rt_kernel.Prelude.{
  ℕ, ◌+◌, ◌-◌, ◌/◌, ◌%◌, ◌^◌, Bool, true, false, not, ◌||◌, ◌&&◌, Option, none, some, ◌==◌, ltb,
  if◌then◌else◌, ◌>>=◌,
}
use micro_rt_kernel.DList
use micro_rt_kernel.Kernel.{
  Kernel, Err, eok, einval, edeleted, efull, eempty, e_in_isr, null, update, set_last_error,
}
use micro_rt_kernel.Obj
use micro_rt_kernel.Blocking.{Outcome, returned, blocked, resumed, is_positive, reschedule_if, arm}
use micro_rt_kernel.Ipc.{ipc_obj_init, ipc_obj_delete, suspend_one, resume_one, resume_all}

-- `mrtk_mb_t`; `msg_pool` is the memory that the pointer leads to
pub record Mb : Type 0 where
  pub msg_pool : ℕ → ℕ
  pub max_mail_cnt : ℕ
  pub cur_mail_cnt : ℕ
  pub in_offset : ℕ
  pub out_offset : ℕ
  pub flag : ℕ
  pub is_dynamic : Bool

-- `&mb->suspend_sender`: beyond the 32-bit addresses of the other objects
abbrev pub suspend_sender : ℕ → ℕ
suspend_sender mb = mb + 2 ^ 32

-- `mrtk_mb_init`; a mail takes 4 bytes
unfoldable pub init : ℕ → Bool → (ℕ → ℕ) → ℕ → Bool → ℕ → Mb → Kernel → Err × Mb × Kernel
init mb pooled pool size named flag m k =
    let k1 = ipc_obj_init Obj.mail mb mb k in
    if (mb == null) || not pooled || not named then (einval, m, k) else (
      eok,
      record m {
        msg_pool = pool;
        max_mail_cnt = size / 4 % 2 ^ 16;
        cur_mail_cnt = 0;
        in_offset = 0;
        out_offset = 0;
        is_dynamic = false;
      },
      record k1 { sched = DList.init (suspend_sender mb) k1.sched },
    )

-- What `mrtk_mb_detach` and `mrtk_mb_delete` do to a mail box that they accept.
unfoldable pub dispose : ℕ → ℕ → Kernel → Option (Err × Kernel)
dispose fuel mb k = do
  r ← resume_all fuel (suspend_sender mb) edeleted k
  r' ← ipc_obj_delete fuel mb mb r.1
  some (eok, reschedule_if (r.0 || r'.0) r'.1)

-- `mrtk_mb_detach`, and `mrtk_mb_delete` but for the release of the memory
unfoldable pub detach : ℕ → ℕ → Mb → Kernel → Option (Err × Kernel)
unfolding dispose
detach fuel mb m k = if (mb == null) || m.is_dynamic then some (einval, k) else dispose fuel mb k

unfoldable pub delete : ℕ → ℕ → Mb → Kernel → Option (Err × Kernel)
unfolding dispose
delete fuel mb m k =
    if (mb == null) || not m.is_dynamic then some (einval, k) else dispose fuel mb k

-- A task that waits at `list`: the timer first, then the list.
unfoldable pub wait : ℕ → ℕ → ℕ → ℕ → Kernel → Option Kernel
wait fuel list flag timeout k = do
  let k1 = set_last_error k.current eok k
  k2 ← if is_positive timeout then arm fuel k.current timeout k1 else some k1
  k3 ← suspend_one fuel list flag k.current k2
  some (reschedule_if true k3)

-- A mail goes into the buffer, and one comes out of it.
unfoldable pub put : ℕ → Mb → Mb
put mail m = record m {
  msg_pool = update m.msg_pool m.in_offset mail;
  in_offset = (m.in_offset + 1) % m.max_mail_cnt % 2 ^ 16;
  cur_mail_cnt = (m.cur_mail_cnt + 1) % 2 ^ 16;
}

unfoldable pub get : Mb → ℕ × Mb
get m = (
  m.msg_pool m.out_offset,
  record m {
    out_offset = (m.out_offset + 1) % m.max_mail_cnt % 2 ^ 16;
    cur_mail_cnt = (m.cur_mail_cnt + 2 ^ 16 - 1) % 2 ^ 16;
  },
)

-- The first task that waits at `list`, if there is one, is woken.
unfoldable pub notify : ℕ → Kernel → Kernel
notify list k =
    let r = resume_one list eok k in
    if DList.is_empty list k.sched then k else reschedule_if r.0 r.1

-- One round of the loop of `mrtk_mb_send_wait`, and what follows the loop.
unfoldable pub send_loop : ℕ → ℕ → ℕ → ℕ → Mb → Kernel → Option (Outcome × Mb × Kernel)
unfolding wait put notify
send_loop fuel mb mail timeout m k =
    let sleep : Option (Outcome × Mb × Kernel) = do
      k1 ← wait fuel (suspend_sender mb) m.flag timeout k
      some (blocked, m, k1)
    in if m.max_mail_cnt == m.cur_mail_cnt
      then if timeout == 0 then some (returned efull, m, k) else sleep
      else some (returned eok, put mail m, notify mb k)

-- `mrtk_mb_send_wait`; `mail` is `none` for a null pointer
unfoldable pub send_wait : ℕ → ℕ → Option ℕ → ℕ → Mb → Kernel → Option (Outcome × Mb × Kernel)
unfolding send_loop
send_wait fuel mb none timeout m k = some (returned einval, m, k)
send_wait fuel mb (some mail) timeout m k =
    if mb == null
    then some (returned einval, m, k)
    else if not (timeout == 0) && not (k.interrupt_nest == 0)
    then some (returned e_in_isr, m, k)
    else send_loop fuel mb mail timeout m k

abbrev pub is_eok : Err → Bool
is_eok err = elim err [ eok ↦ true | _ ↦ false ]

-- The sender runs again.
unfoldable pub send_resume : ℕ → ℕ → ℕ → ℕ → Mb → Kernel → Option (Outcome × Mb × Kernel)
unfolding send_loop
send_resume fuel mb mail timeout m k =
    if is_eok (resumed k.current k)
    then send_loop fuel mb mail timeout m k
    else some (returned (resumed k.current k), m, k)

-- One round of the loop of `mrtk_mb_recv`, and what follows the loop: the mail is the third part.
unfoldable pub recv_loop : ℕ → ℕ → ℕ → Mb → Kernel → Option (Outcome × Mb × Option ℕ × Kernel)
unfolding wait get notify
recv_loop fuel mb timeout m k =
    let sleep : Option (Outcome × Mb × Option ℕ × Kernel) = do
      k1 ← wait fuel mb m.flag timeout k
      some (blocked, m, none, k1)
    in let r = get m in
      if m.cur_mail_cnt == 0
      then if timeout == 0 then some (returned eempty, m, none, k) else sleep
      else some (returned eok, r.1, some r.0, notify (suspend_sender mb) k)

-- `mrtk_mb_recv`; `given` says whether `mail` is not null
unfoldable pub recv : ℕ → ℕ → Bool → ℕ → Mb → Kernel → Option (Outcome × Mb × Option ℕ × Kernel)
unfolding recv_loop
recv fuel mb given timeout m k =
    if (mb == null) || not given
    then some (returned einval, m, none, k)
    else if not (timeout == 0) && not (k.interrupt_nest == 0)
    then some (returned e_in_isr, m, none, k)
    else recv_loop fuel mb timeout m k

-- The receiver runs again.
unfoldable pub recv_resume : ℕ → ℕ → ℕ → Mb → Kernel → Option (Outcome × Mb × Option ℕ × Kernel)
unfolding recv_loop
recv_resume fuel mb timeout m k =
    if is_eok (resumed k.current k)
    then recv_loop fuel mb timeout m k
    else some (returned (resumed k.current k), m, none, k)

-- `mrtk_mb_control`; `reset` says whether the command is `MRTK_MB_CMD_RESET`
unfoldable pub control : ℕ → ℕ → Bool → Mb → Kernel → Option (Err × Mb × Kernel)
control fuel mb reset m k =
    let cleared : Option (Err × Mb × Kernel) = do
      r ← resume_all fuel mb edeleted k
      r' ← resume_all fuel (suspend_sender mb) edeleted r.1
      some (
        eok,
        record m { cur_mail_cnt = 0; in_offset = 0; out_offset = 0 },
        reschedule_if (r.0 || r'.0) r'.1,
      )
    in if (mb == null) || not reset then some (einval, m, k) else cleared
