-- ===== src/MsgQueue.antt =====
-- Kernel/Src/mrtk_msg_queue.c. The address of a queue stands for the waiting list of its receivers;
-- that of its senders (`suspend_releaser`) has an address of its own. A message block is the address
-- of its header. A call copies its message with interrupts enabled: what it does before, the copy and
-- what it does after are three steps, and other calls may run between them.
pub mod Link
pub mod Interleave
pub mod Init
pub mod Calls
use micro_rt_kernel.Prelude.{
  ℕ, ◌+◌, ◌-◌, ◌/◌, ◌%◌, ◌^◌, Bool, true, false, not, ◌||◌, ◌&&◌, Option, none, some, ◌==◌, ltb,
  if◌then◌else◌, ◌>>=◌,
}
use micro_rt_kernel.Align.{align_up}
use micro_rt_kernel.DList
use micro_rt_kernel.Kernel.{
  Kernel, Err, eok, error, einval, edeleted, e_in_isr, null, update, task_timer, set_last_error,
}
use micro_rt_kernel.Obj
use micro_rt_kernel.Timer.{set_oneshot, timer_control}
use micro_rt_kernel.Blocking.{Outcome, returned, blocked, resumed, is_positive, reschedule_if, arm}
use micro_rt_kernel.Ipc.{ipc_obj_init, ipc_obj_delete, suspend_one, resume_all}
use micro_rt_kernel.MailBox.{wait, notify, is_eok}
use micro_rt_kernel.MemPool.{link_blocks}

-- `mrtk_mq_t`; `next` and `body` are the headers and the data of the message blocks
pub record Mq : Type 0 where
  pub next : ℕ → ℕ
  pub body : ℕ → ℕ → ℕ
  pub msg_pool : ℕ
  pub max_msg_size : ℕ
  pub max_msg_cnt : ℕ
  pub cur_msg_cnt : ℕ
  pub head_msg : ℕ
  pub tail_msg : ℕ
  pub free_msg : ℕ
  pub flag : ℕ
  pub obj_flag : ℕ
  pub is_dynamic : Bool

-- `&mq->suspend_releaser`: beyond the 32-bit addresses of the other objects
abbrev pub suspend_releaser : ℕ → ℕ
suspend_releaser mq = mq + 2 ^ 32

-- `sizeof(mrtk_mq_msg_header_t)`
abbrev pub msg_header_size : ℕ
msg_header_size = 4

-- The chain of all blocks, in `mrtk_mq_init` and on a reset
unfoldable pub chain_blocks : Mq → Mq
unfolding link_blocks
chain_blocks m = record m {
  cur_msg_cnt = 0;
  head_msg = null;
  tail_msg = null;
  free_msg = m.msg_pool;
  next =
      link_blocks (m.max_msg_cnt - 1) ((msg_header_size + m.max_msg_size) % 2 ^ 32) m.msg_pool
        m.next;
}

-- `mrtk_mq_init`. A block size that wraps to 0 divides by zero in the code; the quotient is 0 here.
unfoldable pub init : ℕ → Bool → ℕ → ℕ → ℕ → ℕ → Mq → Kernel → Err × Mq × Kernel
unfolding align_up chain_blocks
init mq named msg_pool msg_size pool_size flag m k =
    let k1 = ipc_obj_init Obj.queue mq mq k in
    let size = align_up msg_size in
    let count = pool_size / ((msg_header_size + size) % 2 ^ 32) % 2 ^ 16 in
    let m1 = record m {
      obj_flag = flag;
      is_dynamic = false;
      msg_pool = msg_pool;
      max_msg_size = size;
      max_msg_cnt = count;
    } in
    if (mq == null) || not named || (msg_pool == null)
    then (einval, m, k)
    else if count == 0
    then (einval, m1, k1)
    else (eok, chain_blocks m1, record k1 { sched = DList.init (suspend_releaser mq) k1.sched })

-- What `mrtk_mq_detach` and `mrtk_mq_delete` do to a queue that they accept
unfoldable pub dispose : ℕ → ℕ → Kernel → Option (Err × Kernel)
dispose fuel mq k = do
  r ← resume_all fuel (suspend_releaser mq) edeleted k
  r' ← ipc_obj_delete fuel mq mq r.1
  some (eok, reschedule_if (r.0 || r'.0) r'.1)

-- `mrtk_mq_detach`
unfoldable pub detach : ℕ → ℕ → Mq → Kernel → Option (Err × Kernel)
unfolding dispose
detach fuel mq m k = if (mq == null) || m.is_dynamic then some (einval, k) else dispose fuel mq k

-- How far a call has come: it is over or its task sleeps, or it copies its message, of a block that it
-- has taken.
pub data Progress : Type 0 where
  done : Outcome → Progress
  copying : ℕ → Progress

-- A sender takes a free block, writes `size` bytes of its buffer to it, and links it.
unfoldable pub reserve : Mq → Mq
reserve m = record m { free_msg = m.next m.free_msg }

unfoldable pub write : ℕ → (ℕ → ℕ) → ℕ → Mq → Mq
write size buffer msg m = record m {
  body = update m.body msg (λ i. if ltb i size then buffer i else m.body msg i);
}

unfoldable pub link : ℕ → Mq → Mq
link msg m =
    let count = (m.cur_msg_cnt + 1) % 2 ^ 16 in
    let m1 =
      if count == 1
      then record m { head_msg = msg; tail_msg = msg; cur_msg_cnt = count }
      else record m { next = update m.next m.tail_msg msg; tail_msg = msg; cur_msg_cnt = count } in
    record m1 { next = update m1.next msg null }

-- A receiver takes the first message, reads `size` bytes of it into its buffer, and frees the block.
unfoldable pub take : Mq → Mq
take m = record m {
  cur_msg_cnt = (m.cur_msg_cnt + 2 ^ 16 - 1) % 2 ^ 16;
  head_msg = m.next m.head_msg;
}

unfoldable pub read : ℕ → ℕ → Mq → (ℕ → ℕ) → ℕ → ℕ
read size msg m buffer i = if ltb i size then m.body msg i else buffer i

unfoldable pub give : ℕ → Mq → Mq
give msg m = record m {
  next = update m.next msg m.free_msg;
  free_msg = msg;
  tail_msg = if m.head_msg == null then null else m.tail_msg;
}

-- A sender sleeps: its timer is set to run once, which a receiver leaves out.
unfoldable pub wait_once : ℕ → ℕ → ℕ → ℕ → Kernel → Option Kernel
wait_once fuel list flag timeout k = do
  let k1 = set_last_error k.current eok k
  let timed : Option Kernel = do
    r ← timer_control fuel (task_timer k.current) set_oneshot k1
    arm fuel k.current timeout r.1
  k2 ← if is_positive timeout then timed else some k1
  k3 ← suspend_one fuel list flag k.current k2
  some (reschedule_if true k3)

-- One round of the loop of `mrtk_mq_send_wait`, up to the copy
unfoldable pub send_loop : ℕ → ℕ → ℕ → Mq → Kernel → Option (Progress × Mq × Kernel)
unfolding wait_once reserve
send_loop fuel mq timeout m k =
    let sleep : Option (Progress × Mq × Kernel) = do
      k1 ← wait_once fuel (suspend_releaser mq) m.obj_flag timeout k
      some (done blocked, m, k1)
    in if m.free_msg == null
      then if timeout == 0 then some (done (returned error), m, k) else sleep
      else some (copying m.free_msg, reserve m, k)

-- `mrtk_mq_send_wait` up to the copy, and a sender that runs again
unfoldable pub send_wait : ℕ → ℕ → Bool → ℕ → ℕ → Mq → Kernel → Option (Progress × Mq × Kernel)
unfolding send_loop
send_wait fuel mq given size timeout m k =
    if (mq == null) || not given
    then some (done (returned einval), m, k)
    else if ltb m.max_msg_size size
    then some (done (returned error), m, k)
    else send_loop fuel mq timeout m k

unfoldable pub send_resume : ℕ → ℕ → ℕ → Mq → Kernel → Option (Progress × Mq × Kernel)
unfolding send_loop
send_resume fuel mq timeout m k =
    if is_eok (resumed k.current k)
    then send_loop fuel mq timeout m k
    else some (done (returned error), m, k)

-- `mrtk_mq_send_wait` after the copy
unfoldable pub send_end : ℕ → ℕ → Mq → Kernel → Err × Mq × Kernel
unfolding link
send_end mq msg m k = (eok, link msg m, notify mq k)

-- One round of the loop of `mrtk_mq_recv`, up to the copy
unfoldable pub recv_loop : ℕ → ℕ → ℕ → Mq → Kernel → Option (Progress × Mq × Kernel)
unfolding take
recv_loop fuel mq timeout m k =
    let sleep : Option (Progress × Mq × Kernel) = do
      k1 ← wait fuel mq m.flag timeout k
      some (done blocked, m, k1)
    in if m.cur_msg_cnt == 0
      then if timeout == 0 then some (done (returned error), m, k) else sleep
      else some (copying m.head_msg, take m, k)

-- `mrtk_mq_recv` up to the copy, and a receiver that runs again
unfoldable pub recv : ℕ → ℕ → Bool → ℕ → ℕ → Mq → Kernel → Option (Progress × Mq × Kernel)
unfolding recv_loop
recv fuel mq given size timeout m k =
    if (mq == null) || not given
    then some (done (returned einval), m, k)
    else if ltb m.max_msg_size size
    then some (done (returned error), m, k)
    else if not (timeout == 0) && not (k.interrupt_nest == 0)
    then some (done (returned e_in_isr), m, k)
    else recv_loop fuel mq timeout m k

unfoldable pub recv_resume : ℕ → ℕ → ℕ → Mq → Kernel → Option (Progress × Mq × Kernel)
unfolding recv_loop
recv_resume fuel mq timeout m k =
    if is_eok (resumed k.current k)
    then recv_loop fuel mq timeout m k
    else some (done (returned (resumed k.current k)), m, k)

-- `mrtk_mq_recv` after the copy
unfoldable pub recv_end : ℕ → ℕ → Mq → Kernel → Err × Mq × Kernel
unfolding give
recv_end mq msg m k = (eok, give msg m, notify (suspend_releaser mq) k)

-- `mrtk_mq_cmd_t`, with whether `arg` is not null
pub data MqCmd : Type 0 where
  reset get_cur_msg_cnt get_max_msg_cnt : Bool → MqCmd
  other : MqCmd

-- `mrtk_mq_control`; beside the error, the number that is written through `arg`
unfoldable pub control : ℕ → ℕ → MqCmd → Mq → Kernel → Option (Err × Option ℕ × Mq × Kernel)
unfolding chain_blocks
control fuel mq cmd m k =
    let refused : Option (Err × Option ℕ × Mq × Kernel) = some (einval, none, m, k) in
    let done : Option (Err × Option ℕ × Mq × Kernel) = elim cmd [
      | reset false ↦ do
        r ← resume_all fuel (suspend_releaser mq) eok k
        some (eok, none, chain_blocks m, reschedule_if r.0 r.1)
      | get_cur_msg_cnt true ↦ some (eok, some m.cur_msg_cnt, m, k)
      | get_max_msg_cnt true ↦ some (eok, some m.max_msg_cnt, m, k)
      | other_cmd ↦ refused
    ] in
    if mq == null then refused else done
