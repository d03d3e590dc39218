-- ===== src/Examples/Messages.antt =====
-- The theorems on message queues at a pool of three blocks for messages of up to 8 bytes.
use mathlib.Core.Path.{subst}
use micro_rt_kernel.Prelude.{
  ℕ, ◌+◌, ◌≡◌, refl, inl, true, false, none, some, [], ◌∷◌, ◌++◌, arith, mem,
}
use micro_rt_kernel.Align.{align_up}
use micro_rt_kernel.Kernel.{eok, error, update}
use micro_rt_kernel.MsgQueue.{
  Mq, init, chain_blocks, reserve, write, link, done, recv, control, reset,
}
use micro_rt_kernel.Ipc.{resume_all}
use micro_rt_kernel.Blocking.{returned}
use micro_rt_kernel.MemPool.Chain.{Chain}
use micro_rt_kernel.MsgQueue.Interleave.{
  State, reserves, writes, links, Run, start, later, QueueOk, sending, linked,
}
use micro_rt_kernel.MsgQueue.Interleave.Safety.{InOrder, Run-InOrder}
use micro_rt_kernel.MsgQueue.Interleave.Steps.{reserves-QueueOk}
use micro_rt_kernel.MsgQueue.Init.{pool_of, idle, init-InOrder, reset-Chain}
use micro_rt_kernel.MsgQueue.Calls.{RecvMade, recv-RecvMade}
use micro_rt_kernel.Examples.{busy}

abbrev raw : Mq
raw = record {
  next = λ b. 0;
  body = λ b i. 0;
  msg_pool = 0;
  max_msg_size = 0;
  max_msg_cnt = 0;
  cur_msg_cnt = 0;
  head_msg = 0;
  tail_msg = 0;
  free_msg = 0;
  flag = 0;
  obj_flag = 0;
  is_dynamic = false;
}

-- The queue at address 800, with the blocks 1000, 1012 and 1024.
abbrev mailbox : Mq
mailbox = (init 800 true 1000 8 36 0 raw busy).1

accepted : (init 800 true 1000 8 36 0 raw busy).0 ≡ eok
unfolding init align_up
accepted = refl

init-InOrder_example : QueueOk (pool_of mailbox) (idle mailbox) [] (pool_of mailbox)
init-InOrder_example = init-InOrder 800 true 1000 8 36 0 raw busy accepted

pool-three : pool_of mailbox ≡ 1000 ∷ 1012 ∷ 1024 ∷ []
unfolding init align_up chain_blocks
pool-three = refl

fresh : QueueOk (pool_of mailbox) (idle mailbox) [] (1000 ∷ 1012 ∷ 1024 ∷ [])
fresh =
    subst (λ l. QueueOk (pool_of mailbox) (idle mailbox) [] l) pool-three
      (init-InOrder 800 true 1000 8 36 0 raw busy accepted)

-- A sender has taken the first block.
abbrev taken : State
taken = record (idle mailbox) {
  queue = reserve mailbox;
  owner = update (idle mailbox).owner mailbox.free_msg sending;
}

free-first : mailbox.free_msg ≡ 1000
unfolding init align_up chain_blocks
free-first = refl

taken-sending : taken.owner 1000 ≡ sending
unfolding init align_up chain_blocks
taken-sending = refl

taken-QueueOk : QueueOk (pool_of mailbox) taken [] (1012 ∷ 1024 ∷ [])
taken-QueueOk = reserves-QueueOk (pool_of mailbox) (idle mailbox) [] (1012 ∷ 1024 ∷ []) 1000 fresh

buffer : ℕ → ℕ
buffer i = i + 7

abbrev written : State
written = record taken { queue = write 2 buffer 1000 taken.queue }

abbrev queued : State
queued = record written {
  queue = link 1000 written.queue;
  owner = update written.owner 1000 linked;
  sent = [] ++ written.queue.body 1000 ∷ [];
}

three_steps : Run (idle mailbox) queued
three_steps =
    later
      (later (later start (reserves (idle mailbox) (λ e. absurd (omega (arith, e, free-first)))))
        (writes taken 2 buffer 1000 taken-sending))
      (links written 1000 taken-sending)

Run-InOrder_example : InOrder (pool_of mailbox) queued
Run-InOrder_example =
    Run-InOrder (pool_of mailbox) (idle mailbox) queued three_steps
      ([], 1000 ∷ 1012 ∷ 1024 ∷ [], fresh)

reset-some :
    control 2 800 (reset false) taken.queue busy ≡ some (eok, none, chain_blocks taken.queue, busy)
unfolding control resume_all
reset-some = refl

reset-Chain_example :
    Chain (chain_blocks taken.queue).next (chain_blocks taken.queue).free_msg (pool_of taken.queue)
    × (mem 1000 (pool_of taken.queue) ≡ true)
unfolding init align_up chain_blocks reserve
reset-Chain_example =
    reset-Chain 2 800 1000 taken none (chain_blocks taken.queue) busy busy [] (1012 ∷ 1024 ∷ [])
      taken-QueueOk (λ e. absurd (omega (arith, e))) (λ e. absurd (omega (arith, e))) taken-sending
      reset-some

refused_empty : recv 2 800 true 2 0 mailbox busy ≡ some (done (returned error), mailbox, busy)
unfolding recv init align_up chain_blocks
refused_empty = refl

recv-RecvMade_example : RecvMade mailbox (done (returned error)) mailbox
recv-RecvMade_example =
    recv-RecvMade 2 800 true 2 0 mailbox mailbox busy busy (done (returned error))
      (inl refused_empty)
