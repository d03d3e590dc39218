-- ===== src/MsgQueue/Interleave/Safety.antt =====
-- Whatever the order of the steps of senders and receivers, messages come out as they went in.
use micro_rt_kernel.Prelude.{ℕ, List, [], ◌∷◌, ◌++◌}
use micro_rt_kernel.MsgQueue.Interleave.{
  State, Step, reserves, writes, links, takes, gives, Run, start, later, QueueOk,
}
use micro_rt_kernel.MsgQueue.Interleave.Steps.{
  reserves-QueueOk, writes-QueueOk, takes-QueueOk, gives-QueueOk,
}
use micro_rt_kernel.MsgQueue.Interleave.Append.{links-QueueOk}

-- The queue is in order, with some blocks linked and some free.
abbrev pub InOrder : List ℕ → State → Type 0
InOrder pool s = (ls : List ℕ) × (fs : List ℕ) × QueueOk pool s ls fs

Step-InOrder : (pool : List ℕ) (s t : State) → Step s t → InOrder pool s → InOrder pool t
Step-InOrder pool s t (reserves s' ne) (ls, [], ok) = absurd (ne ok.vacant_chain)
Step-InOrder pool s t (reserves s' ne) (ls, b ∷ fs, ok) =
    (ls, fs, reserves-QueueOk pool s' ls fs b ok)
Step-InOrder pool s t (writes s' size buffer msg own) (ls, fs, ok) =
    (ls, fs, writes-QueueOk pool s' ls fs size buffer msg ok own)
Step-InOrder pool s t (links s' msg own) (ls, fs, ok) =
    (ls ++ msg ∷ [], fs, links-QueueOk pool s' ls fs msg ok own)
Step-InOrder pool s t (takes s' ne) ([], fs, ok) = absurd (ne ok.count)
Step-InOrder pool s t (takes s' ne) (b ∷ ls, fs, ok) = (ls, fs, takes-QueueOk pool s' ls fs b ok)
Step-InOrder pool s t (gives s' msg message own) (ls, fs, ok) =
    (ls, msg ∷ fs, gives-QueueOk pool s' ls fs msg message ok own)

-- From a queue in order, after any interleaving of the steps of senders and receivers: the queue is
-- in order, that is, the free blocks and the linked ones form two chains without repetition, apart
-- from each other and from the blocks that calls hold, the count is that of the linked blocks, and
-- the messages sent are, in order, those taken followed by those still linked; no message changes
-- under a receiver that copies it.
pub Run-InOrder : (pool : List ℕ) (s t : State) → Run s t → InOrder pool s → InOrder pool t
Run-InOrder pool s t start ok = ok
Run-InOrder pool s t (later {t = m} {u = u} run step) ok =
    Step-InOrder pool m u step (Run-InOrder pool s m run ok)
