-- ===== src/MsgQueue/Interleave.antt =====
-- Senders and receivers of one message queue, with their steps interleaved in any order: the two
-- steps of a call and its copy are separate, as the copy runs with interrupts enabled.
pub mod Owners
pub mod Steps
pub mod Append
pub mod Safety
use micro_rt_kernel.Prelude.{
  ℕ, ◌^◌, ◌<◌, ◌≡◌, ◌≢◌, Bool, true, false, List, [], ◌∷◌, ◌++◌, length, mem, Distinct, map,
}
use micro_rt_kernel.Kernel.{null, update}
use micro_rt_kernel.MemPool.Chain.{Chain}
use micro_rt_kernel.MsgQueue.{Mq, reserve, write, link, take, give}
use micro_rt_kernel.MsgQueue.Link.{EndsAt}

-- Whose a block is: no block of the pool, free, in the queue, with a sender, or with a receiver that
-- took this message.
pub data Owner : Type 0 where
  outside vacant linked sending : Owner
  receiving : (ℕ → ℕ) → Owner

abbrev pub is_outside : Owner → Bool
is_outside outside = true
is_outside o = false

abbrev pub is_vacant : Owner → Bool
is_vacant vacant = true
is_vacant o = false

abbrev pub is_linked : Owner → Bool
is_linked linked = true
is_linked o = false

-- The queue, whose each block is, and the messages that were linked and taken so far, in order.
pub record State : Type 0 where
  pub queue : Mq
  pub owner : ℕ → Owner
  pub sent : List (ℕ → ℕ)
  pub got : List (ℕ → ℕ)

-- The steps that `send_wait`, `recv` and the copies between their halves make.
pub data Step : State → State → Type 0 where
  reserves :
      (s : State)
      → s.queue.free_msg ≢ null
      → Step s record s { queue = reserve s.queue; owner = update s.owner s.queue.free_msg sending }
  writes :
      (s : State) (size : ℕ) (buffer : ℕ → ℕ) (msg : ℕ)
      → s.owner msg ≡ sending
      → Step s (record s { queue = write size buffer msg s.queue })
  links :
      (s : State) (msg : ℕ)
      → s.owner msg ≡ sending
      → Step s record s {
        queue = link msg s.queue;
        owner = update s.owner msg linked;
        sent = s.sent ++ s.queue.body msg ∷ [];
      }
  takes :
      (s : State)
      → s.queue.cur_msg_cnt ≢ 0
      → Step s record s {
        queue = take s.queue;
        owner = update s.owner s.queue.head_msg (receiving (s.queue.body s.queue.head_msg));
        got = s.got ++ s.queue.body s.queue.head_msg ∷ [];
      }
  gives :
      (s : State) (msg : ℕ) (message : ℕ → ℕ)
      → s.owner msg ≡ receiving message
      → Step s record s { queue = give msg s.queue; owner = update s.owner msg vacant }

pub data Run (s : State) : State → Type 0 where
  start : Run s s
  later : {t u : State} → Run s t → Step t u → Run s u

-- The pool's blocks are the free ones, those in the queue, each once and linked in order, and those
-- that calls hold. The count is that of the messages in the queue; the messages taken, followed by
-- those in the queue, are the messages sent; and no block of a receiver has changed.
pub record QueueOk (pool : List ℕ) (s : State) (ls fs : List ℕ) : Type 0 where
  pub linked_chain : Chain s.queue.next s.queue.head_msg ls
  pub vacant_chain : Chain s.queue.next s.queue.free_msg fs
  pub linked_once : Distinct ls
  pub vacant_once : Distinct fs
  pub linked_owner : (b : ℕ) → mem b ls ≡ is_linked (s.owner b)
  pub vacant_owner : (b : ℕ) → mem b fs ≡ is_vacant (s.owner b)
  pub pooled : (b : ℕ) → is_outside (s.owner b) ≡ false → mem b pool ≡ true
  pub nowhere : s.owner null ≡ outside
  pub last : EndsAt s.queue.tail_msg ls
  pub count : s.queue.cur_msg_cnt ≡ length ls
  pub sized : length pool < 2 ^ 16
  pub held : (b : ℕ) (message : ℕ → ℕ) → s.owner b ≡ receiving message → s.queue.body b ≡ message
  pub order : s.sent ≡ s.got ++ map s.queue.body ls
