-- ===== src/MsgQueue/Calls.antt =====
-- What the calls of a message queue do to it, on every branch, and a message that goes through.
use micro_rt_kernel.Prelude.{
  ℕ, ◌≤◌, ◌<◌, ◌≡◌, refl, ◌≢◌, ◌⊎◌, Bool, true, false, not, ◌||◌, ◌&&◌, Option, none, some, List,
  [], ◌∷◌, arith, ◌==◌, ==_refl, ==_of_ne, ltb, Bool-cases, inl, inr, ◌>>=◌,
}
use micro_rt_kernel.Kernel.{Kernel, einval, error, e_in_isr, null}
use micro_rt_kernel.Blocking.{Outcome, returned, blocked, resumed}
use micro_rt_kernel.MailBox.{wait, is_eok}
use micro_rt_kernel.MsgQueue.{
  Mq, Progress, done, copying, suspend_releaser, wait_once, reserve, write, link, take, read,
  send_loop, send_wait, send_resume, send_end, recv_loop, recv, recv_resume,
}
use micro_rt_kernel.MsgQueue.Interleave.{State, QueueOk}

-- A call that goes on to copy has made its step; any other leaves the queue.
abbrev pub SendMade : Mq → Progress → Mq → Type 0
SendMade m (done o) m' = m' ≡ m
SendMade m (copying msg) m' = (m.free_msg ≢ null) × (msg ≡ m.free_msg) × (m' ≡ reserve m)

abbrev pub RecvMade : Mq → Progress → Mq → Type 0
RecvMade m (done o) m' = m' ≡ m
RecvMade m (copying msg) m' = (m.cur_msg_cnt ≢ 0) × (msg ≡ m.head_msg) × (m' ≡ take m)

abbrev asleep : Mq → Option Kernel → Option (Progress × Mq × Kernel)
asleep m r = do k ← r; some (done blocked, m, k)

asleep-SendMade :
    (r : Option Kernel) (m m' : Mq) (p : Progress) (k' : Kernel)
    → asleep m r ≡ some (p, m', k')
    → (p ≡ done blocked) × (m' ≡ m)
asleep-SendMade none m m' p k' e = absurd (ground arith)
asleep-SendMade (some k) m m' p k' e = (ground arith, ground arith)

abbrev Ended : Option (Progress × Mq × Kernel) → Progress → Mq → Kernel → Type 0
Ended r p m' k' = r ≡ some (p, m', k')

-- The ways in which a call of either kind may end.
module _ (Made : Mq → Progress → Mq → Type 0) (m m' : Mq) (k k' : Kernel) (p : Progress)
    (same : (o : Outcome) → Made m (done o) m) where
  by-done : (o : Outcome) → Ended (some (done o, m, k)) p m' k' → Made m p m'
  by-done o e =
      let (f, g) : (p ≡ done o) × (m' ≡ m) = (ground arith, ground arith) in rw (f, g) (same o)

  by-asleep : (r : Option Kernel) → Ended (asleep m r) p m' k' → Made m p m'
  by-asleep r e = let (f, g) = asleep-SendMade r m m' p k' e in rw (f, g) (same blocked)

  by-copying :
      (msg : ℕ) (m2 : Mq)
      → Made m (copying msg) m2
      → Ended (some (copying msg, m2, k)) p m' k'
      → Made m p m'
  by-copying msg m2 made e =
      let (f, g) : (p ≡ copying msg) × (m' ≡ m2) = (ground arith, ground arith) in rw (f, g) made

module _ (fuel mq timeout : ℕ) (m m' : Mq) (k k' : Kernel) (p : Progress) where
  send_loop-SendMade : Ended (send_loop fuel mq timeout m k) p m' k' → SendMade m p m'
  unfolding send_loop
  send_loop-SendMade e = elim (Bool-cases (m.free_msg == null)) [
    | inl f ↦ elim (Bool-cases (timeout == 0)) [
      | inl g ↦ by-done SendMade m m' k k' p (λ o. refl) (returned error) (rw (f, g) at e)
      | inr g ↦
          by-asleep SendMade m m' k k' p (λ o. refl)
            (wait_once fuel (suspend_releaser mq) m.obj_flag timeout k) (rw (f, g) at e)
    ]
    | inr f ↦
        by-copying SendMade m m' k k' p (λ o. refl) m.free_msg (reserve m)
          (λ z. absurd (ground arith), refl, refl) (rw f at e)
  ]

  recv_loop-RecvMade : Ended (recv_loop fuel mq timeout m k) p m' k' → RecvMade m p m'
  unfolding recv_loop
  recv_loop-RecvMade e = elim (Bool-cases (m.cur_msg_cnt == 0)) [
    | inl f ↦ elim (Bool-cases (timeout == 0)) [
      | inl g ↦ by-done RecvMade m m' k k' p (λ o. refl) (returned error) (rw (f, g) at e)
      | inr g ↦
          by-asleep RecvMade m m' k k' p (λ o. refl) (wait fuel mq m.flag timeout k)
            (rw (f, g) at e)
    ]
    | inr f ↦
        by-copying RecvMade m m' k k' p (λ o. refl) m.head_msg (take m)
          (λ z. absurd (ground arith), refl, refl) (rw f at e)
  ]

-- A call of `mrtk_mq_send_wait` that comes to an end or to its copy, fresh or after a sleep: it
-- copies only if there is a free block, and then has taken the first one; if it returns an error or
-- sleeps, the queue is as before.
send_wait-SendMade :
    (fuel mq : ℕ) (given : Bool) (size timeout : ℕ) (m m' : Mq) (k k' : Kernel) (p : Progress)
    → (send_wait fuel mq given size timeout m k ≡ some (p, m', k'))
      ⊎ (send_resume fuel mq timeout m k ≡ some (p, m', k'))
    → SendMade m p m'
unfolding send_wait send_resume
send_wait-SendMade fuel mq given size timeout m m' k k' p (inl e) =
    elim (Bool-cases ((mq == null) || not given)) [
      | inl f ↦ by-done SendMade m m' k k' p (λ o. refl) (returned einval) (rw f at e)
      | inr f ↦ elim (Bool-cases (ltb m.max_msg_size size)) [
        | inl g ↦ by-done SendMade m m' k k' p (λ o. refl) (returned error) (rw (f, g) at e)
        | inr g ↦ send_loop-SendMade fuel mq timeout m m' k k' p (rw (f, g) at e)
      ]
    ]
send_wait-SendMade fuel mq given size timeout m m' k k' p (inr e) =
    elim (Bool-cases (is_eok (resumed k.current k))) [
      | inl f ↦ send_loop-SendMade fuel mq timeout m m' k k' p (rw f at e)
      | inr f ↦ by-done SendMade m m' k k' p (λ o. refl) (returned error) (rw f at e)
    ]

-- A call of `mrtk_mq_recv` that comes to an end or to its copy, fresh or after a sleep: it copies
-- only if the queue has a message, and then has taken the first one; if it returns an error or
-- sleeps, the queue is as before.
pub recv-RecvMade :
    (fuel mq : ℕ) (given : Bool) (size timeout : ℕ) (m m' : Mq) (k k' : Kernel) (p : Progress)
    → (recv fuel mq given size timeout m k ≡ some (p, m', k'))
      ⊎ (recv_resume fuel mq timeout m k ≡ some (p, m', k'))
    → RecvMade m p m'
unfolding recv recv_resume
recv-RecvMade fuel mq given size timeout m m' k k' p (inl e) =
    elim (Bool-cases ((mq == null) || not given)) [
      | inl f ↦ by-done RecvMade m m' k k' p (λ o. refl) (returned einval) (rw f at e)
      | inr f ↦ elim (Bool-cases (ltb m.max_msg_size size)) [
        | inl g ↦ by-done RecvMade m m' k k' p (λ o. refl) (returned error) (rw (f, g) at e)
        | inr g ↦ elim (Bool-cases (not (timeout == 0) && not (k.interrupt_nest == 0))) [
          | inl h ↦ by-done RecvMade m m' k k' p (λ o. refl) (returned e_in_isr) (rw (f, g, h) at e)
          | inr h ↦ recv_loop-RecvMade fuel mq timeout m m' k k' p (rw (f, g, h) at e)
        ]
      ]
    ]
recv-RecvMade fuel mq given size timeout m m' k k' p (inr e) =
    elim (Bool-cases (is_eok (resumed k.current k))) [
      | inl f ↦ recv_loop-RecvMade fuel mq timeout m m' k k' p (rw f at e)
      | inr f ↦
          by-done RecvMade m m' k k' p (λ o. refl) (returned (resumed k.current k)) (rw f at e)
    ]

-- On a queue in order without messages and with a free block `b`, a message of at most the largest
-- size that is sent and then received, with no other call in between: both calls copy at once, the
-- receiver from the block that the sender wrote, and the receiver's buffer then starts with the bytes
-- sent.
recv-send_wait :
    (fuel mq size b : ℕ) (buffer out : ℕ → ℕ) (pool fs : List ℕ) (s : State) (k : Kernel)
    → mq ≢ null
    → size ≤ s.queue.max_msg_size
    → QueueOk pool s [] (b ∷ fs)
    → let m1 = write size buffer b (reserve s.queue) in
      let r = send_end mq b m1 k in
      (send_wait fuel mq true size 0 s.queue k ≡ some (copying b, reserve s.queue, k))
      × (recv fuel mq true size 0 r.1 r.2 ≡ some (copying b, take r.1, r.2))
      × ((i : ℕ) → i < size → read size b (take r.1) out i ≡ buffer i)
unfolding send_wait recv send_end send_loop recv_loop reserve write link take read
recv-send_wait fuel mq size b buffer out pool fs s k real le ok =
    let (at, some_block, rest) = ok.vacant_chain in
    let fits : ltb s.queue.max_msg_size size ≡ false = ground arith in
    let empty : s.queue.cur_msg_cnt ≡ 0 = ok.count in
    (
      rw (==_of_ne mq 0 real, fits, at, ==_of_ne b 0 some_block) refl,
      rw (==_of_ne mq 0 real, empty, fits) refl,
      (λ i lt. let small : ltb i size ≡ true = ground arith in ground (arith, ==_refl b)),
    )
