-- ===== src/MsgQueue/Init.antt =====
-- `mrtk_mq_init` makes a queue in order, and so does a reset unless a call holds a block.
use mathlib.Core.Path.{subst}
use micro_rt_kernel.Prelude.{
  ℕ, zero, suc, ◌+◌, ◌-◌, ◌/◌, ◌%◌, ◌^◌, ◌<◌, ◌≡◌, refl, ap, ◌≢◌, Bool, true, false, not, ◌||◌,
  Option, none, some, ◌>>=◌, List, [], arith, ◌==◌, mem, if◌then◌else◌, Bool-cases, inl, inr,
}
use micro_rt_kernel.Align.{align_up}
use micro_rt_kernel.Kernel.{Kernel, Err, eok, null}
use micro_rt_kernel.Blocking.{reschedule_if}
use micro_rt_kernel.Ipc.{resume_all}
use micro_rt_kernel.MemPool.Chain.{Chain}
use micro_rt_kernel.MemPool.Init.{blocks, length-blocks, blocks-Distinct, link_blocks-Chain}
use micro_rt_kernel.MsgQueue.{
  Mq, msg_header_size, suspend_releaser, chain_blocks, init, control, reset,
}
use micro_rt_kernel.MsgQueue.Interleave.{outside, vacant, sending, is_outside, State, QueueOk}
use micro_rt_kernel.MsgQueue.Interleave.Owners.{is_held}

-- The blocks of the pool of a queue.
abbrev pub pool_of : Mq → List ℕ
pool_of m = blocks m.max_msg_cnt ((msg_header_size + m.max_msg_size) % 2 ^ 32) m.msg_pool

-- A queue that no call holds a block of, and that no message has gone through.
abbrev pub idle : Mq → State
idle m = record {
  queue = m;
  owner = λ b. if mem b (pool_of m) then vacant else outside;
  sent = [];
  got = [];
}

-- The blocks that a queue of at least one block chains up.
pub chain_blocks-Chain :
    (m : Mq)
    → 0 < m.max_msg_cnt
    → (msg_header_size + m.max_msg_size) % 2 ^ 32 ≢ 0
    → m.msg_pool ≢ null
    → Chain (chain_blocks m).next (chain_blocks m).free_msg (pool_of m)
unfolding chain_blocks
chain_blocks-Chain m some_block ne real =
    let stride = (msg_header_size + m.max_msg_size) % 2 ^ 32 in
    let count : suc (m.max_msg_cnt - 1) ≡ m.max_msg_cnt = omega arith in
    subst (λ n. Chain (chain_blocks m).next m.msg_pool (blocks n stride m.msg_pool)) count
      (link_blocks-Chain (m.max_msg_cnt - 1) stride m.msg_pool m.next (omega arith) real)

blocks-real : (n stride b : ℕ) → b ≢ null → mem null (blocks n stride b) ≡ false
blocks-real zero stride b ne = refl
blocks-real (suc n) stride b ne = ground (arith, blocks-real n stride (b + stride))

chain_blocks-InOrder :
    (m : Mq)
    → 0 < m.max_msg_cnt
    → m.max_msg_cnt < 2 ^ 16
    → (msg_header_size + m.max_msg_size) % 2 ^ 32 ≢ 0
    → m.msg_pool ≢ null
    → QueueOk (pool_of m) (idle (chain_blocks m)) [] (pool_of m)
unfolding chain_blocks
chain_blocks-InOrder m some_block small ne real =
    let stride = (msg_header_size + m.max_msg_size) % 2 ^ 32 in
    record {
      linked_chain = refl;
      vacant_chain = chain_blocks-Chain m some_block ne real;
      linked_once = tt;
      vacant_once = blocks-Distinct m.max_msg_cnt stride m.msg_pool (omega arith);
      linked_owner =
          λ b. elim (Bool-cases (mem b (pool_of m))) [ inl e ↦ rw e refl | inr e ↦ rw e refl ];
      vacant_owner =
          λ b. elim (Bool-cases (mem b (pool_of m))) [ inl e ↦ rw e refl | inr e ↦ rw e refl ];
      pooled = λ b. elim (Bool-cases (mem b (pool_of m))) [
        | inl e ↦ λ h. e
        | inr e ↦ λ h. absurd (ground (arith, rw e at h))
      ];
      nowhere = rw (blocks-real m.max_msg_cnt stride m.msg_pool real) refl;
      last = tt;
      count = refl;
      sized = rw (length-blocks m.max_msg_cnt stride m.msg_pool) small;
      held = λ b message. elim (Bool-cases (mem b (pool_of m))) [
        | inl e ↦ λ h. absurd (ground (arith, ap is_held (rw e at h)))
        | inr e ↦ λ h. absurd (ground (arith, ap is_held (rw e at h)))
      ];
      order = refl;
    }

-- A queue that `mrtk_mq_init` accepts is in order, with no message and all blocks of its pool free.
pub init-InOrder :
    (mq : ℕ) (named : Bool) (msg_pool msg_size pool_size flag : ℕ) (m : Mq) (k : Kernel)
    → let r = init mq named msg_pool msg_size pool_size flag m k in
      r.0 ≡ eok → QueueOk (pool_of r.1) (idle r.1) [] (pool_of r.1)
unfolding init chain_blocks
init-InOrder mq named msg_pool msg_size pool_size flag m k =
    let stride = (msg_header_size + align_up msg_size) % 2 ^ 32 in
    let count = pool_size / stride % 2 ^ 16 in
    let m1 = record m {
      obj_flag = flag;
      is_dynamic = false;
      msg_pool = msg_pool;
      max_msg_size = align_up msg_size;
      max_msg_cnt = count;
    } in
    elim (Bool-cases ((mq == null) || not named || (msg_pool == null))) [
      | inl e ↦ rw e (λ h. absurd (ground (arith, h)))
      | inr e ↦ elim (Bool-cases (count == 0)) [
        | inl f ↦ rw (e, f) (λ h. absurd (ground (arith, h)))
        | inr f ↦
            rw (e, f)
              (λ h.
                let none_of : stride ≢ 0 =
                  (λ z. absurd (ground (arith, ap (λ x. pool_size / x % 2 ^ 16) z))) in
                chain_blocks-InOrder m1 (ground arith) (omega arith) none_of
                  (λ z. absurd (ground (arith, z))))
      ]
    ]

blocks-some : (n stride b a : ℕ) → mem a (blocks n stride b) ≡ true → 0 < n
blocks-some zero stride b a h = absurd (ground arith)
blocks-some (suc n) stride b a h = omega arith

abbrev after_reset : Mq → Option (Bool × Kernel) → Option (Err × Option ℕ × Mq × Kernel)
after_reset m r = do woken ← r; some (eok, none, chain_blocks m, reschedule_if woken.0 woken.1)

reset-chain_blocks :
    (r : Option (Bool × Kernel)) (m m' : Mq) (n : Option ℕ) (k' : Kernel)
    → after_reset m r ≡ some (eok, n, m', k')
    → m' ≡ chain_blocks m
reset-chain_blocks none m m' n k' e = absurd (ground arith)
reset-chain_blocks (some r) m m' n k' e = ground arith

-- A reset makes every block of the pool free, one that a sender has taken and is still writing to
-- included: on a queue in order with a sender that holds the block `b`, a reset that returns leaves
-- `b` among the blocks that the free chain leads through.
pub reset-Chain :
    (fuel mq b : ℕ) (s : State) (n : Option ℕ) (m' : Mq) (k k' : Kernel) (ls fs : List ℕ)
    → QueueOk (pool_of s.queue) s ls fs
    → (msg_header_size + s.queue.max_msg_size) % 2 ^ 32 ≢ 0
    → s.queue.msg_pool ≢ null
    → s.owner b ≡ sending
    → control fuel mq (reset false) s.queue k ≡ some (eok, n, m', k')
    → Chain m'.next m'.free_msg (pool_of s.queue) × (mem b (pool_of s.queue) ≡ true)
unfolding control
reset-Chain fuel mq b s n m' k k' ls fs ok ne real own e =
    let inside : mem b (pool_of s.queue) ≡ true = ok.pooled b (ap is_outside own) in
    let stride = (msg_header_size + s.queue.max_msg_size) % 2 ^ 32 in
    let some_block = blocks-some s.queue.max_msg_cnt stride s.queue.msg_pool b inside in
    let m'-is : m' ≡ chain_blocks s.queue = elim (Bool-cases (mq == null)) [
      | inl f ↦ absurd (ground (arith, rw f at e))
      | inr f ↦
          reset-chain_blocks (resume_all fuel (suspend_releaser mq) eok k) s.queue m' n k'
            (rw f at e)
    ] in
    rw m'-is (chain_blocks-Chain s.queue some_block ne real, inside)
