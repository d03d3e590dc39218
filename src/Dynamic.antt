-- ===== src/Dynamic.antt =====
-- The calls that create kernel objects on the heap and delete them again, `mrtk_sem_create` and
-- `mrtk_sem_delete` and the like. `bytes` is the size of a control block, which depends on the
-- configuration. The result of a creation is the address and the object, or nothing for null.
pub mod Leak
pub mod Again
use micro_rt_kernel.Prelude.{
  ℕ, ◌+◌, ◌*◌, ◌%◌, ◌^◌, Bool, true, false, not, ◌||◌, Option, none, some, ◌==◌, leb, if◌then◌else◌,
  ◌>>=◌,
}
use micro_rt_kernel.Align.{align_up}
use micro_rt_kernel.Kernel.{
  Kernel, Err, eok, einval, edeleted, null, prio_levels, set_tcb, set_timer, set_mutex,
}
use micro_rt_kernel.Sched.{schedule}
use micro_rt_kernel.Blocking.{reschedule_if}
use micro_rt_kernel.Ipc.{ipc_obj_delete, resume_all}
use micro_rt_kernel.MemHeap.{Heap, malloc, free}
use micro_rt_kernel.Obj.{obj_delete}
use micro_rt_kernel.Sem
use micro_rt_kernel.Sem.{Sem}
use micro_rt_kernel.Event
use micro_rt_kernel.Event.{Event}
use micro_rt_kernel.Mutex
use micro_rt_kernel.MailBox
use micro_rt_kernel.MailBox.{Mb, is_eok, suspend_sender}
use micro_rt_kernel.MemPool
use micro_rt_kernel.MemPool.{Mp}
use micro_rt_kernel.MsgQueue
use micro_rt_kernel.MsgQueue.{Mq, suspend_releaser, msg_header_size}
use micro_rt_kernel.Task.{task_init}
use micro_rt_kernel.Timer.{timer_init, timer_detach}

-- A creation: the object if there is one, the heap and the kernel
abbrev pub Made : Type 0 → Type 0
Made A = Option (Option (ℕ × A) × Heap × Kernel)

-- What the creations of one block share: it is allocated, initialised and freed if that fails.
unfoldable pub create_one :
    {A : Type 0} → ℕ → ℕ → (ℕ → Kernel → Err × A × Kernel) → Heap → Kernel → Made A
unfolding malloc free
create_one fuel bytes init h k = do
  got ← malloc fuel bytes h k
  let r = init got.0 got.2
  let undone = free got.0 got.1 r.2
  some (
      if got.0 == null
      then (none, got.1, got.2)
      else if is_eok r.0
      then (some (got.0, r.1), got.1, r.2)
      else (none, undone.0, undone.1))

-- What the creations of a control block and a second block share; the second block is the first to be
-- freed if `second_first`.
unfoldable pub create_two :
    {A : Type 0} → ℕ → Bool → ℕ → ℕ → (ℕ → ℕ → Kernel → Err × A × Kernel) → Heap → Kernel → Made A
unfolding malloc free
create_two {A} fuel second_first bytes pool_bytes init h k = do
  got ← malloc fuel bytes h k
  let obj = got.0
  let rest : Made A = do
    pool ← malloc fuel pool_bytes got.1 got.2
    let r = init obj pool.0 pool.2
    let alone = free obj pool.1 pool.2
    let one = free (if second_first then pool.0 else obj) pool.1 r.2
    let both = free (if second_first then obj else pool.0) one.0 one.1
    some (
        if pool.0 == null
        then (none, alone.0, alone.1)
        else if is_eok r.0
        then (some (obj, r.1), pool.1, r.2)
        else (none, both.0, both.1))
  if obj == null then some (none, got.1, got.2) else rest

-- `mrtk_sem_create`, `mrtk_event_create` and `mrtk_mutex_create`; `blank` is what the granted
-- memory held
unfoldable pub sem_create : ℕ → ℕ → Bool → ℕ → ℕ → Sem → Heap → Kernel → Made Sem
unfolding create_one
sem_create fuel bytes named value flag blank h k =
    let init : ℕ → Kernel → Err × Sem × Kernel = λ obj k1.
      let r = Sem.init obj named value flag blank k1 in
      (r.0, record r.1 { is_dynamic = true }, r.2) in
    if named then create_one fuel bytes init h k else some (none, h, k)

unfoldable pub event_create : ℕ → ℕ → Bool → ℕ → Event → Heap → Kernel → Made Event
unfolding create_one
event_create fuel bytes named flag blank h k =
    let init : ℕ → Kernel → Err × Event × Kernel = λ obj k1.
      let r = Event.init obj named flag blank k1 in (r.0, record r.1 { is_dynamic = true }, r.2) in
    if named then create_one fuel bytes init h k else some (none, h, k)

unfoldable pub mutex_create : ℕ → ℕ → Bool → ℕ → Heap → Kernel → Made Unit
unfolding create_one
mutex_create fuel bytes named flag h k =
    let init : ℕ → Kernel → Err × Unit × Kernel = λ obj k1.
      let r = Mutex.init obj named flag k1 in
      (
        r.0,
        tt,
        if is_eok r.0
            then set_mutex obj (record (r.1.mutex obj) { is_dynamic = true }) r.1
            else r.1,
      ) in
    if named then create_one fuel bytes init h k else some (none, h, k)

-- `mrtk_timer_create` does not look at the result of the initialisation.
unfoldable pub timer_create : ℕ → ℕ → Bool → Bool → ℕ → Bool → Bool → Heap → Kernel → Made Unit
timer_create fuel bytes named called tick periodic soft h k = do
  got ← malloc fuel bytes h k
  let r = timer_init got.0 named called tick periodic soft got.2
  some (if got.0 == null then (none, got.1, got.2) else (some (got.0, tt), got.1, r.1))

-- `mrtk_mb_create`; the mails at `pool` are what the memory holds
unfoldable pub mb_create : ℕ → ℕ → (ℕ → ℕ) → ℕ → Bool → ℕ → Mb → Heap → Kernel → Made Mb
unfolding create_two
mb_create fuel bytes pool size named flag m h k =
    let init : ℕ → ℕ → Kernel → Err × Mb × Kernel = λ obj at k1.
      let r = MailBox.init obj true pool (align_up size) named flag m k1 in
      (r.0, record r.1 { is_dynamic = true }, r.2) in
    if named then create_two fuel false bytes (align_up size) init h k else some (none, h, k)

-- `mrtk_mq_create`; the product is one of 32 bits
unfoldable pub mq_create : ℕ → ℕ → Bool → ℕ → ℕ → ℕ → Mq → Heap → Kernel → Made Mq
unfolding create_two
mq_create fuel bytes named msg_size max_msgs flag m h k =
    let pool_size = (align_up msg_size + msg_header_size) * max_msgs % 2 ^ 32 in
    let init : ℕ → ℕ → Kernel → Err × Mq × Kernel = λ obj at k1.
      let r = MsgQueue.init obj named at msg_size pool_size flag m k1 in
      (r.0, record r.1 { is_dynamic = true }, r.2) in
    create_two fuel false bytes pool_size init h k

-- `mrtk_mp_create`, with the headers that the pool has in memory
unfoldable pub mp_create : ℕ → ℕ → ℕ → ℕ → Mp → (ℕ → ℕ) → Heap → Kernel → Made (Mp × (ℕ → ℕ))
unfolding create_two
mp_create fuel bytes block_size block_count p header h k =
    let block = align_up block_size in
    let size = (block + MemPool.header_size) * block_count % 2 ^ 32 in
    let init : ℕ → ℕ → Kernel → Err × (Mp × (ℕ → ℕ)) × Kernel = λ obj at k1.
      let (err, p', header', k2) = MemPool.init obj at size block p header k1 in
      (err, (p', header'), k2) in
    create_two fuel false bytes size init h k

-- `mrtk_task_create`; `given` says whether there is an entry function
unfoldable pub task_create : ℕ → ℕ → Bool → ℕ → ℕ → ℕ → Heap → Kernel → Made Unit
unfolding create_two
task_create fuel bytes given stack_size priority tick h k =
    let init : ℕ → ℕ → Kernel → Err × Unit × Kernel = λ task stack k1.
      let r = task_init task true priority tick k1 in
      (
        r.0,
        tt,
        if is_eok r.0 then set_tcb task (record (r.1.tcb task) { is_dynamic = true }) r.1 else r.1,
      ) in
    if not given || (stack_size == 0) || leb prio_levels priority
    then some (none, h, k)
    else create_two fuel true bytes stack_size init h k

-- What the deletions of one block share: the waiting tasks are woken and the object leaves its list,
-- then the block is freed, then the scheduler runs.
unfoldable pub delete_one : ℕ → ℕ → Heap → Kernel → Option (Err × Heap × Kernel)
delete_one fuel obj h k = do
  r ← ipc_obj_delete fuel obj obj k
  let f = free obj h r.1
  some (eok, f.0, reschedule_if r.0 f.1)

-- `mrtk_sem_delete`
unfoldable pub sem_delete : ℕ → ℕ → Sem → Heap → Kernel → Option (Err × Heap × Kernel)
unfolding delete_one
sem_delete fuel sem s h k =
    if (sem == null) || not s.is_dynamic then some (einval, h, k) else delete_one fuel sem h k

-- `mrtk_event_delete`
unfoldable pub event_delete : ℕ → ℕ → Event → Heap → Kernel → Option (Err × Heap × Kernel)
unfolding delete_one
event_delete fuel event e h k =
    if (event == null) || not e.is_dynamic then some (einval, h, k) else delete_one fuel event h k

-- `mrtk_mutex_delete`
unfoldable pub mutex_delete : ℕ → (ℕ → ℕ) → ℕ → Heap → Kernel → Option (Err × Heap × Kernel)
mutex_delete fuel stray mutex h k =
    let disposed : Option (Err × Heap × Kernel) = do
      r ← Mutex.disown fuel stray mutex k
      r' ← ipc_obj_delete fuel mutex mutex r.1
      let f = free mutex h r'.1
      some (eok, f.0, reschedule_if (r.0 || r'.0) f.1)
    in if (mutex == null) || not (k.mutex mutex).is_dynamic then some (einval, h, k) else disposed

-- What `mrtk_mb_delete` and `mrtk_mq_delete` do to what they accept: `senders` is the second
-- waiting list.
unfoldable pub delete_two : ℕ → ℕ → ℕ → ℕ → Heap → Kernel → Option (Err × Heap × Kernel)
delete_two fuel obj senders pool h k = do
  r ← resume_all fuel senders edeleted k
  r' ← ipc_obj_delete fuel obj obj r.1
  let f = free pool h r'.1
  let f' = free obj f.0 f.1
  some (eok, f'.0, reschedule_if (r.0 || r'.0) f'.1)

-- `mrtk_mq_delete`
unfoldable pub mq_delete : ℕ → ℕ → Mq → Heap → Kernel → Option (Err × Heap × Kernel)
unfolding delete_two
mq_delete fuel mq m h k =
    if (mq == null) || not m.is_dynamic
    then some (einval, h, k)
    else delete_two fuel mq (suspend_releaser mq) m.msg_pool h k

-- `mrtk_mb_delete`, with the address of the pool
unfoldable pub mb_delete : ℕ → ℕ → ℕ → Mb → Heap → Kernel → Option (Err × Heap × Kernel)
unfolding delete_two
mb_delete fuel mb pool m h k =
    if (mb == null) || not m.is_dynamic
    then some (einval, h, k)
    else delete_two fuel mb (suspend_sender mb) pool h k

-- `mrtk_mp_destroy`: here the scheduler runs without a condition.
unfoldable pub mp_destroy : ℕ → ℕ → Mp → Heap → Kernel → Option (Err × Heap × Kernel)
mp_destroy fuel mp p h k = do
  let task = k.sched.next mp
  k1 ← MemPool.evict_all fuel mp task (k.sched.next task) k
  let f = free p.start_addr h (obj_delete mp k1)
  let f' = free mp f.0 f.1
  some (eok, f'.0, schedule f'.1)

-- `mrtk_timer_delete`
unfoldable pub timer_delete : ℕ → Heap → Kernel → Err × Heap × Kernel
timer_delete t h k =
    let r = timer_detach t k in
    let f = free t h r.1 in if t == null then (einval, h, k) else (eok, f.0, f.1)
