-- ===== src/MemPool.antt =====
-- Kernel/Src/mrtk_mem_pool.c. A block is the address of its data; `header` is the pointer that
-- stands in the 4 bytes before it. The address of a pool stands for its list of waiting tasks.
pub mod Chain
pub mod Init
use micro_rt_kernel.Prelude.{
  ℕ, zero, suc, ◌+◌, ◌-◌, ◌*◌, ◌/◌, ◌%◌, ◌^◌, Bool, true, false, not, Option, none, some, ◌==◌,
  if◌then◌else◌, ◌>>=◌,
}
use micro_rt_kernel.DList
use micro_rt_kernel.Align.{align_up}
use micro_rt_kernel.Kernel.{
  Kernel, Err, eok, error, edeleted, TaskState, suspend, ready, null, task_timer, update, set_state,
  set_last_error,
}
use micro_rt_kernel.Obj
use micro_rt_kernel.Obj.{obj_init, obj_delete}
use micro_rt_kernel.Sched.{schedule, insert_task, remove_task, prio_ht}
use micro_rt_kernel.Timer.{
  waiting_forever, set_time, set_oneshot, timer_control, timer_start, timer_stop,
}
use micro_rt_kernel.Blocking.{reschedule_if}

-- `mrtk_mem_pool_t`
pub record Mp : Type 0 where
  pub start_addr : ℕ
  pub size : ℕ
  pub block_size : ℕ
  pub total_block_count : ℕ
  pub free_block_count : ℕ
  pub free_block_list : ℕ

-- `MRTK_POOL_BLOCK_HEADER_SIZE`
abbrev pub header_size : ℕ
header_size = 4

-- Headers that lead from block to block: `left` ones are still to be set to the block that follows.
unfoldable pub link_blocks : ℕ → ℕ → ℕ → (ℕ → ℕ) → ℕ → ℕ
link_blocks zero stride block header = update header block null
link_blocks (suc left) stride block header =
    link_blocks left stride (block + stride) (update header block (block + stride))

-- The same loop on 32-bit addresses, in `mrtk_mp_init`
unfoldable pub link_words : ℕ → ℕ → ℕ → (ℕ → ℕ) → ℕ → ℕ
link_words zero stride block header = update header block null
link_words (suc left) stride block header =
    let next = (block + stride) % 2 ^ 32 in link_words left stride next (update header block next)

-- `mrtk_mp_init`. A block and its header whose size wraps to 0 divide by zero in the code; the
-- quotient is 0 here.
unfoldable pub init : ℕ → ℕ → ℕ → ℕ → Mp → (ℕ → ℕ) → Kernel → Err × Mp × (ℕ → ℕ) × Kernel
unfolding link_words align_up
init mp start_addr size block_size p header k =
    let k1 = obj_init Obj.mem_pool mp k in
    let aligned = align_up start_addr in
    let block = align_up block_size in
    let offset = (aligned + 2 ^ 32 - start_addr) % 2 ^ 32 in
    let stride = (block + header_size) % 2 ^ 32 in
    let total = (size + 2 ^ 32 - offset) % 2 ^ 32 / stride in
    let counted = record p {
      start_addr = start_addr;
      size = size;
      block_size = block;
      total_block_count = total;
      free_block_count = total;
    } in
    let first = (aligned + header_size) % 2 ^ 32 in
    if total == 0 then (error, counted, header, k1) else (
      eok,
      record counted { free_block_list = first },
      link_words (total - 1) stride first header,
      record k1 { sched = DList.init mp k1.sched },
    )

-- The body of the loop that `mrtk_mp_detach` and `mrtk_mp_destroy` share.
unfoldable pub evict : ℕ → Kernel → Kernel
evict task k =
    let k1 = set_last_error task edeleted k in
    let k2 = insert_task task (record k1 { sched = DList.remove task k1.sched }) in
    (timer_stop (task_timer task) (set_state task ready k2)).1

unfoldable pub evict_all : ℕ → ℕ → ℕ → ℕ → Kernel → Option Kernel
unfolding evict
evict_all zero mp task next k = none
evict_all (suc fuel) mp task next k =
    let k1 = evict task k in
    let rest = evict_all fuel mp next (k1.sched.next next) k1 in if task == mp then some k else rest

-- `mrtk_mp_detach`, and `mrtk_mp_destroy` but for the release of the memory
unfoldable pub detach : ℕ → ℕ → Kernel → Option (Err × Kernel)
unfolding evict_all
detach fuel mp k = do
  let task = k.sched.next mp
  k1 ← evict_all fuel mp task (k.sched.next task) k
  some (eok, schedule (obj_delete mp k1))

-- What a call of `mrtk_mp_alloc` does for its caller: a block (null if there is none), or it waits.
pub data Given : Type 0 where
  block : ℕ → Given
  waits : Given

-- A free block leaves the list, and its header says which pool it belongs to.
unfoldable pub pop : ℕ → Mp → (ℕ → ℕ) → ℕ × Mp × (ℕ → ℕ)
pop mp p header =
    let block_data = p.free_block_list in
    (
      block_data,
      record p { free_block_list = header block_data; free_block_count = p.free_block_count - 1 },
      update header block_data mp,
    )

-- A block goes back to the front of the list.
unfoldable pub push : ℕ → Mp → (ℕ → ℕ) → Mp × (ℕ → ℕ)
push block_data p header = (
  record p { free_block_list = block_data; free_block_count = (p.free_block_count + 1) % 2 ^ 32 },
  update header block_data p.free_block_list,
)

-- The body of the loop of `mrtk_mp_alloc`: the caller waits, without a reset of its `last_error`.
unfoldable pub wait : ℕ → ℕ → ℕ → Kernel → Option Kernel
wait fuel mp time k = do
  let task = k.current
  let k1 = set_state task suspend (remove_task task k)
  let k2 = record k1 { sched = DList.insert_before mp task k1.sched }
  let armed : Option Kernel = do
    r ← timer_control fuel (task_timer task) (set_time (some time)) k2
    r' ← timer_control fuel (task_timer task) set_oneshot r.1
    r'' ← timer_start fuel (task_timer task) r'.1
    some r''.1
  k3 ← if time == waiting_forever then some k2 else armed
  some (schedule k3)

-- One round of the loop of `mrtk_mp_alloc`, and what follows the loop.
unfoldable pub alloc : ℕ → ℕ → ℕ → Mp → (ℕ → ℕ) → Kernel → Option (Given × Mp × (ℕ → ℕ) × Kernel)
unfolding wait pop
alloc fuel mp time p header k =
    let sleep : Option (Given × Mp × (ℕ → ℕ) × Kernel) = do
      k1 ← wait fuel mp time k
      some (waits, p, header, k1)
    in let r = pop mp p header in
      if p.free_block_count == 0
      then if time == 0 then some (block null, p, header, k) else sleep
      else some (block r.0, r.1, r.2, k)

-- A task that runs again in `mrtk_mp_alloc`.
unfoldable pub alloc_resume :
    ℕ → ℕ → ℕ → Mp → (ℕ → ℕ) → Kernel → Option (Given × Mp × (ℕ → ℕ) × Kernel)
unfolding alloc
alloc_resume fuel mp time p header k = elim (k.tcb k.current).last_error [
  | eok ↦ alloc fuel mp time p header k
  | err ↦ some (block null, p, header, k)
]

-- The part of `mrtk_mp_free` that wakes the first task that waits.
unfoldable pub wake_first : ℕ → Kernel → Kernel
wake_first mp k =
    let task = k.sched.next mp in
    let k1 = (timer_stop (task_timer task) (set_last_error task eok k)).1 in
    let k2 =
      set_state task ready (insert_task task (record k1 { sched = DList.remove task k1.sched })) in
    if k.sched.next mp == mp then k else reschedule_if (prio_ht task k2.current k2) k2

-- `mrtk_mp_free`, with the pool at the address that the header of the block has
unfoldable pub free : ℕ → (ℕ → Mp) → (ℕ → ℕ) → Kernel → (ℕ → Mp) × (ℕ → ℕ) × Kernel
unfolding push wake_first
free block_data pools header k =
    let mp = header block_data in
    let r = push block_data (pools mp) header in (update pools mp r.0, r.1, wake_first mp k)
