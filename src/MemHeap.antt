-- ===== src/MemHeap.antt =====
-- Kernel/Src/mrtk_mem_heap.c: the heap. A block is the offset of its header from the start of the
-- heap, as in the fields `prev` and `next`; `blk` is the memory of the headers.
pub mod Tiles
pub mod Chunks
pub mod Kept
pub mod Undo
pub mod Spans
pub mod Search
pub mod Malloc
pub mod Merge
pub mod Free
pub mod Refinement
pub mod Bounds
pub mod Start
use micro_rt_kernel.Prelude.{
  ℕ, zero, suc, ◌+◌, ◌-◌, ◌*◌, ◌%◌, ◌^◌, Bool, true, false, not, ◌||◌, ◌&&◌, Option, none, some,
  ◌==◌, ltb, leb, if◌then◌else◌, ◌>>=◌,
}
use micro_rt_kernel.Align.{align_up, align_down}
use micro_rt_kernel.Kernel.{Kernel, Err, eok, error, null, update}
use micro_rt_kernel.Sched.{schedule_lock, schedule_unlock}

-- `mrtk_heap_mem_t`
pub record Block : Type 0 where
  pub magic : ℕ
  pub state : ℕ
  pub prev : ℕ
  pub next : ℕ

-- `heap_base_addr`, `heap_size`, `lfree` as an offset, and the headers
pub record Heap : Type 0 where
  pub base : ℕ
  pub size : ℕ
  pub lfree : ℕ
  pub blk : ℕ → Block

-- `MRTK_HEAP_MAGIC`, `MRTK_HEAP_HEADER_SIZE` and `MRTK_HEAP_DATA_MIN_SIZE`
abbrev pub magic_number : ℕ
magic_number = 0x1ea0

abbrev pub header_size : ℕ
header_size = 12

abbrev pub data_min_size : ℕ
data_min_size = 12

-- `mrtk_heap_block_state_t`
abbrev pub dummy_state : ℕ
dummy_state = 0

abbrev pub free_state : ℕ
free_state = 1

abbrev pub used_state : ℕ
used_state = 2

abbrev pub set_blk : ℕ → Block → Heap → Heap
set_blk o b h = record h { blk = update h.blk o b }

-- `mrtk_heap_init`; the difference of the two addresses is compared without a sign
unfoldable pub heap_init : ℕ → ℕ → Heap → Err × Heap
unfolding align_up align_down
heap_init begin_ptr end_ptr h =
    let base = align_up begin_ptr in
    let size = (align_down end_ptr + 2 ^ 32 - base) % 2 ^ 32 in
    let last = size - header_size in
    let h1 = record h { base = base; size = size; lfree = header_size } in
    let h2 =
      set_blk 0 record { magic = magic_number; state = dummy_state; prev = 0; next = header_size }
        h1 in
    let h3 =
      set_blk header_size record { magic = magic_number; state = free_state; prev = 0; next = last }
        h2 in
    let h4 =
      set_blk last
        record { magic = magic_number; state = dummy_state; prev = header_size; next = size } h3 in
    if ltb size (3 * header_size + data_min_size) then (error, h) else (eok, h4)

-- The size of a block, header included: `cur_free_size`
abbrev pub size_of : ℕ → Heap → ℕ
size_of cur h = ((h.blk cur).next + 2 ^ 32 - cur) % 2 ^ 32

-- The loop of `mrtk_malloc` up to the block that it takes: that block, if there is one.
unfoldable pub search : ℕ → ℕ → ℕ → Heap → Option (Option ℕ)
search zero needed cur h = none
search (suc fuel) needed cur h =
    let rest = search fuel needed (h.blk cur).next h in
    if not (ltb cur h.size)
    then some none
    else if not ((h.blk cur).state == free_state) || ltb (size_of cur h) needed
    then rest
    else some (some cur)

-- The block becomes a used one, as a whole or after it has been split.
unfoldable pub take_block : ℕ → ℕ → Heap → Heap
take_block needed cur h =
    let b = h.blk cur in
    let next_block = cur + needed in
    let h1 =
      set_blk next_block
        record { magic = magic_number; state = free_state; prev = cur; next = b.next } h in
    let h2 = set_blk b.next (record (h1.blk b.next) { prev = next_block }) h1 in
    if ltb (size_of cur h - needed) (header_size + data_min_size)
    then set_blk cur (record b { magic = magic_number; state = used_state }) h
    else set_blk cur
        (record (h2.blk cur) { magic = magic_number; state = used_state; next = next_block }) h2

-- The loop that moves `lfree`: its test compares with the block taken, so it runs at most once
-- unless a block is its own successor.
unfoldable pub advance : ℕ → ℕ → Heap → Option Heap
advance zero cur h = none
advance (suc fuel) cur h =
    let h1 = record h { lfree = (h.blk h.lfree).next } in
    let rest = if ltb h1.lfree h.size then advance fuel cur h1 else some h1 in
    if cur == h.lfree && (h.blk h.lfree).state == used_state then rest else some h

-- `mrtk_malloc`: the address, or null
unfoldable pub malloc : ℕ → ℕ → Heap → Kernel → Option (ℕ × Heap × Kernel)
unfolding search take_block advance
malloc fuel size h k = do
  let needed = (align_up size + header_size) % 2 ^ 32
  let locked = schedule_lock k
  found ← search fuel needed h.lfree h
  elim found [
    | none ↦ some (null, h, schedule_unlock locked)
    | some cur ↦ do
      h' ← advance fuel cur (take_block needed cur h)
      some (h.base + cur + header_size, h', schedule_unlock locked)
  ]

-- The block joins the free one before it.
unfoldable pub merge_prev : ℕ → ℕ → ℕ → Heap → Heap
merge_prev prev_block block next_block h =
    let h1 = set_blk prev_block (record (h.blk prev_block) { next = (h.blk block).next }) h in
    set_blk next_block (record (h1.blk next_block) { prev = (h1.blk block).prev }) h1

-- A free block behind it joins the block.
unfoldable pub merge_next : ℕ → ℕ → Heap → Heap
merge_next block next_block h =
    let after = (h.blk next_block).next in
    let h1 = set_blk block (record (h.blk block) { next = after }) h in
    let h2 = set_blk after (record (h1.blk after) { prev = block }) h1 in
    if (h.blk next_block).state == free_state then h2 else h

abbrev pub lower : ℕ → Heap → Heap
lower block h = record h { lfree = if ltb block h.lfree then block else h.lfree }

-- The part of `mrtk_free` that gives back a block which passed the checks.
unfoldable pub free_block : ℕ → Heap → Heap
unfolding merge_prev merge_next
free_block block h =
    let b = h.blk block in
    let h1 = set_blk block (record b { state = free_state }) h in
    if (h1.blk b.prev).state == free_state
    then lower b.prev (merge_next b.prev b.next (merge_prev b.prev block b.next h1))
    else lower block (merge_next block b.next h1)

-- `mrtk_free`
unfoldable pub free : ℕ → Heap → Kernel → Heap × Kernel
unfolding free_block
free ptr h k =
    let block = (ptr + 2 ^ 32 + 2 ^ 32 - header_size - h.base) % 2 ^ 32 in
    let unlocked = schedule_unlock (schedule_lock k) in
    if ptr == null
    then (h, k)
    else if not (ltb block h.size)
        || not ((h.blk block).magic == magic_number)
        || not ((h.blk block).state == used_state)
    then (h, unlocked)
    else (free_block block h, unlocked)
