-- ===== src/Examples/Creation.antt =====
-- The theorems on the creation of kernel objects at the heap of the examples on memory.
use micro_rt_kernel.Prelude.{◌≡◌, refl, true, none, some, arith}
use micro_rt_kernel.Align.{align_up}
use micro_rt_kernel.Kernel.{Kernel, null}
use micro_rt_kernel.Sched.{schedule_lock, schedule_unlock}
use micro_rt_kernel.MemHeap.{Heap, malloc, free, take_block}
use micro_rt_kernel.MemHeap.Chunks.{alloc}
use micro_rt_kernel.MemHeap.Malloc.{
  block_size, chosen, settle, settle-HeapOk, malloc-granted, malloc-full,
}
use micro_rt_kernel.MemHeap.Search.{HeapOk}
use micro_rt_kernel.Dynamic.{create_two, task_create}
use micro_rt_kernel.Dynamic.Leak.{task_create-null}
use micro_rt_kernel.Examples.{busy}
use micro_rt_kernel.Examples.Memory.{heap, chunks, heap-HeapOk, chosen-some}

abbrev locked : Kernel → Kernel
locked k = schedule_unlock (schedule_lock k)

abbrev split_heap : Heap
split_heap = settle (block_size 20) 36 heap

chosen-none : chosen 200 (alloc (block_size 20) chunks) ≡ none
unfolding align_up
chosen-none = refl

split_heap-HeapOk : HeapOk split_heap (alloc (block_size 20) chunks)
unfolding align_up
split_heap-HeapOk =
    settle-HeapOk (block_size 20) 36 heap chunks heap-HeapOk (omega arith) (omega arith) chosen-some

-- The control block is granted, the stack of 200 bytes is not.
stack-refused :
    malloc 5 200 split_heap (locked busy) ≡ some (null, split_heap, locked (locked busy))
unfolding align_up
stack-refused =
    malloc-full 5 200 split_heap (locked busy) (alloc (block_size 20) chunks) split_heap-HeapOk
      (omega arith) (omega arith) chosen-none

granted : malloc 5 20 heap busy ≡ some (4144, split_heap, locked busy)
unfolding settle take_block
granted =
    malloc-granted 5 20 heap busy chunks heap-HeapOk (omega arith) (omega arith) 36 chosen-some

task-refused :
    task_create 5 20 true 200 4 0 heap busy
    ≡ some (
      none,
      (free 4144 split_heap (locked (locked busy))).0,
      (free 4144 split_heap (locked (locked busy))).1,
    )
unfolding task_create create_two
task-refused = rw (granted, stack-refused) refl

task_create-null_example : HeapOk (free 4144 split_heap (locked (locked busy))).0 chunks
task_create-null_example =
    task_create-null 5 20 true 200 4 0 heap (free 4144 split_heap (locked (locked busy))).0 busy
      (free 4144 split_heap (locked (locked busy))).1 chunks heap-HeapOk (omega arith) (omega arith)
      (omega arith) task-refused
