-- ===== src/Examples/Memory.antt =====
-- The theorems on the heap at a region of 128 bytes with one used chunk.
use micro_rt_kernel.Prelude.{ℕ, ◌+◌, ◌*◌, ◌%◌, ◌≤◌, ◌⊎◌, ◌≡◌, refl, inl, some, List, [], ◌∷◌, arith}
use micro_rt_kernel.Align.{align_up, align_down}
use micro_rt_kernel.Sched.{schedule_lock, schedule_unlock}
use micro_rt_kernel.MemHeap.{Heap, malloc, take_block, free, heap_init}
use micro_rt_kernel.MemHeap.Chunks.{Chunk, free_chunk, used_chunk, alloc}
use micro_rt_kernel.MemHeap.Spans.{SpanAt}
use micro_rt_kernel.MemHeap.Malloc.{block_size, chosen, settle, settle-HeapOk, malloc-granted}
use micro_rt_kernel.MemHeap.Search.{HeapOk}
use micro_rt_kernel.MemHeap.Refinement.{Granted, malloc-HeapOk, free-HeapOk, free-malloc}
use micro_rt_kernel.MemHeap.Bounds.{malloc-bounds, malloc-SpanAt}
use micro_rt_kernel.MemHeap.Start.{Started, heap_init-HeapOk, laid, laid-HeapOk}
use micro_rt_kernel.Examples.{busy}

abbrev pub blank : Heap
blank = record {
  base = 0;
  size = 0;
  lfree = 0;
  blk = λ a. record { magic = 0; state = 0; prev = 0; next = 0 };
}

abbrev pub chunks : List Chunk
chunks = used_chunk 24 ∷ free_chunk 80 ∷ []

abbrev pub heap : Heap
heap = settle 24 12 (laid 4096 128 blank)

pub heap-HeapOk : HeapOk heap chunks
heap-HeapOk =
    settle-HeapOk 24 12 (laid 4096 128 blank) (free_chunk 104 ∷ [])
      (laid-HeapOk 4096 128 blank (omega arith) refl (omega arith) (omega arith) refl) (omega arith)
      refl refl

pub chosen-some : chosen 20 chunks ≡ some 36
unfolding align_up
chosen-some = refl

pub malloc-some :
    malloc 4 20 heap busy
    ≡ some (4144, settle (block_size 20) 36 heap, schedule_unlock (schedule_lock busy))
unfolding settle take_block
malloc-some =
    malloc-granted 4 20 heap busy chunks heap-HeapOk (omega arith) (omega arith) 36 chosen-some

heap_init-HeapOk_example : Started 128 blank (heap_init 4094 4226 blank)
unfolding align_up align_down
heap_init-HeapOk_example =
    heap_init-HeapOk 4094 4226 blank (omega arith) (omega arith) (omega arith) (omega arith)

malloc-HeapOk_example : Granted 4 20 heap busy chunks (chosen 20 chunks)
malloc-HeapOk_example = malloc-HeapOk 4 20 heap busy chunks heap-HeapOk (omega arith) (omega arith)

free-HeapOk_example :
    HeapOk (free 4120 heap busy).0 (free_chunk 104 ∷ [])
    × ((free 4120 heap busy).1 ≡ schedule_unlock (schedule_lock busy))
unfolding settle take_block
free-HeapOk_example = free-HeapOk 12 heap busy chunks heap-HeapOk (inl (refl, refl))

free-malloc_example : HeapOk (free 4144 (settle (block_size 20) 36 heap) busy).0 chunks
unfolding settle take_block
free-malloc_example =
    free-malloc 4 20 4144 heap (settle (block_size 20) 36 heap) busy
      (schedule_unlock (schedule_lock busy)) busy chunks heap-HeapOk (omega arith) (omega arith)
      malloc-some (λ e. absurd (omega (arith, e)))

malloc-bounds_example :
    ◌≡◌ {A = ℕ} (4144 % 4) 0
    × (4096 + 2 * 12 ≤ 4144)
    × (4144 + 20 + 12 ≤ 4096 + (settle (block_size 20) 36 heap).size)
    × ((settle (block_size 20) 36 heap).base ≡ 4096)
unfolding settle take_block
malloc-bounds_example =
    malloc-bounds 4 20 4144 heap (settle (block_size 20) 36 heap) busy
      (schedule_unlock (schedule_lock busy)) chunks heap-HeapOk (omega arith) (omega arith)
      malloc-some (λ e. absurd (omega (arith, e)))

malloc-SpanAt_example :
    HeapOk (settle (block_size 20) 36 heap) (alloc (block_size 20) chunks)
    × SpanAt 12 24 12 (alloc (block_size 20) chunks)
    × ((4144 + 20 ≤ 4096 + 12) ⊎ (4096 + 12 + 24 + 12 ≤ 4144))
unfolding settle take_block
malloc-SpanAt_example =
    malloc-SpanAt 4 20 4144 12 24 heap (settle (block_size 20) 36 heap) busy
      (schedule_unlock (schedule_lock busy)) chunks heap-HeapOk (omega arith) (omega arith)
      malloc-some (λ e. absurd (omega (arith, e))) (inl (refl, refl))
