-- ===== src/MemHeap/Bounds.antt =====
-- Where the blocks of `mrtk_malloc` lie.
use micro_rt_kernel.Prelude.{
  ℕ, ◌+◌, ◌*◌, ◌%◌, ◌^◌, ◌≤◌, ◌<◌, ◌≡◌, refl, ◌≢◌, ◌⊎◌, inl, inr, some, List, arith, length,
}
use micro_rt_kernel.Align.{align_up-bounds}
use micro_rt_kernel.Kernel.{Kernel, null}
use micro_rt_kernel.MemHeap.{Heap, header_size, malloc}
use micro_rt_kernel.MemHeap.Chunks.{Chunk, alloc}
use micro_rt_kernel.MemHeap.Spans.{SpanAt, alloc-SpanAt, first_fit-SpanAt, SpanAt-bounds}
use micro_rt_kernel.MemHeap.Malloc.{block_size}
use micro_rt_kernel.MemHeap.Search.{HeapOk}
use micro_rt_kernel.MemHeap.Refinement.{malloc-chosen}

-- The block that a request of `size` bytes was granted, on a heap made of the chunks `cs` and with
-- fuel for two steps more than there are chunks: its address is a multiple of 4, it lies behind the
-- first sentinel and a header, and its `size` bytes end before the sentinel at the end of the heap.
-- The heap that results has not moved.
pub malloc-bounds :
    (fuel size a : ℕ) (h h' : Heap) (k k' : Kernel) (cs : List Chunk)
    → HeapOk h cs
    → size + 15 < 2 ^ 32
    → length cs + 2 ≤ fuel
    → malloc fuel size h k ≡ some (a, h', k')
    → a ≢ null
    → (a % 4 ≡ 0)
      × (h.base + 2 * header_size ≤ a)
      × (a + size + header_size ≤ h.base + h'.size)
      × (h'.base ≡ h.base)
malloc-bounds fuel size a h h' k k' cs ok small le e real =
    let (t, c, addr, fine, base) = malloc-chosen fuel size a h h' k k' cs ok small le e real in
    let needed = block_size size in
    let bounds = align_up-bounds size (omega arith) in
    let (n, room, span) = first_fit-SpanAt needed t header_size cs c in
    let inside =
      SpanAt-bounds h'.blk h'.size t n 0 header_size (alloc needed cs) fine.sized fine.chunks refl
        span in
    (omega (arith, inside, ok.aligned), omega (arith, inside), omega (arith, inside, bounds), base)

-- Under the same conditions a chunk of `n` bytes at `x` that was used before the request is still
-- used, with the same extent, and shares no byte with the granted block: the bytes asked for end
-- before it, or the block's own header starts behind it.
pub malloc-SpanAt :
    (fuel size a x n : ℕ) (h h' : Heap) (k k' : Kernel) (cs : List Chunk)
    → HeapOk h cs
    → size + 15 < 2 ^ 32
    → length cs + 2 ≤ fuel
    → malloc fuel size h k ≡ some (a, h', k')
    → a ≢ null
    → SpanAt x n header_size cs
    → HeapOk h' (alloc (block_size size) cs)
      × SpanAt x n header_size (alloc (block_size size) cs)
      × ((a + size ≤ h.base + x) ⊎ (h.base + x + n + header_size ≤ a))
malloc-SpanAt fuel size a x n h h' k k' cs ok small le e real u =
    let (t, c, addr, fine, base) = malloc-chosen fuel size a h h' k k' cs ok small le e real in
    let bounds = align_up-bounds size (omega arith) in
    let (kept, apart) = alloc-SpanAt (block_size size) t x n header_size cs c u in
    let apart' : (a + size ≤ h.base + x) ⊎ (h.base + x + n + header_size ≤ a) = elim apart [
      | inl l ↦ inl (omega (arith, bounds))
      | inr l ↦ inr (omega arith)
    ] in
    (fine, kept, apart')
