-- ===== src/MemHeap/Refinement.antt =====
-- The operations of the heap against the list of chunks.
use mathlib.Core.Path.{subst}
use micro_rt_kernel.Prelude.{
  ℕ, ◌+◌, ◌-◌, ◌%◌, ◌^◌, ◌≤◌, ◌<◌, ◌≡◌, refl, sym, ◌∙◌, ◌≢◌, true, false, Option, none, some, List,
  arith, ◌==◌, ltb, length,
}
use micro_rt_kernel.Align.{align_up-bounds}
use micro_rt_kernel.Kernel.{Kernel, null}
use micro_rt_kernel.Sched.{schedule_lock, schedule_unlock}
use micro_rt_kernel.MemHeap.{Heap, header_size, malloc, free, free_block}
use micro_rt_kernel.MemHeap.Chunks.{Chunk, IsMerged, IsSized, release, alloc, UsedAt}
use micro_rt_kernel.MemHeap.Undo.{alloc-UsedAt, release-alloc}
use micro_rt_kernel.MemHeap.Tiles.{UsedAt-Header}
use micro_rt_kernel.MemHeap.Malloc.{
  block_size, chosen, settle, settle-HeapOk, settle-base, malloc-full, malloc-granted,
}
use micro_rt_kernel.MemHeap.Search.{HeapOk}
use micro_rt_kernel.MemHeap.Free.{free_block-HeapOk, free_block-fields}

-- What a request returns: null and no change without a chunk that fits, or the data of the first
-- one that does.
abbrev pub Granted : ℕ → ℕ → Heap → Kernel → List Chunk → Option ℕ → Type 0
Granted fuel size h k cs none =
    malloc fuel size h k ≡ some (null, h, schedule_unlock (schedule_lock k))
Granted fuel size h k cs (some t) =
    (h' : Heap) × (malloc fuel size h k
      ≡ some (h.base + t + header_size, h', schedule_unlock (schedule_lock k)))
    × HeapOk h' (alloc (block_size size) cs)
    × (h'.base ≡ h.base)

granted :
    (fuel size : ℕ) (h : Heap) (k : Kernel) (cs : List Chunk)
    → HeapOk h cs
    → size + 15 < 2 ^ 32
    → length cs + 2 ≤ fuel
    → (found : Option ℕ) → chosen size cs ≡ found
    → Granted fuel size h k cs found
granted fuel size h k cs ok small le none e = malloc-full fuel size h k cs ok small le e
granted fuel size h k cs ok small le (some t) e =
    let bounds = align_up-bounds size (omega arith) in
    (
      settle (block_size size) t h,
      malloc-granted fuel size h k cs ok small le t e,
      settle-HeapOk (block_size size) t h cs ok (omega arith) (omega (arith, bounds)) e,
      settle-base (block_size size) t h,
    )

-- On a heap made of the chunks `cs`, with fuel for two steps more than there are chunks, a request
-- of a size that does not wrap is answered by first fit: if no free chunk is large enough the result
-- is null and the heap is as before, else it is the data address of the first that is, and the heap
-- is made of the chunks that result from taking it, split if enough is left.
pub malloc-HeapOk :
    (fuel size : ℕ) (h : Heap) (k : Kernel) (cs : List Chunk)
    → HeapOk h cs
    → size + 15 < 2 ^ 32
    → length cs + 2 ≤ fuel
    → Granted fuel size h k cs (chosen size cs)
malloc-HeapOk fuel size h k cs ok small le =
    granted fuel size h k cs ok small le (chosen size cs) refl

free-block :
    (t : ℕ) (h : Heap) (k : Kernel) (cs : List Chunk)
    → HeapOk h cs
    → UsedAt t header_size cs
    → free (h.base + t + header_size) h k ≡ (free_block t h, schedule_unlock (schedule_lock k))
unfolding free
free-block t h k cs ok u =
    let (magic, used, lo, nx, hi) =
      UsedAt-Header h.blk h.size t 0 header_size cs ok.sized ok.chunks u in
    let size : h.size < 2 ^ 32 = omega (arith, ok.based, ok.ends) in
    let block : (h.base + t + header_size + 2 ^ 32 + 2 ^ 32 - header_size - h.base) % 2 ^ 32 ≡ t =
      omega (arith, nx, hi) in
    let inside : ltb t h.size ≡ true = ground (arith, nx, hi) in
    let real : (h.base + t + header_size == null) ≡ false = ground arith in
    rw (block, real, inside, magic, used) refl

-- On a heap made of the chunks `cs`, freeing the data address of a used chunk gives a heap made of
-- the chunks in which that one is free and is one with the free chunks on both sides of it; the
-- scheduler is locked and unlocked.
pub free-HeapOk :
    (t : ℕ) (h : Heap) (k : Kernel) (cs : List Chunk)
    → HeapOk h cs
    → UsedAt t header_size cs
    → HeapOk (free (h.base + t + header_size) h k).0 (release t header_size cs)
      × ((free (h.base + t + header_size) h k).1 ≡ schedule_unlock (schedule_lock k))
free-HeapOk t h k cs ok u = rw (free-block t h k cs ok u) (free_block-HeapOk t h cs ok u, refl)

-- A request that was granted took the first chunk that fits.
pub malloc-chosen :
    (fuel size a : ℕ) (h h' : Heap) (k k' : Kernel) (cs : List Chunk)
    → HeapOk h cs
    → size + 15 < 2 ^ 32
    → length cs + 2 ≤ fuel
    → malloc fuel size h k ≡ some (a, h', k')
    → a ≢ null
    → (t : ℕ) × (chosen size cs ≡ some t)
      × (a ≡ h.base + t + header_size)
      × HeapOk h' (alloc (block_size size) cs)
      × (h'.base ≡ h.base)
malloc-chosen fuel size a h h' k k' cs ok small le e real =
    took (chosen size cs) refl (malloc-HeapOk fuel size h k cs ok small le)
  where
    took :
        (found : Option ℕ)
        → chosen size cs ≡ found
        → Granted fuel size h k cs found
        → (t : ℕ) × (chosen size cs ≡ some t)
          × (a ≡ h.base + t + header_size)
          × HeapOk h' (alloc (block_size size) cs)
          × (h'.base ≡ h.base)
    took none c g = absurd (ground (arith, sym e ∙ g))
    took (some t) c (g, m, fine, base) =
        let same : h' ≡ g = ground (arith, sym e ∙ m) in
        rw same (t, c, ground (arith, sym e ∙ m), fine, base)

pub free-base : (a : ℕ) (h : Heap) (k : Kernel) → (free a h k).0.base ≡ h.base
unfolding free
free-base a h k =
    let block = (a + 2 ^ 32 + 2 ^ 32 - header_size - h.base) % 2 ^ 32 in
    let same = (free_block-fields block h).1 in ground (arith, same)

-- Freeing the chunk that an allocation took, in whatever state the heap's memory is.
pub free-alloc :
    (size t : ℕ) (h : Heap) (k : Kernel) (cs : List Chunk)
    → IsMerged cs
    → IsSized cs
    → chosen size cs ≡ some t
    → HeapOk h (alloc (block_size size) cs)
    → HeapOk (free (h.base + t + header_size) h k).0 cs
free-alloc size t h k cs merged sized c ok =
    let needed = block_size size in
    let (r, u) = free-HeapOk t h k (alloc needed cs) ok (alloc-UsedAt needed t header_size cs c) in
    rw (release-alloc needed t header_size cs merged sized c) at r

-- A block that was granted, freed: whatever the kernel's state is then, the heap is made of the same
-- chunks as before the request.
pub free-malloc :
    (fuel size a : ℕ) (h h' : Heap) (k k' k2 : Kernel) (cs : List Chunk)
    → HeapOk h cs
    → size + 15 < 2 ^ 32
    → length cs + 2 ≤ fuel
    → malloc fuel size h k ≡ some (a, h', k')
    → a ≢ null
    → HeapOk (free a h' k2).0 cs
free-malloc fuel size a h h' k k' k2 cs ok small le e real =
    let (t, c, addr, fine, base) = malloc-chosen fuel size a h h' k k' cs ok small le e real in
    let at : h'.base + t + header_size ≡ a = ground (arith, base) in
    subst (λ x. HeapOk (free x h' k2).0 cs) at
      (free-alloc size t h' k2 cs ok.merged ok.sized c fine)
