-- ===== src/MemHeap/Start.antt =====
-- `mrtk_heap_init`: the heap that it makes.
use micro_rt_kernel.Prelude.{
  ℕ, ◌+◌, ◌-◌, ◌%◌, ◌^◌, ◌≤◌, ◌<◌, ◌≡◌, refl, ◌⊎◌, inl, inr, [], ◌∷◌, arith, ltb, if◌then◌else◌,
  Bool-cases, ==_refl,
}
use micro_rt_kernel.Align.{align_up, align_down, align_up-bounds}
use micro_rt_kernel.Kernel.{Err, eok, error}
use micro_rt_kernel.MemHeap.{
  Heap, header_size, magic_number, dummy_state, free_state, set_blk, heap_init,
}
use micro_rt_kernel.MemHeap.Chunks.{free_chunk}
use micro_rt_kernel.MemHeap.Search.{HeapOk}

-- The heap that is set up, with its three headers.
abbrev pub laid : ℕ → ℕ → Heap → Heap
laid base size h =
    let last = size - header_size in
    let h1 = record h { base = base; size = size; lfree = header_size } in
    let h2 =
      set_blk 0 record { magic = magic_number; state = dummy_state; prev = 0; next = header_size }
        h1 in
    let h3 =
      set_blk header_size record { magic = magic_number; state = free_state; prev = 0; next = last }
        h2 in
    set_blk last
      record { magic = magic_number; state = dummy_state; prev = header_size; next = size } h3

pub laid-HeapOk :
    (base size : ℕ) (h : Heap)
    → 0 < base
    → base % 4 ≡ 0
    → base + size ≤ 2 ^ 32
    → 48 ≤ size
    → size % 4 ≡ 0
    → HeapOk (laid base size h) (free_chunk (size - 24) ∷ [])
laid-HeapOk base size h above al le room whole =
    let end : header_size + (size - 24) ≡ size - 12 = omega arith in
    record {
      based = above;
      aligned = al;
      ends = le;
      start = ground arith;
      chunks = rw end (ground arith, (ground (arith, ==_refl (size - 12)), omega arith));
      sized = (omega arith, omega arith, tt);
      merged = (refl, tt);
      lowest = inl refl;
    }

heap_init-cases :
    (base begin_ptr end_ptr size : ℕ) (h : Heap)
    → align_up begin_ptr ≡ base
    → (align_down end_ptr + 2 ^ 32 - base) % 2 ^ 32 ≡ size
    → heap_init begin_ptr end_ptr h ≡ (if ltb size 48 then (error, h) else (eok, laid base size h))
unfolding heap_init
heap_init-cases base begin_ptr end_ptr size h e f = rw (e, f) refl

-- What `mrtk_heap_init` promises of a region of `size` bytes.
abbrev pub Started : ℕ → Heap → Err × Heap → Type 0
Started size h r =
    ((48 ≤ size) × (r.0 ≡ eok) × HeapOk r.1 (free_chunk (size - 24) ∷ []))
    ⊎ ((size < 48) × (r ≡ (error, h)))

-- Of a region that starts above address 0, does not wrap and is not empty once its two ends are
-- aligned: with room for three headers and 12 bytes the result is `MRTK_EOK` and the heap is one
-- free chunk between two sentinels, otherwise it is `MRTK_ERROR` and nothing changes.
pub heap_init-HeapOk :
    (begin_ptr end_ptr : ℕ) (h : Heap)
    → 0 < begin_ptr
    → begin_ptr + 3 < 2 ^ 32
    → end_ptr < 2 ^ 32
    → align_up begin_ptr ≤ align_down end_ptr
    → Started (align_down end_ptr - align_up begin_ptr) h (heap_init begin_ptr end_ptr h)
heap_init-HeapOk begin_ptr end_ptr h above small end le =
    let up = align_up-bounds begin_ptr small in
    let down : (align_down end_ptr ≤ end_ptr) × (align_down end_ptr % 4 ≡ 0) =
      unfold align_down in omega arith in
    let base = align_up begin_ptr in
    let size = align_down end_ptr - align_up begin_ptr in
    let wrapped : (align_down end_ptr + 2 ^ 32 - base) % 2 ^ 32 ≡ size = omega (arith, down) in
    rw (heap_init-cases base begin_ptr end_ptr size h refl wrapped)
      (elim (Bool-cases (ltb size 48)) [
        | inl e ↦ rw e (inr (ground arith, refl))
        | inr e ↦ rw e (
            inl (
              ground arith,
              refl,
              laid-HeapOk base size h (omega (arith, up)) (up.2) (omega (arith, down))
                  (ground arith) (omega (arith, up, down)),
            ))
      ])
