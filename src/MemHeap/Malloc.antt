-- ===== src/MemHeap/Malloc.antt =====
-- `mrtk_malloc` on a heap whose headers stand for a list of chunks.
use micro_rt_kernel.Prelude.{
  ℕ, zero, suc, ◌+◌, ◌-◌, ◌%◌, ◌^◌, ◌≤◌, ◌<◌, ◌≡◌, refl, sym, ap, ◌∙◌, inl, inr, false, Option,
  none, some, List, [], ◌∷◌, arith, ◌==◌, ltb, leb, if◌then◌else◌, Bool-cases, ==_refl, length,
}
use micro_rt_kernel.Align.{align_up, align_up-bounds}
use micro_rt_kernel.Kernel.{Kernel, null}
use micro_rt_kernel.Sched.{schedule_lock, schedule_unlock}
use micro_rt_kernel.MemHeap.{
  Block, Heap, header_size, used_state, take_block, search, advance, malloc,
}
use micro_rt_kernel.MemHeap.Chunks.{Chunk, free_chunk, used_chunk, first_fit, alloc, IsSized}
use micro_rt_kernel.MemHeap.Undo.{alloc-UsedAt, first_fit-le}
use micro_rt_kernel.MemHeap.Kept.{alloc-IsSized, alloc-IsMerged}
use micro_rt_kernel.MemHeap.Tiles.{Tiles, UsedAt-Header, take_block-Tiles, take_block-below}
use micro_rt_kernel.MemHeap.Search.{At, At-here, HeapOk, search-At}

-- Taking the block that the search has found.
module _ (h : Heap) (needed : ℕ) (small : h.size < 2 ^ 32) (room : 12 ≤ needed) where
  take-below :
      (t p o a : ℕ) (cs : List Chunk)
      → IsSized cs
      → Tiles h.blk h.size p o cs
      → first_fit needed o cs ≡ some t
      → a < o
      → (take_block needed t h).blk a ≡ h.blk a
  take-below t p o a [] s ts e lt = absurd (ground arith)
  take-below t p o a (used_chunk n ∷ cs) s ts e lt =
      take-below t o (o + n) a cs s.2 ts.1 e (omega arith)
  take-below t p o a (free_chunk n ∷ cs) s ts e lt = elim (Bool-cases (leb needed n)) [
    | inl f ↦
        let here : o ≡ t = ground arith in
        rw (← here) (take_block-below h needed p o n cs small s ts (ground arith) room a lt)
    | inr f ↦ take-below t o (o + n) a cs s.2 ts.1 (ground arith) (omega arith)
  ]

  take-Tiles :
      (t p o : ℕ) (cs : List Chunk)
      → IsSized cs
      → Tiles h.blk h.size p o cs
      → first_fit needed o cs ≡ some t
      → Tiles (take_block needed t h).blk h.size p o (alloc needed cs)
  take-Tiles t p o [] s ts e = absurd (ground arith)
  take-Tiles t p o (used_chunk n ∷ cs) s ts e =
      let same = take-below t o (o + n) o cs s.2 ts.1 e (omega (arith, s.0)) in
      (rw same ts.0, take-Tiles t o (o + n) cs s.2 ts.1 e)
  take-Tiles t p o (free_chunk n ∷ cs) s ts e = elim (Bool-cases (leb needed n)) [
    | inl f ↦
        let here : o ≡ t = ground arith in
        rw (f, ← here) (take_block-Tiles h needed p o n cs small s ts (ground arith) room)
    | inr f ↦
        let later : first_fit needed (o + n) cs ≡ some t = ground arith in
        let same = take-below t o (o + n) o cs s.2 ts.1 later (omega (arith, s.0)) in
        rw f (rw same ts.0, take-Tiles t o (o + n) cs s.2 ts.1 later)
  ]

-- Of a block that is used `lfree` moves to the one behind it.
advance-once :
    (fuel cur : ℕ) (h : Heap)
    → 2 ≤ fuel
    → (h.blk cur).state ≡ used_state
    → cur < (h.blk cur).next
    → advance fuel cur h
      ≡ some (record h { lfree = if cur == h.lfree then (h.blk cur).next else h.lfree })
unfolding advance
advance-once (suc (suc fuel)) cur h le used lt = elim (Bool-cases (cur == h.lfree)) [
  | inl e ↦
      let here : cur ≡ h.lfree = ground arith in
      let used' : (h.blk h.lfree).state ≡ used_state =
        ap (λ x. (h.blk x).state) (sym here) ∙ used in
      let next : (h.blk h.lfree).next ≡ (h.blk cur).next = ap (λ x. (h.blk x).next) (sym here) in
      ground arith
  | inr e ↦ rw e refl
]
advance-once zero cur h le used lt = absurd (omega arith)
advance-once (suc zero) cur h le used lt = absurd (omega arith)

taken-At :
    (blk : ℕ → Block) (size lf p o n : ℕ) (cs : List Chunk)
    → Tiles blk size p o (used_chunk n ∷ cs)
    → At (if o == o then (blk o).next else lf) o (used_chunk n ∷ cs)
taken-At blk size lf p o n cs ts =
    let moved : (if o == o then (blk o).next else lf) ≡ o + n = rw (==_refl o) (ts.0.3) in
    inr (refl, At-here (if o == o then (blk o).next else lf) (o + n) cs moved)

-- After an allocation no free chunk stands before `lfree` either.
advance-At :
    (blk : ℕ → Block) (size needed lf t p o : ℕ) (cs : List Chunk)
    → IsSized cs
    → At lf o cs
    → first_fit needed o cs ≡ some t
    → Tiles blk size p o (alloc needed cs)
    → At (if t == lf then (blk t).next else lf) o (alloc needed cs)
advance-At blk size needed lf t p o [] s at e ts = absurd (ground arith)
advance-At blk size needed lf t p o (used_chunk n ∷ cs) s (inl at) e ts =
    let after : o + n ≤ t = first_fit-le needed t (o + n) cs e in
    let apart : (t == lf) ≡ false = ground (arith, s.0) in rw (apart) (inl at)
advance-At blk size needed lf t p o (used_chunk n ∷ cs) s (inr at) e ts =
    inr (refl, advance-At blk size needed lf t o (o + n) cs s.2 at.1 e ts.1)
advance-At blk size needed lf t p o (free_chunk n ∷ cs) s (inr at) e ts =
    absurd (ground (arith, at.0))
advance-At blk size needed lf t p o (free_chunk n ∷ cs) s (inl at) e ts =
    elim (Bool-cases (leb needed n)) [
      | inl f ↦
          let here : o ≡ t = ground arith in
          rw (f, ← here, at)
            (elim (Bool-cases (ltb (n - needed) 24)) [
              | inl g ↦ rw g (taken-At blk size o p o n cs (rw (f, g) at ts))
              | inr g ↦
                  rw g (
                    taken-At blk size o p o needed (free_chunk (n - needed) ∷ cs) (rw (f, g) at ts))
            ])
      | inr f ↦
          let later : first_fit needed (o + n) cs ≡ some t = ground arith in
          let after : o + n ≤ t = first_fit-le needed t (o + n) cs later in
          let apart : (t == lf) ≡ false = ground (arith, s.0) in rw (f, apart) (inl at)
    ]

-- What remains of the heap record when a block is taken.
take_block-fields :
    (needed t : ℕ) (h : Heap)
    → ((take_block needed t h).size ≡ h.size)
      × ((take_block needed t h).base ≡ h.base)
      × ((take_block needed t h).lfree ≡ h.lfree)
unfolding take_block
take_block-fields needed t h = ground arith

-- The heap after the chunk that the search has found is taken.
unfoldable pub settle : ℕ → ℕ → Heap → Heap
settle needed t h =
    let h1 = take_block needed t h in
    record h1 { lfree = if t == h1.lfree then (h1.blk t).next else h1.lfree }

pub settle-base : (needed t : ℕ) (h : Heap) → (settle needed t h).base ≡ h.base
unfolding settle
settle-base needed t h = (take_block-fields needed t h).1

pub settle-HeapOk :
    (needed t : ℕ) (h : Heap) (cs : List Chunk)
    → HeapOk h cs
    → 12 ≤ needed
    → needed % 4 ≡ 0
    → first_fit needed header_size cs ≡ some t
    → HeapOk (settle needed t h) (alloc needed cs)
unfolding settle
settle-HeapOk needed t h cs ok room whole e =
    let small : h.size < 2 ^ 32 = omega (arith, ok.based, ok.ends) in
    let (size, base, lf) = take_block-fields needed t h in
    let tiles = take-Tiles h needed small room t 0 header_size cs ok.sized ok.chunks e in
    let first =
      take-below h needed small room t 0 header_size 0 cs ok.sized ok.chunks e (omega arith) in
    record {
      based = rw base ok.based;
      aligned = rw base ok.aligned;
      ends = rw (base, size) ok.ends;
      start = rw first ok.start;
      chunks = rw size tiles;
      sized = alloc-IsSized needed cs room whole ok.sized;
      merged = alloc-IsMerged needed cs ok.merged;
      lowest = rw lf (
          advance-At (take_block needed t h).blk h.size needed h.lfree t 0 header_size cs ok.sized
            ok.lowest e tiles);
    }

-- The block that a request asks for, and where it would be.
abbrev pub block_size : ℕ → ℕ
block_size size = align_up size + header_size

abbrev pub chosen : ℕ → List Chunk → Option ℕ
chosen size cs = first_fit (block_size size) header_size cs

module _ (fuel size : ℕ) (h : Heap) (k : Kernel) (cs : List Chunk) (ok : HeapOk h cs)
    (asked : size + 15 < 2 ^ 32) (le : length cs + 2 ≤ fuel) where
  needed_lem : (align_up size + header_size) % 2 ^ 32 ≡ block_size size
  needed_lem = omega (arith, align_up-bounds size)

  found_lem : search fuel ((align_up size + header_size) % 2 ^ 32) h.lfree h ≡ some (chosen size cs)
  found_lem = rw needed_lem (
      search-At fuel (block_size size) h.lfree 0 header_size h cs (omega (arith, ok.based, ok.ends))
        ok.chunks ok.lowest le)

  pub malloc-full :
      chosen size cs ≡ none
      → malloc fuel size h k ≡ some (null, h, schedule_unlock (schedule_lock k))
  unfolding malloc
  malloc-full e = rw (found_lem, e) refl

  pub malloc-granted :
      (t : ℕ)
      → chosen size cs ≡ some t
      → malloc fuel size h k
        ≡ some (
          h.base + t + header_size,
          settle (block_size size) t h,
          schedule_unlock (schedule_lock k),
        )
  unfolding malloc settle
  malloc-granted t e =
      let small : h.size < 2 ^ 32 = omega (arith, ok.based, ok.ends) in
      let tiles =
        take-Tiles h (block_size size) small (omega arith) t 0 header_size cs ok.sized ok.chunks
          e in
      let bounds = align_up-bounds size (omega arith) in
      let used =
        UsedAt-Header (take_block (block_size size) t h).blk h.size t 0 header_size
          (alloc (block_size size) cs)
          (alloc-IsSized (block_size size) cs (omega arith) (omega (arith, bounds)) ok.sized) tiles
          (alloc-UsedAt (block_size size) t header_size cs e) in
      rw
        (
          found_lem,
          e,
          needed_lem,
          advance-once fuel t (take_block (block_size size) t h) (omega arith) (used.1)
              (omega (arith, used)),
        )
        refl
