-- ===== src/MemHeap/Search.antt =====
-- A heap whose headers stand for a list of chunks, and the search of `mrtk_malloc` on it.
use micro_rt_kernel.Prelude.{
  ℕ, zero, suc, ◌+◌, ◌-◌, ◌%◌, ◌^◌, ◌≤◌, ◌<◌, ◌≡◌, refl, ◌⊎◌, inl, inr, true, false, some, List, [],
  ◌∷◌, arith, ltb, length,
}
use micro_rt_kernel.MemHeap.{Heap, header_size, dummy_state, search}
use micro_rt_kernel.MemHeap.Chunks.{
  Chunk, free_chunk, used_chunk, len, is_free, first_fit, IsSized, IsMerged,
}
use micro_rt_kernel.MemHeap.Tiles.{Tiles, Header, Tiles-bound}

-- `lfree` stands at a chunk, or at the sentinel behind them, and no free chunk stands before it.
abbrev pub At : ℕ → ℕ → List Chunk → Type 0
At lf o [] = lf ≡ o
At lf o (c ∷ cs) = (lf ≡ o) ⊎ ((is_free c ≡ false) × At lf (o + len c) cs)

pub At-here : (lf o : ℕ) (cs : List Chunk) → lf ≡ o → At lf o cs
At-here lf o [] e = e
At-here lf o (c ∷ cs) e = inl e

-- The heap is made of these chunks, between its two sentinels.
pub record HeapOk (h : Heap) (cs : List Chunk) : Type 0 where
  pub based : 0 < h.base
  pub aligned : h.base % 4 ≡ 0
  pub ends : h.base + h.size ≤ 2 ^ 32
  pub start : Header (h.blk 0) dummy_state 0 header_size
  pub chunks : Tiles h.blk h.size 0 header_size cs
  pub sized : IsSized cs
  pub merged : IsMerged cs
  pub lowest : At h.lfree header_size cs

pub search-first_fit :
    (fuel needed p o : ℕ) (h : Heap) (cs : List Chunk)
    → h.size < 2 ^ 32
    → Tiles h.blk h.size p o cs
    → length cs + 2 ≤ fuel
    → search fuel needed o h ≡ some (first_fit needed o cs)
unfolding search
search-first_fit (suc (suc fuel)) needed p o h [] small t le =
    let at : ltb o h.size ≡ true = ground (arith, t.1) in
    let beyond : ltb h.size h.size ≡ false = ground arith in rw (at, t.0.1, t.0.3, beyond) refl
search-first_fit (suc fuel) needed p o h (used_chunk n ∷ cs) small t le =
    let end : o + n + 12 ≤ h.size = Tiles-bound h.blk h.size o (o + n) cs t.1 in
    let at : ltb o h.size ≡ true = ground arith in
    rw (at, t.0.1, t.0.3) (search-first_fit fuel needed o (o + n) h cs small t.1 (omega arith))
search-first_fit (suc fuel) needed p o h (free_chunk n ∷ cs) small t le =
    let end : o + n + 12 ≤ h.size = Tiles-bound h.blk h.size o (o + n) cs t.1 in
    let at : ltb o h.size ≡ true = ground arith in
    let size : (o + n + 2 ^ 32 - o) % 2 ^ 32 ≡ n = omega arith in
    let rest = search-first_fit fuel needed o (o + n) h cs small t.1 (omega arith) in
    rw (at, t.0.1, t.0.3, size) (ground (arith, rest))
search-first_fit zero needed p o h cs small t le = absurd (omega arith)
search-first_fit (suc zero) needed p o h [] small t le = absurd (omega arith)

-- The search may start at `lfree`.
pub search-At :
    (fuel needed lf p o : ℕ) (h : Heap) (cs : List Chunk)
    → h.size < 2 ^ 32
    → Tiles h.blk h.size p o cs
    → At lf o cs
    → length cs + 2 ≤ fuel
    → search fuel needed lf h ≡ some (first_fit needed o cs)
search-At fuel needed lf p o h [] small t at le =
    rw at (search-first_fit fuel needed p o h [] small t le)
search-At fuel needed lf p o h (c ∷ cs) small t (inl e) le =
    rw e (search-first_fit fuel needed p o h (c ∷ cs) small t le)
search-At fuel needed lf p o h (used_chunk n ∷ cs) small t (inr at) le =
    search-At fuel needed lf o (o + n) h cs small t.1 at.1 (omega arith)
search-At fuel needed lf p o h (free_chunk n ∷ cs) small t (inr at) le =
    absurd (ground (arith, at.0))
