-- ===== src/MemHeap/Free.antt =====
-- `mrtk_free` on a heap whose headers stand for a list of chunks.
use mathlib.Core.Path.{subst}
use micro_rt_kernel.Prelude.{
  ℕ, ◌+◌, ◌≤◌, ◌<◌, ◌≡◌, refl, sym, ◌∙◌, inl, inr, false, ◌||◌, ◌&&◌, List, [], ◌∷◌, arith, ◌==◌,
  ltb, if◌then◌else◌, ==_refl,
}
use micro_rt_kernel.MemHeap.{Heap, header_size, free_state, merge_prev, merge_next, free_block}
use micro_rt_kernel.MemHeap.Chunks.{
  Chunk, free_chunk, used_chunk, len, is_free, release, join, UsedAt, IsSized,
}
use micro_rt_kernel.MemHeap.Kept.{release-IsMerged, release-IsSized}
use micro_rt_kernel.MemHeap.Tiles.{Tiles}
use micro_rt_kernel.MemHeap.Search.{At, At-here, HeapOk}
use micro_rt_kernel.MemHeap.Merge.{
  mark, mark-Tiles, merge_prev-Tiles, merge_prev-below, merge_next-Tiles, merge_next-below,
  free-apart, free-behind,
}

-- The start of the chunk that `release` makes.
abbrev pub opening : ℕ → ℕ → List Chunk → ℕ
opening t o [] = t
opening t o (c ∷ cs) =
    if o == t || (is_free c && o + len c == t) then o else opening t (o + len c) cs

-- What releasing the block at `t` does to the blocks from `o` on, and nothing to those before.
abbrev Freed : Heap → Heap → ℕ → ℕ → ℕ → List Chunk → Type 0
Freed g h t p o cs =
    Tiles g.blk h.size p o (release t o cs)
    × ((a : ℕ) → a < o → g.blk a ≡ h.blk a)
    × (g.lfree ≡ (if ltb (opening t o cs) h.lfree then opening t o cs else h.lfree))

merge_next-lfree : (o x : ℕ) (h : Heap) → (merge_next o x h).lfree ≡ h.lfree
unfolding merge_next
merge_next-lfree o x h = ground arith

merge_prev-lfree : (p o x : ℕ) (h : Heap) → (merge_prev p o x h).lfree ≡ h.lfree
unfolding merge_prev
merge_prev-lfree p o x h = refl

free-here :
    (h : Heap) (p o n : ℕ) (cs : List Chunk)
    → IsSized (used_chunk n ∷ cs)
    → Tiles h.blk h.size p o (used_chunk n ∷ cs)
    → p < o
    → ((h.blk p).state == free_state) ≡ false
    → Freed (free_block o h) h o p o (used_chunk n ∷ cs)
free-here h p o n cs s t lt used =
    let marked = mark-Tiles h h.size p o n cs s t in
    let tiles = merge_next-Tiles (mark o h) h.size p o n cs s marked in
    let below : (a : ℕ) → a < o → (merge_next o (o + n) (mark o h)).blk a ≡ h.blk a =
      (λ a l. ground (arith, merge_next-below (mark o h) h.size p o n a cs s marked l)) in
    let lf = merge_next-lfree o (o + n) (mark o h) in
    rw (free-apart h o p (o + n) (t.0.2) (t.0.3) lt used, ==_refl o) (tiles, below, rw lf refl)

free-with :
    (h : Heap) (p o l n : ℕ) (cs : List Chunk)
    → IsSized (free_chunk l ∷ used_chunk n ∷ cs)
    → Tiles h.blk h.size p o (free_chunk l ∷ used_chunk n ∷ cs)
    → Freed (free_block (o + l) h) h (o + l) p o (free_chunk l ∷ used_chunk n ∷ cs)
free-with h p o l n cs s t =
    let end : o + (l + n) ≡ o + l + n = omega arith in
    let apart : (o == o + l) ≡ false = ground (arith, s.0) in
    let marked : Tiles (mark (o + l) h).blk h.size p o (free_chunk l ∷ free_chunk n ∷ cs) =
      (rw apart t.0, mark-Tiles h h.size o (o + l) n cs s.2 t.1) in
    let both = merge_prev-Tiles (mark (o + l) h) h.size p o l n cs s marked in
    let h' = merge_prev o (o + l) (o + (l + n)) (mark (o + l) h) in
    let sized : IsSized (free_chunk (l + n) ∷ cs) =
      (omega (arith, s.0), omega (arith, s.1, s.2.1), s.2.2) in
    let tiles = merge_next-Tiles h' h.size p o (l + n) cs sized both in
    let below : (a : ℕ) → a < o → (merge_next o (o + (l + n)) h').blk a ≡ h.blk a = (λ a lt.
      ground (
        arith,
        merge_next-below h' h.size p o (l + n) a cs sized both lt,
        merge_prev-below (mark (o + l) h) o l n a lt,
      )) in
    let lf =
      merge_next-lfree o (o + (l + n)) h'
      ∙ merge_prev-lfree o (o + l) (o + (l + n)) (mark (o + l) h) in
    rw
      (
        free-behind h (o + l) o (o + l + n) (t.1.0.2) (t.1.0.3) (omega (arith, s.0)) (t.0.1),
        apart,
        ==_refl (o + l),
        ← end,
      )
      (tiles, below, rw lf refl)

Freed-cons :
    (g h : Heap) (t p o : ℕ) (c : Chunk) (cs : List Chunk)
    → IsSized (c ∷ cs)
    → Tiles h.blk h.size p o (c ∷ cs)
    → (o == t) ≡ false
    → (is_free c && o + len c == t) ≡ false
    → Freed g h t o (o + len c) cs
    → Freed g h t p o (c ∷ cs)
Freed-cons g h t p o c cs s ts ne ne' (tiles, below, lf) =
    rw (ne, ne')
      ((rw (below o (omega (arith, s.0))) ts.0, tiles), (λ a lt. below a (omega (arith, s.0))), lf)

-- The premise on `p`: had the released block a free one before it, it would stand in the list.
free-Freed :
    (h : Heap) (t p o : ℕ) (cs : List Chunk)
    → IsSized cs
    → Tiles h.blk h.size p o cs
    → UsedAt t o cs
    → p < o
    → (o == t && (h.blk p).state == free_state) ≡ false
    → Freed (free_block t h) h t p o cs
free-Freed h t p o [] s ts u lt ne = absurd u
free-Freed h t p o (free_chunk n ∷ cs) s ts (inl u) lt ne = absurd (ground (arith, u.1))
free-Freed h t p o (used_chunk n ∷ cs) s ts (inl u) lt ne =
    subst (λ x. Freed (free_block x h) h x p o (used_chunk n ∷ cs)) (sym (u.0))
      (free-here h p o n cs s ts lt (ground (arith, u.0)))
free-Freed h t p o (used_chunk n ∷ cs) s ts (inr u) lt ne =
    let rest =
      free-Freed h t o (o + n) cs s.2 ts.1 u.1 (omega (arith, s.0)) (ground (arith, ts.0.1)) in
    Freed-cons (free_block t h) h t p o (used_chunk n) cs s ts (ground (arith, u.0, s.0)) refl rest
free-Freed h t p o (free_chunk l ∷ []) s ts (inr u) lt ne = absurd u.1
free-Freed h t p o (free_chunk l ∷ free_chunk n ∷ cs) s ts (inr (le, inl u)) lt ne =
    absurd (ground (arith, u.1))
free-Freed h t p o (free_chunk l ∷ used_chunk n ∷ cs) s ts (inr (le, inl u)) lt ne =
    subst (λ x. Freed (free_block x h) h x p o (free_chunk l ∷ used_chunk n ∷ cs)) (sym (u.0))
      (free-with h p o l n cs s ts)
free-Freed h t p o (free_chunk l ∷ c ∷ cs) s ts (inr (le, inr u)) lt ne =
    let far : (o + l == t) ≡ false = ground (arith, u.0, s.2.0) in
    let rest =
      free-Freed h t o (o + l) (c ∷ cs) s.2 ts.1 (inr u) (omega (arith, s.0)) (rw far refl) in
    Freed-cons (free_block t h) h t p o (free_chunk l) (c ∷ cs) s ts (ground (arith, le, s.0))
      (rw far refl) rest

UsedAt-le : (t o : ℕ) (cs : List Chunk) → UsedAt t o cs → o ≤ t
UsedAt-le t o [] u = absurd u
UsedAt-le t o (c ∷ cs) (inl u) = omega (arith, u.0)
UsedAt-le t o (c ∷ cs) (inr u) = omega (arith, u.0)

opening-le : (t o : ℕ) (cs : List Chunk) → UsedAt t o cs → o ≤ opening t o cs
opening-le t o [] u = absurd u
opening-le t o (c ∷ cs) (inl u) = rw (u.0, ==_refl o) (omega arith)
opening-le t o (c ∷ cs) (inr u) = let rest = opening-le t (o + len c) cs u.1 in ground arith

At-le : (lf o : ℕ) (cs : List Chunk) → At lf o cs → o ≤ lf
At-le lf o [] at = omega arith
At-le lf o (c ∷ cs) (inl at) = omega arith
At-le lf o (c ∷ cs) (inr at) = omega (arith, At-le lf (o + len c) cs at.1)

-- After a release no free chunk stands before `lfree` either.
lower-At :
    (lf t o : ℕ) (cs : List Chunk)
    → IsSized cs
    → At lf o cs
    → UsedAt t o cs
    → At (if ltb (opening t o cs) lf then opening t o cs else lf) o (release t o cs)
lower-At lf t o [] s at u = absurd u
lower-At lf t o (c ∷ cs) s (inl at) u =
    let above = opening-le t o (c ∷ cs) u in
    let here : (if ltb (opening t o (c ∷ cs)) lf then opening t o (c ∷ cs) else lf) ≡ o =
      ground arith in
    At-here (if ltb (opening t o (c ∷ cs)) lf then opening t o (c ∷ cs) else lf) o
      (release t o (c ∷ cs)) here
lower-At lf t o (free_chunk n ∷ cs) s (inr at) u = absurd (ground (arith, at.0))
lower-At lf t o (used_chunk n ∷ cs) s (inr at) (inl u) =
    let above = At-le lf (o + n) cs at.1 in
    let here : (if ltb o lf then o else lf) ≡ o = ground (arith, s.0) in
    rw (u.0, ==_refl o) (At-here (if ltb o lf then o else lf) o (join n cs) here)
lower-At lf t o (used_chunk n ∷ cs) s (inr at) (inr u) =
    let ne : (o == t) ≡ false = ground (arith, u.0, s.0) in
    rw ne (inr (refl, lower-At lf t (o + n) cs s.2 at.1 u.1))

pub free_block-fields :
    (t : ℕ) (h : Heap) → ((free_block t h).size ≡ h.size) × ((free_block t h).base ≡ h.base)
unfolding free_block merge_prev merge_next
free_block-fields t h = ground arith

pub free_block-HeapOk :
    (t : ℕ) (h : Heap) (cs : List Chunk)
    → HeapOk h cs
    → UsedAt t header_size cs
    → HeapOk (free_block t h) (release t header_size cs)
free_block-HeapOk t h cs ok u =
    let first : (header_size == t && (h.blk 0).state == free_state) ≡ false =
      ground (arith, ok.start) in
    let (tiles, below, lf) =
      free-Freed h t 0 header_size cs ok.sized ok.chunks u (omega arith) first in
    let (size, base) = free_block-fields t h in
    record {
      based = rw base ok.based;
      aligned = rw base ok.aligned;
      ends = rw (base, size) ok.ends;
      start = rw (below 0 (omega arith)) ok.start;
      chunks = rw size tiles;
      sized = release-IsSized t header_size cs ok.sized;
      merged = release-IsMerged t header_size cs ok.merged;
      lowest = rw lf (lower-At h.lfree t header_size cs ok.sized ok.lowest u);
    }
