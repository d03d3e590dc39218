-- ===== src/MemHeap/Merge.antt =====
-- The two merges of `mrtk_free` on the headers.
use mathlib.Core.Path.{subst}
use micro_rt_kernel.Prelude.{
  ℕ, ◌+◌, ◌<◌, ◌≡◌, refl, sym, false, List, [], ◌∷◌, arith, ◌==◌, if◌then◌else◌, ==_refl,
}
use micro_rt_kernel.MemHeap.{
  Heap, free_state, used_state, set_blk, merge_prev, merge_next, lower, free_block,
}
use micro_rt_kernel.MemHeap.Chunks.{Chunk, free_chunk, used_chunk, join, IsSized}
use micro_rt_kernel.MemHeap.Tiles.{Tiles, Tiles-frame, Tiles-prev}

-- The state of the block at `t` becomes free.
abbrev pub mark : ℕ → Heap → Heap
mark t h = set_blk t (record (h.blk t) { state = free_state }) h

pub mark-Tiles :
    (h : Heap) (size p o n : ℕ) (cs : List Chunk)
    → IsSized (used_chunk n ∷ cs)
    → Tiles h.blk size p o (used_chunk n ∷ cs)
    → Tiles (mark o h).blk size p o (free_chunk n ∷ cs)
mark-Tiles h size p o n cs s t =
    let rest =
      Tiles-frame h.blk (mark o h).blk size o (o + n) cs s.2 t.1 (λ a l. ground (arith, s.0)) in
    (ground (arith, ==_refl o), rest)

pub merge_prev-Tiles :
    (h : Heap) (size p o l n : ℕ) (cs : List Chunk)
    → IsSized (free_chunk l ∷ free_chunk n ∷ cs)
    → Tiles h.blk size p o (free_chunk l ∷ free_chunk n ∷ cs)
    → Tiles (merge_prev o (o + l) (o + (l + n)) h).blk size p o (free_chunk (l + n) ∷ cs)
unfolding merge_prev
merge_prev-Tiles h size p o l n cs s t =
    let end : o + l + n ≡ o + (l + n) = omega arith in
    let rest : Tiles (merge_prev o (o + l) (o + (l + n)) h).blk size o (o + l + n) cs =
      Tiles-prev h.blk (merge_prev o (o + l) (o + (l + n)) h).blk size (o + l) o (o + l + n) cs
        s.2.2 t.1.1 (ground (arith, s.0, s.2.0)) (λ a le. ground (arith, s.0, s.2.0)) in
    (
      ground (arith, ==_refl o, s.0, s.2.0),
      subst (λ x. Tiles (merge_prev o (o + l) (o + (l + n)) h).blk size o x cs) end rest,
    )

pub merge_prev-below :
    (h : Heap) (o l n a : ℕ) → a < o → (merge_prev o (o + l) (o + (l + n)) h).blk a ≡ h.blk a
unfolding merge_prev
merge_prev-below h o l n a lt = ground arith

merge_next-same : (h : Heap) (o x : ℕ) → (h.blk x).state ≡ used_state → merge_next o x h ≡ h
unfolding merge_next
merge_next-same h o x e = rw e refl

pub merge_next-Tiles :
    (h : Heap) (size p o n : ℕ) (cs : List Chunk)
    → IsSized (free_chunk n ∷ cs)
    → Tiles h.blk size p o (free_chunk n ∷ cs)
    → Tiles (merge_next o (o + n) h).blk size p o (join n cs)
unfolding merge_next
merge_next-Tiles h size p o n [] s t = rw (t.1.0.1) t
merge_next-Tiles h size p o n (used_chunk m ∷ cs) s t =
    subst (λ g. Tiles g.blk size p o (free_chunk n ∷ used_chunk m ∷ cs))
      (sym (merge_next-same h o (o + n) (t.1.0.1))) t
merge_next-Tiles h size p o n (free_chunk m ∷ cs) s t =
    let g = (merge_next o (o + n) h).blk in
    let end : o + n + m ≡ o + (n + m) = omega arith in
    let rest : Tiles (merge_next o (o + n) h).blk size o (o + n + m) cs =
      Tiles-prev h.blk (merge_next o (o + n) h).blk size (o + n) o (o + n + m) cs s.2.2 t.1.1
        (ground (arith, s.0, s.2.0)) (λ a le. ground (arith, s.0, s.2.0)) in
    (ground (arith, ==_refl o, s.0, s.2.0), rw (← end) rest)

pub merge_next-below :
    (h : Heap) (size p o n a : ℕ) (cs : List Chunk)
    → IsSized (free_chunk n ∷ cs)
    → Tiles h.blk size p o (free_chunk n ∷ cs)
    → a < o
    → (merge_next o (o + n) h).blk a ≡ h.blk a
unfolding merge_next
merge_next-below h size p o n a [] s t lt = rw (t.1.0.1) refl
merge_next-below h size p o n a (used_chunk m ∷ cs) s t lt = rw (t.1.0.1) refl
merge_next-below h size p o n a (free_chunk m ∷ cs) s t lt = ground (arith, s.0, s.2.0)

free_block-eq :
    (t : ℕ) (h : Heap)
    → free_block t h ≡ (
        if ((mark t h).blk (h.blk t).prev).state == free_state
        then lower (h.blk t).prev (
            merge_next
              (h.blk t).prev
              (h.blk t).next
              (merge_prev (h.blk t).prev t (h.blk t).next (mark t h)))
        else lower t (merge_next t (h.blk t).next (mark t h)))
unfolding free_block
free_block-eq t h = refl

pub free-apart :
    (h : Heap) (t p x : ℕ)
    → (h.blk t).prev ≡ p
    → (h.blk t).next ≡ x
    → p < t
    → ((h.blk p).state == free_state) ≡ false
    → free_block t h ≡ lower t (merge_next t x (mark t h))
free-apart h t p x e f lt used =
    let apart : (p == t) ≡ false = ground arith in rw (free_block-eq, e, f, apart, used) refl

pub free-behind :
    (h : Heap) (t p x : ℕ)
    → (h.blk t).prev ≡ p
    → (h.blk t).next ≡ x
    → p < t
    → (h.blk p).state ≡ free_state
    → free_block t h ≡ lower p (merge_next p x (merge_prev p t x (mark t h)))
free-behind h t p x e f lt used =
    let apart : (p == t) ≡ false = ground arith in rw (free_block-eq, e, f, apart, used) refl
