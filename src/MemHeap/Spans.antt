-- ===== src/MemHeap/Spans.antt =====
-- Where the used chunks stand, and that an allocation shares no byte with them.
use micro_rt_kernel.Prelude.{
  ℕ, ◌+◌, ◌-◌, ◌%◌, ◌≤◌, ◌≡◌, refl, ap, ◌⊎◌, inl, inr, some, List, [], ◌∷◌, arith, leb, ltb,
  Bool-cases,
}
use micro_rt_kernel.MemHeap.{Block, header_size}
use micro_rt_kernel.MemHeap.Chunks.{
  Chunk, free_chunk, used_chunk, len, is_free, first_fit, alloc, IsSized,
}
use micro_rt_kernel.MemHeap.Undo.{first_fit-le}
use micro_rt_kernel.MemHeap.Tiles.{Tiles, Tiles-bound}

-- A used chunk of `n` bytes stands at `x`.
abbrev pub SpanAt : ℕ → ℕ → ℕ → List Chunk → Type 0
SpanAt x n o [] = ⊥
SpanAt x n o (c ∷ cs) =
    ((x ≡ o) × (c ≡ used_chunk n)) ⊎ ((o + len c ≤ x) × SpanAt x n (o + len c) cs)

-- An allocation leaves the used chunks, and what it takes overlaps none of them.
pub alloc-SpanAt :
    (needed t x n o : ℕ) (cs : List Chunk)
    → first_fit needed o cs ≡ some t
    → SpanAt x n o cs
    → SpanAt x n o (alloc needed cs) × ((t + needed ≤ x) ⊎ (x + n ≤ t))
alloc-SpanAt needed t x n o [] e u = absurd u
alloc-SpanAt needed t x n o (used_chunk m ∷ cs) e (inl u) =
    let after = first_fit-le needed t (o + m) cs e in
    let same : m ≡ n = ap len u.1 in (inl u, inr (omega (arith, u.0)))
alloc-SpanAt needed t x n o (used_chunk m ∷ cs) e (inr u) =
    let (s, apart) = alloc-SpanAt needed t x n (o + m) cs e u.1 in (inr (u.0, s), apart)
alloc-SpanAt needed t x n o (free_chunk m ∷ cs) e (inl u) = absurd (ground (arith, ap is_free u.1))
alloc-SpanAt needed t x n o (free_chunk m ∷ cs) e (inr u) = elim (Bool-cases (leb needed m)) [
  | inl f ↦ elim (Bool-cases (ltb (m - needed) 24)) [
    | inl g ↦ rw (f, g) (inr u, inl (ground (arith, u.0)))
    | inr g ↦
        let end : o + needed + (m - needed) ≡ o + m = ground arith in
        rw (f, g)
          (
            inr (ground (arith, u.0), inr (ground (arith, u.0), rw end (u.1))),
            inl (ground (arith, u.0)),
          )
  ]
  | inr f ↦
      let later : first_fit needed (o + m) cs ≡ some t = ground arith in
      let (s, apart) = alloc-SpanAt needed t x n (o + m) cs later u.1 in rw f (inr (u.0, s), apart)
]

-- What an allocation takes lies inside.
pub first_fit-SpanAt :
    (needed t o : ℕ) (cs : List Chunk)
    → first_fit needed o cs ≡ some t
    → (n : ℕ) × (needed ≤ n) × SpanAt t n o (alloc needed cs)
first_fit-SpanAt needed t o [] e = absurd (ground arith)
first_fit-SpanAt needed t o (used_chunk m ∷ cs) e =
    let (n, le, s) = first_fit-SpanAt needed t (o + m) cs e in
    (n, le, inr (first_fit-le needed t (o + m) cs e, s))
first_fit-SpanAt needed t o (free_chunk m ∷ cs) e = elim (Bool-cases (leb needed m)) [
  | inl f ↦ elim (Bool-cases (ltb (m - needed) 24)) [
    | inl g ↦ rw (f, g) (m, ground arith, inl (ground arith, refl))
    | inr g ↦ rw (f, g) (needed, omega arith, inl (ground arith, refl))
  ]
  | inr f ↦
      let later : first_fit needed (o + m) cs ≡ some t = ground arith in
      let (n, le, s) = first_fit-SpanAt needed t (o + m) cs later in
      rw f (n, le, inr (first_fit-le needed t (o + m) cs later, s))
]

pub SpanAt-bounds :
    (blk : ℕ → Block) (size t n p o : ℕ) (cs : List Chunk)
    → IsSized cs
    → Tiles blk size p o cs
    → o % 4 ≡ 0
    → SpanAt t n o cs
    → (o ≤ t) × (t % 4 ≡ 0) × (t + n + header_size ≤ size)
SpanAt-bounds blk size t n p o [] s ts al u = absurd u
SpanAt-bounds blk size t n p o (c ∷ cs) s ts al (inl u) =
    let same : len c ≡ n = ap len u.1 in
    (
      omega (arith, u.0),
      omega (arith, u.0),
      omega (arith, u.0, Tiles-bound blk size o (o + len c) cs ts.1),
    )
SpanAt-bounds blk size t n p o (c ∷ cs) s ts al (inr u) =
    let (le, whole, end) =
      SpanAt-bounds blk size t n o (o + len c) cs s.2 ts.1 (omega (arith, s.1)) u.1 in
    (omega arith, whole, end)
