-- ===== src/MemHeap/Tiles.antt =====
-- How the headers in memory stand for a list of chunks, one behind the other up to the end.
use micro_rt_kernel.Prelude.{
  ℕ, ◌+◌, ◌-◌, ◌%◌, ◌^◌, ◌≤◌, ◌<◌, ◌≡◌, refl, inl, inr, List, [], ◌∷◌, arith, ◌==◌, ltb,
  if◌then◌else◌, Bool-cases, ==_refl,
}
use micro_rt_kernel.MemHeap.{
  Block, Heap, magic_number, header_size, dummy_state, free_state, used_state, take_block, set_blk,
}
use micro_rt_kernel.MemHeap.Chunks.{
  Chunk, free_chunk, used_chunk, len, IsSized, UsedAt, starts_free, split,
}

abbrev pub state_of : Chunk → ℕ
state_of (free_chunk n) = free_state
state_of (used_chunk n) = used_state

-- A header that is whole, with its state and its two neighbours.
abbrev pub Header : Block → ℕ → ℕ → ℕ → Type 0
Header b state prev next =
    (b.magic ≡ magic_number) × (b.state ≡ state) × (b.prev ≡ prev) × (b.next ≡ next)

-- From `o` on stand the chunks, and behind them the sentinel at the end of the heap; `p` is the
-- block before.
abbrev pub Tiles : (ℕ → Block) → ℕ → ℕ → ℕ → List Chunk → Type 0
Tiles blk size p o [] = Header (blk o) dummy_state p size × (o + header_size ≡ size)
Tiles blk size p o (c ∷ cs) =
    Header (blk o) (state_of c) p (o + len c) × Tiles blk size o (o + len c) cs

pub Tiles-bound :
    (blk : ℕ → Block) (size p o : ℕ) (cs : List Chunk)
    → Tiles blk size p o cs
    → o + header_size ≤ size
Tiles-bound blk size p o [] t = omega arith
Tiles-bound blk size p o (c ∷ cs) t = omega (arith, Tiles-bound blk size o (o + len c) cs t.1)

-- Writes below `o` spare what stands from `o` on.
pub Tiles-frame :
    (blk g : ℕ → Block) (size p o : ℕ) (cs : List Chunk)
    → IsSized cs
    → Tiles blk size p o cs
    → ((a : ℕ) → o ≤ a → g a ≡ blk a)
    → Tiles g size p o cs
Tiles-frame blk g size p o [] s t same = rw (same o (omega arith)) t
Tiles-frame blk g size p o (c ∷ cs) s t same =
    let rest = Tiles-frame blk g size o (o + len c) cs s.2 t.1 (λ a h. same a (omega arith)) in
    (rw (same o (omega arith)) t.0, rest)

-- Only the header at `o` changes, and there only what it says of the block before.
pub Tiles-prev :
    (blk g : ℕ → Block) (size p q o : ℕ) (cs : List Chunk)
    → IsSized cs
    → Tiles blk size p o cs
    → g o ≡ record (blk o) { prev = q }
    → ((a : ℕ) → o < a → g a ≡ blk a)
    → Tiles g size q o cs
Tiles-prev blk g size p q o [] s t here above = rw here ((t.0.0, t.0.1, refl, t.0.3), t.1)
Tiles-prev blk g size p q o (c ∷ cs) s t here above =
    let rest =
      Tiles-frame blk g size o (o + len c) cs s.2 t.1 (λ a h. above a (omega (arith, s.0))) in
    (rw here (t.0.0, t.0.1, refl, t.0.3), rest)

-- The state of the block at `o`, which may be the sentinel.
pub head-state :
    (blk : ℕ → Block) (size p o : ℕ) (cs : List Chunk)
    → Tiles blk size p o cs
    → ((blk o).state == free_state) ≡ starts_free cs
head-state blk size p o [] t = rw (t.0.1) refl
head-state blk size p o (free_chunk n ∷ cs) t = rw (t.0.1) refl
head-state blk size p o (used_chunk n ∷ cs) t = rw (t.0.1) refl

-- Taking the free chunk at `o`, as a whole or in part.
module _ (h : Heap) (needed p o n : ℕ) (cs : List Chunk) (small : h.size < 2 ^ 32)
    (s : IsSized (free_chunk n ∷ cs)) (t : Tiles h.blk h.size p o (free_chunk n ∷ cs))
    (le : needed ≤ n) (room : 12 ≤ needed) where
  next-take : (h.blk o).next ≡ o + n
  next-take = t.0.3

  size-take : (o + n + 2 ^ 32 - o) % 2 ^ 32 ≡ n
  size-take = omega (arith, Tiles-bound h.blk h.size o (o + n) cs t.1)

  abbrev whole : Heap
  whole = set_blk o (record (h.blk o) { magic = magic_number; state = used_state }) h

  abbrev cut : Heap
  cut =
      let next_block = o + needed in
      let h1 =
        set_blk next_block
          record { magic = magic_number; state = free_state; prev = o; next = o + n } h in
      let h2 = set_blk (o + n) (record (h1.blk (o + n)) { prev = next_block }) h1 in
      set_blk o (record (h2.blk o) { magic = magic_number; state = used_state; next = next_block })
        h2

  take_block-cases : take_block needed o h ≡ (if ltb (n - needed) 24 then whole else cut)
  unfolding take_block
  take_block-cases = rw (next-take, size-take) refl

  whole-Tiles : Tiles whole.blk h.size p o (used_chunk n ∷ cs)
  whole-Tiles =
      let rest =
        Tiles-frame h.blk whole.blk h.size o (o + n) cs s.2 t.1 (λ a h. ground (arith, s.0)) in
      (ground (arith, ==_refl o), rest)

  cut-Tiles :
      24 ≤ n - needed → Tiles cut.blk h.size p o (used_chunk needed ∷ free_chunk (n - needed) ∷ cs)
  cut-Tiles big =
      let end_at : o + needed + (n - needed) ≡ o + n = omega arith in
      let rest : Tiles cut.blk h.size (o + needed) (o + n) cs =
        Tiles-prev h.blk cut.blk h.size o (o + needed) (o + n) cs s.2 t.1 (ground (arith, s.0))
          (λ a h. ground (arith, s.0)) in
      (ground (arith, ==_refl o), (ground (arith, ==_refl (o + needed)), rw end_at rest))

  pub take_block-Tiles : Tiles (take_block needed o h).blk h.size p o (split needed n cs)
  take_block-Tiles = rw take_block-cases (elim (Bool-cases (ltb (n - needed) 24)) [
    | inl e ↦ rw e whole-Tiles
    | inr e ↦ rw e (cut-Tiles (ground arith))
  ])

  -- Below it nothing changes.
  pub take_block-below : (a : ℕ) → a < o → (take_block needed o h).blk a ≡ h.blk a
  take_block-below a lt = rw take_block-cases (ground (arith, s.0))

-- What a used block says of itself.
pub UsedAt-Header :
    (blk : ℕ → Block) (size t p o : ℕ) (cs : List Chunk)
    → IsSized cs
    → Tiles blk size p o cs
    → UsedAt t o cs
    → ((blk t).magic ≡ magic_number)
      × ((blk t).state ≡ used_state)
      × (o ≤ t)
      × (t + 12 ≤ (blk t).next)
      × ((blk t).next + 12 ≤ size)
UsedAt-Header blk size t p o [] s ts u = absurd u
UsedAt-Header blk size t p o (used_chunk n ∷ cs) s ts (inl u) =
    let end = Tiles-bound blk size o (o + n) cs ts.1 in
    rw (u.0) (ts.0.0, ts.0.1, omega arith, omega (arith, ts.0.3, s.0), omega (arith, ts.0.3, end))
UsedAt-Header blk size t p o (free_chunk n ∷ cs) s ts (inl u) = absurd (ground (arith, u.1))
UsedAt-Header blk size t p o (c ∷ cs) s ts (inr u) =
    let (m, st, le, nx, end) = UsedAt-Header blk size t o (o + len c) cs s.2 ts.1 u.1 in
    (m, st, omega arith, nx, end)
