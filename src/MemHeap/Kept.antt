-- ===== src/MemHeap/Kept.antt =====
-- An allocation and a release keep the chunks merged and sized.
use micro_rt_kernel.Prelude.{
  ℕ, ◌+◌, ◌-◌, ◌%◌, ◌≤◌, ◌≡◌, refl, inl, inr, true, false, ◌&&◌, List, [], ◌∷◌, arith, ◌==◌, ltb,
  leb, if◌then◌else◌, Bool-cases,
}
use micro_rt_kernel.MemHeap.Chunks.{
  Chunk, free_chunk, used_chunk, len, is_free, split, alloc, join, absorb, release, starts_free,
  IsMerged, IsSized,
}

split-IsMerged :
    (needed n : ℕ) (cs : List Chunk)
    → starts_free cs ≡ false
    → IsMerged cs
    → IsMerged (split needed n cs)
split-IsMerged needed n cs s m = elim (Bool-cases (ltb (n - needed) 24)) [
  | inl e ↦ rw e (refl, m)
  | inr e ↦ rw e (refl, (s, m))
]

starts_free-alloc :
    (needed : ℕ) (cs : List Chunk) → starts_free cs ≡ false → starts_free (alloc needed cs) ≡ false
starts_free-alloc needed [] s = refl
starts_free-alloc needed (used_chunk n ∷ cs) s = refl
starts_free-alloc needed (free_chunk n ∷ cs) s = cc

pub alloc-IsMerged : (needed : ℕ) (cs : List Chunk) → IsMerged cs → IsMerged (alloc needed cs)
alloc-IsMerged needed [] m = tt
alloc-IsMerged needed (used_chunk n ∷ cs) m = (refl, alloc-IsMerged needed cs m.1)
alloc-IsMerged needed (free_chunk n ∷ cs) m = elim (Bool-cases (leb needed n)) [
  | inl e ↦ rw e (split-IsMerged needed n cs m.0 m.1)
  | inr e ↦ rw e (starts_free-alloc needed cs m.0, alloc-IsMerged needed cs m.1)
]

join-IsMerged : (n : ℕ) (cs : List Chunk) → IsMerged cs → IsMerged (join n cs)
join-IsMerged n [] m = (refl, tt)
join-IsMerged n (free_chunk l ∷ cs) m = m
join-IsMerged n (used_chunk l ∷ cs) m = (refl, m)

absorb-IsMerged : (n : ℕ) (cs : List Chunk) → IsMerged cs → IsMerged (absorb n cs)
absorb-IsMerged n [] m = (refl, tt)
absorb-IsMerged n (c ∷ cs) m = join-IsMerged (n + len c) cs m.1

starts_free-release :
    (t o : ℕ) (cs : List Chunk) → (o == t) ≡ false → starts_free (release t o cs) ≡ starts_free cs
starts_free-release t o [] ne = refl
starts_free-release t o (used_chunk n ∷ cs) ne = rw ne refl
starts_free-release t o (free_chunk n ∷ cs) ne = rw ne (behind cs)
  where
    joined : (l : ℕ) (ds : List Chunk) → starts_free (join l ds) ≡ true
    joined l [] = refl
    joined l (free_chunk d ∷ ds) = refl
    joined l (used_chunk d ∷ ds) = refl

    absorbed : (ds : List Chunk) → starts_free (absorb n ds) ≡ true
    absorbed [] = refl
    absorbed (d ∷ ds) = joined (n + len d) ds

    behind :
        (ds : List Chunk)
        → starts_free (if o + n == t then absorb n ds else free_chunk n ∷ release t (o + n) ds)
          ≡ true
    behind ds = elim (Bool-cases (o + n == t)) [ inl e ↦ rw e (absorbed ds) | inr e ↦ rw e refl ]

pub release-IsMerged : (t o : ℕ) (cs : List Chunk) → IsMerged cs → IsMerged (release t o cs)
release-IsMerged t o [] m = tt
release-IsMerged t o (c ∷ cs) m = elim (Bool-cases (o == t)) [
  | inl e ↦ rw e (join-IsMerged (len c) cs m.1)
  | inr e ↦ elim (Bool-cases (is_free c && o + len c == t)) [
    | inl f ↦ rw (e, f) (absorb-IsMerged (len c) cs m.1)
    | inr f ↦
        rw (e, f)
          (
            ground (arith, starts_free-release t (o + len c) cs, m.0),
            release-IsMerged t (o + len c) cs m.1,
          )
  ]
]

pub alloc-IsSized :
    (needed : ℕ) (cs : List Chunk)
    → 12 ≤ needed
    → needed % 4 ≡ 0
    → IsSized cs
    → IsSized (alloc needed cs)
alloc-IsSized needed [] room whole s = tt
alloc-IsSized needed (used_chunk n ∷ cs) room whole s =
    (s.0, s.1, alloc-IsSized needed cs room whole s.2)
alloc-IsSized needed (free_chunk n ∷ cs) room whole s = elim (Bool-cases (leb needed n)) [
  | inl f ↦ elim (Bool-cases (ltb (n - needed) 24)) [
    | inl g ↦ rw (f, g) s
    | inr g ↦ rw (f, g) (room, whole, (ground arith, ground (arith, s.1), s.2))
  ]
  | inr f ↦ rw f (s.0, s.1, alloc-IsSized needed cs room whole s.2)
]

join-IsSized : (n : ℕ) (cs : List Chunk) → 12 ≤ n → n % 4 ≡ 0 → IsSized cs → IsSized (join n cs)
join-IsSized n [] room whole s = (room, whole, tt)
join-IsSized n (free_chunk m ∷ cs) room whole s = (omega arith, omega (arith, s.1), s.2)
join-IsSized n (used_chunk m ∷ cs) room whole s = (room, whole, s)

pub release-IsSized : (t o : ℕ) (cs : List Chunk) → IsSized cs → IsSized (release t o cs)
release-IsSized t o [] s = tt
release-IsSized t o (c ∷ cs) s = elim (Bool-cases (o == t)) [
  | inl e ↦ rw e (join-IsSized (len c) cs s.0 s.1 s.2)
  | inr e ↦ elim (Bool-cases (is_free c && o + len c == t)) [
    | inl f ↦ rw (e, f) (absorbed cs s.2)
    | inr f ↦ rw (e, f) (s.0, s.1, release-IsSized t (o + len c) cs s.2)
  ]
]
  where
    absorbed : (ds : List Chunk) → IsSized ds → IsSized (absorb (len c) ds)
    absorbed [] r = (s.0, s.1, tt)
    absorbed (d ∷ ds) r =
        join-IsSized (len c + len d) ds (omega (arith, s.0)) (omega (arith, s.1, r.1)) r.2
