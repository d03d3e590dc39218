-- ===== src/MemHeap/Undo.antt =====
-- Where first fit finds a chunk, and that releasing it undoes the allocation.
use micro_rt_kernel.Prelude.{
  ℕ, ◌+◌, ◌-◌, ◌≤◌, ◌<◌, ◌≡◌, refl, ap, inl, inr, false, some, List, [], ◌∷◌, arith, ◌==◌, ltb, leb,
  Bool-cases, ==_refl,
}
use micro_rt_kernel.MemHeap.Chunks.{
  Chunk, free_chunk, used_chunk, len, fits, first_fit, split, alloc, join, release, UsedAt,
  starts_free, IsMerged, IsSized,
}

pub first_fit-le : (needed t o : ℕ) (cs : List Chunk) → first_fit needed o cs ≡ some t → o ≤ t
first_fit-le needed t o [] e = absurd (ground arith)
first_fit-le needed t o (c ∷ cs) e = elim (Bool-cases (fits needed c)) [
  | inl f ↦ ground arith
  | inr f ↦ ground (arith, first_fit-le needed t (o + len c) cs)
]

first_fit-lt :
    (needed t o : ℕ) (cs : List Chunk)
    → IsSized cs
    → starts_free cs ≡ false
    → first_fit needed o cs ≡ some t
    → o < t
first_fit-lt needed t o [] s f e = absurd (ground arith)
first_fit-lt needed t o (used_chunk n ∷ cs) s f e =
    ground (arith, first_fit-le needed t (o + n) cs, s.0)
first_fit-lt needed t o (free_chunk n ∷ cs) s f e = absurd (ground arith)

join-first : (n : ℕ) (cs : List Chunk) → starts_free cs ≡ false → join n cs ≡ free_chunk n ∷ cs
join-first n [] f = refl
join-first n (used_chunk m ∷ cs) f = refl
join-first n (free_chunk m ∷ cs) f = absurd (ground arith)

release-split :
    (needed o n : ℕ) (cs : List Chunk)
    → starts_free cs ≡ false
    → needed ≤ n
    → release o o (split needed n cs) ≡ free_chunk n ∷ cs
release-split needed o n cs f le = elim (Bool-cases (ltb (n - needed) 24)) [
  | inl e ↦ rw (e, ==_refl o) (join-first n cs f)
  | inr e ↦ rw (e, ==_refl o) (ap (λ x. free_chunk x ∷ cs) (omega arith))
]

-- In a merged list, releasing the chunk that an allocation has just taken gives the list back.
pub release-alloc :
    (needed t o : ℕ) (cs : List Chunk)
    → IsMerged cs
    → IsSized cs
    → first_fit needed o cs ≡ some t
    → release t o (alloc needed cs) ≡ cs
release-alloc needed t o [] m s e = absurd (ground arith)
release-alloc needed t o (used_chunk n ∷ cs) m s e =
    let after : o + n ≤ t = first_fit-le needed t (o + n) cs e in
    let ne : (o == t) ≡ false = ground (arith, s.0) in
    rw ne (ap (λ r. used_chunk n ∷ r) (release-alloc needed t (o + n) cs m.1 s.2 e))
release-alloc needed t o (free_chunk n ∷ cs) m s e = elim (Bool-cases (leb needed n)) [
  | inl f ↦
      let here : o ≡ t = ground arith in
      rw (f, ← here) (release-split needed o n cs m.0 (ground arith))
  | inr f ↦
      let later : first_fit needed (o + n) cs ≡ some t = ground arith in
      let after : o + n < t = first_fit-lt needed t (o + n) cs s.2 m.0 later in
      let ne : (o == t) ≡ false = ground arith in
      let ne' : (o + n == t) ≡ false = ground arith in
      rw (f, ne, ne') (ap (λ r. free_chunk n ∷ r) (release-alloc needed t (o + n) cs m.1 s.2 later))
]

pub alloc-UsedAt :
    (needed t o : ℕ) (cs : List Chunk)
    → first_fit needed o cs ≡ some t
    → UsedAt t o (alloc needed cs)
alloc-UsedAt needed t o [] e = absurd (ground arith)
alloc-UsedAt needed t o (used_chunk n ∷ cs) e =
    inr (first_fit-le needed t (o + n) cs e, alloc-UsedAt needed t (o + n) cs e)
alloc-UsedAt needed t o (free_chunk n ∷ cs) e = elim (Bool-cases (leb needed n)) [
  | inl f ↦ elim (Bool-cases (ltb (n - needed) 24)) [
    | inl g ↦ rw (f, g) (inl (ground arith, refl))
    | inr g ↦ rw (f, g) (inl (ground arith, refl))
  ]
  | inr f ↦
      let later : first_fit needed (o + n) cs ≡ some t = ground arith in
      rw f (inr (first_fit-le needed t (o + n) cs later, alloc-UsedAt needed t (o + n) cs later))
]
