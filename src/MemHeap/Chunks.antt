-- ===== src/MemHeap/Chunks.antt =====
-- The heap as a list of chunks, with what an allocation and a release do to it.
use micro_rt_kernel.Prelude.{
  ℕ, ◌+◌, ◌-◌, ◌%◌, ◌≤◌, ◌≡◌, ◌⊎◌, Bool, true, false, ◌&&◌, Option, none, some, List, [], ◌∷◌, ◌==◌,
  ltb, leb, if◌then◌else◌,
}

-- A block by its size, header included, and whether it is free.
pub data Chunk : Type 0 where
  free_chunk used_chunk : ℕ → Chunk

abbrev pub len : Chunk → ℕ
len (free_chunk n) = n
len (used_chunk n) = n

abbrev pub is_free : Chunk → Bool
is_free (free_chunk n) = true
is_free (used_chunk n) = false

abbrev pub fits : ℕ → Chunk → Bool
fits needed c = is_free c && leb needed (len c)

-- Where the first free chunk of at least `needed` bytes stands, from `o` on.
abbrev pub first_fit : ℕ → ℕ → List Chunk → Option ℕ
first_fit needed o [] = none
first_fit needed o (c ∷ cs) = if fits needed c then some o else first_fit needed (o + len c) cs

-- A chunk that is taken is split if what is left has room for a header and 12 bytes.
abbrev pub split : ℕ → ℕ → List Chunk → List Chunk
split needed n cs =
    if ltb (n - needed) 24
    then used_chunk n ∷ cs
    else used_chunk needed ∷ free_chunk (n - needed) ∷ cs

abbrev pub alloc : ℕ → List Chunk → List Chunk
alloc needed [] = []
alloc needed (c ∷ cs) = if fits needed c then split needed (len c) cs else c ∷ alloc needed cs

-- A free chunk and the free one behind it, if there is one, are one.
abbrev pub join : ℕ → List Chunk → List Chunk
join n [] = free_chunk n ∷ []
join n (free_chunk m ∷ cs) = free_chunk (n + m) ∷ cs
join n (used_chunk m ∷ cs) = free_chunk n ∷ used_chunk m ∷ cs

-- What is left of a free chunk of `n` bytes and the chunks behind it when the first of those becomes
-- free.
abbrev pub absorb : ℕ → List Chunk → List Chunk
absorb n [] = free_chunk n ∷ []
absorb n (c ∷ cs) = join (n + len c) cs

-- The chunk at `t` becomes free, and joins the free chunks on both sides.
abbrev pub release : ℕ → ℕ → List Chunk → List Chunk
release t o [] = []
release t o (c ∷ cs) =
    if o == t
    then join (len c) cs
    else if is_free c && o + len c == t
    then absorb (len c) cs
    else c ∷ release t (o + len c) cs

-- A used chunk stands at `t`.
abbrev pub UsedAt : ℕ → ℕ → List Chunk → Type 0
UsedAt t o [] = ⊥
UsedAt t o (c ∷ cs) = ((t ≡ o) × (is_free c ≡ false)) ⊎ ((o + len c ≤ t) × UsedAt t (o + len c) cs)

abbrev pub starts_free : List Chunk → Bool
starts_free [] = false
starts_free (c ∷ cs) = is_free c

-- No two free chunks stand side by side.
abbrev pub IsMerged : List Chunk → Type 0
IsMerged [] = Unit
IsMerged (c ∷ cs) = ((is_free c && starts_free cs) ≡ false) × IsMerged cs

-- Every chunk has room for its header, and a size that keeps the next one aligned.
abbrev pub IsSized : List Chunk → Type 0
IsSized [] = Unit
IsSized (c ∷ cs) = (12 ≤ len c) × (len c % 4 ≡ 0) × IsSized cs
