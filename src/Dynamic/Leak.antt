-- ===== src/Dynamic/Leak.antt =====
-- A creation that fails gives back all the memory that it took.
use mathlib.Core.Path.{subst}
use micro_rt_kernel.Prelude.{
  ℕ, ◌+◌, ◌-◌, ◌^◌, ◌≤◌, ◌<◌, ◌≡◌, refl, sym, ◌∙◌, Bool, true, false, not, ◌||◌, Option, none, some,
  List, [], ◌∷◌, arith, ◌==◌, leb, ltb, length, Bool-cases, inl, inr, if◌then◌else◌,
}
use micro_rt_kernel.Kernel.{Kernel, Err, null, prio_levels, set_tcb}
use micro_rt_kernel.Sched.{schedule_lock, schedule_unlock}
use micro_rt_kernel.MailBox.{is_eok}
use micro_rt_kernel.Task.{task_init}
use micro_rt_kernel.Sem
use micro_rt_kernel.Sem.{Sem}
use micro_rt_kernel.MemHeap.{Heap, header_size, malloc, free}
use micro_rt_kernel.MemHeap.Chunks.{Chunk, free_chunk, used_chunk, alloc}
use micro_rt_kernel.MemHeap.Malloc.{block_size, chosen}
use micro_rt_kernel.MemHeap.Search.{HeapOk}
use micro_rt_kernel.MemHeap.Refinement.{Granted, malloc-HeapOk, free-alloc, free-base}
use micro_rt_kernel.Dynamic.{create_one, create_two, sem_create, task_create}

pub length-alloc : (needed : ℕ) (cs : List Chunk) → length (alloc needed cs) ≤ length cs + 1
length-alloc needed [] = omega arith
length-alloc needed (used_chunk n ∷ cs) = omega (arith, length-alloc needed cs)
length-alloc needed (free_chunk n ∷ cs) = elim (Bool-cases (leb needed n)) [
  | inl e ↦ elim (Bool-cases (ltb (n - needed) 24)) [
    | inl f ↦ rw (e, f) (omega arith)
    | inr f ↦ rw (e, f) (omega arith)
  ]
  | inr e ↦ rw e (omega (arith, length-alloc needed cs))
]

-- What follows the allocation.
abbrev pub finish_one :
    {A : Type 0}
    → (ℕ → Kernel → Err × A × Kernel)
    → ℕ × Heap × Kernel
    → Option (ℕ × A) × Heap × Kernel
finish_one init got =
    let r = init got.0 got.2 in
    let undone = free got.0 got.1 r.2 in
    if got.0 == null
    then (none, got.1, got.2)
    else if is_eok r.0
    then (some (got.0, r.1), got.1, r.2)
    else (none, undone.0, undone.1)

module _ {A : Type 0} (init : ℕ → Kernel → Err × A × Kernel) where
  pub create_one-eq :
      (fuel bytes : ℕ) (h : Heap) (k : Kernel) (got : ℕ × Heap × Kernel)
      → malloc fuel bytes h k ≡ some got
      → create_one fuel bytes init h k ≡ some (finish_one init got)
  unfolding create_one
  create_one-eq fuel bytes h k got e = rw e refl

  create_one-null :
      (fuel bytes : ℕ) (h h' : Heap) (k k' : Kernel) (cs : List Chunk)
      → HeapOk h cs
      → bytes + 15 < 2 ^ 32
      → length cs + 2 ≤ fuel
      → create_one fuel bytes init h k ≡ some (none, h', k')
      → HeapOk h' cs
  create_one-null fuel bytes h h' k k' cs ok small le e =
      back (chosen bytes cs) refl (malloc-HeapOk fuel bytes h k cs ok small le)
    where
      back :
          (found : Option ℕ)
          → chosen bytes cs ≡ found
          → Granted fuel bytes h k cs found
          → HeapOk h' cs
      back none c m =
          let made =
            sym e ∙ create_one-eq fuel bytes h k (null, h, schedule_unlock (schedule_lock k)) m in
          let same : h' ≡ h = ground (arith, made) in rw same ok
      back (some t) c (g, m, fine, base) =
          let a = h.base + t + header_size in
          let k1 = schedule_unlock (schedule_lock k) in
          let made = sym e ∙ create_one-eq fuel bytes h k (a, g, k1) m in
          let real : (a == null) ≡ false = ground arith in
          let at : g.base + t + header_size ≡ a = ground (arith, base) in
          elim (Bool-cases (is_eok (init a k1).0)) [
            | inl f ↦ absurd (ground (arith, rw (real, f) at made))
            | inr f ↦
                let same : h' ≡ (free a g (init a k1).2).0 = ground (arith, rw (real, f) at made) in
                rw same (
                  subst (λ x. HeapOk (free x g (init a k1).2).0 cs) at
                    (free-alloc bytes t g (init a k1).2 cs ok.merged ok.sized c fine))
          ]

-- What follows the second allocation, where the second block is the first to be freed.
abbrev finish_two :
    {A : Type 0}
    → (ℕ → ℕ → Kernel → Err × A × Kernel)
    → ℕ
    → ℕ × Heap × Kernel
    → Option (ℕ × A) × Heap × Kernel
finish_two init obj pool =
    let r = init obj pool.0 pool.2 in
    let alone = free obj pool.1 pool.2 in
    let one = free pool.0 pool.1 r.2 in
    let both = free obj one.0 one.1 in
    if pool.0 == null
    then (none, alone.0, alone.1)
    else if is_eok r.0
    then (some (obj, r.1), pool.1, r.2)
    else (none, both.0, both.1)

module _ {A : Type 0} (init : ℕ → ℕ → Kernel → Err × A × Kernel) (fuel bytes pool_bytes : ℕ)
    (h h' : Heap) (k k' : Kernel) (cs : List Chunk) (ok : HeapOk h cs) (small : bytes + 15 < 2 ^ 32)
    (small' : pool_bytes + 15 < 2 ^ 32) (le : length cs + 3 ≤ fuel)
    (e : create_two fuel true bytes pool_bytes init h k ≡ some (none, h', k')) where
  create_two-none :
      malloc fuel bytes h k ≡ some (null, h, schedule_unlock (schedule_lock k))
      → create_two fuel true bytes pool_bytes init h k
        ≡ some (none, h, schedule_unlock (schedule_lock k))
  unfolding create_two
  create_two-none m = rw m refl

  create_two-some :
      (a : ℕ) (g : Heap) (k1 : Kernel) (pool : ℕ × Heap × Kernel)
      → (a == null) ≡ false
      → malloc fuel bytes h k ≡ some (a, g, k1)
      → malloc fuel pool_bytes g k1 ≡ some pool
      → create_two fuel true bytes pool_bytes init h k ≡ some (finish_two init a pool)
  unfolding create_two
  create_two-some a g k1 pool real m m' = rw (m, real, m') refl

  -- The control block is at `t`.
  module _ (t : ℕ) (g : Heap) (c : chosen bytes cs ≡ some t)
      (m : malloc fuel bytes h k
        ≡ some (h.base + t + header_size, g, schedule_unlock (schedule_lock k)))
      (fine : HeapOk g (alloc (block_size bytes) cs)) (base : g.base ≡ h.base) where
    abbrev k1 : Kernel
    k1 = schedule_unlock (schedule_lock k)

    abbrev k2 : Kernel
    k2 = schedule_unlock (schedule_lock k1)

    abbrev obj : ℕ
    obj = h.base + t + header_size

    first-freed :
        (f : Heap) (k3 : Kernel)
        → HeapOk f (alloc (block_size bytes) cs)
        → f.base ≡ h.base
        → HeapOk (free obj f k3).0 cs
    first-freed f k3 ok' same =
        let at : f.base + t + header_size ≡ obj = ground (arith, same) in
        subst (λ x. HeapOk (free x f k3).0 cs) at
          (free-alloc bytes t f k3 cs ok.merged ok.sized c ok')

    second_back :
        (found : Option ℕ)
        → chosen pool_bytes (alloc (block_size bytes) cs) ≡ found
        → Granted fuel pool_bytes g k1 (alloc (block_size bytes) cs) found
        → HeapOk h' cs
    second_back none c' m' =
        let real : (obj == null) ≡ false = ground arith in
        let made = sym e ∙ create_two-some obj g k1 (null, g, k2) real m m' in
        let same : h' ≡ (free obj g k2).0 = ground (arith, made) in
        rw same (first-freed g k2 fine base)
    second_back (some t') c' (g', m', fine', base') =
        let pool = g.base + t' + header_size in
        let real : (obj == null) ≡ false = ground arith in
        let real' : (pool == null) ≡ false = ground arith in
        let made = sym e ∙ create_two-some obj g k1 (pool, g', k2) real m m' in
        let r = init obj pool k2 in
        let one = free pool g' r.2 in
        let at : g'.base + t' + header_size ≡ pool = ground (arith, base') in
        let freed : HeapOk one.0 (alloc (block_size bytes) cs) =
          subst (λ x. HeapOk (free x g' r.2).0 (alloc (block_size bytes) cs)) at
            (free-alloc pool_bytes t' g' r.2 (alloc (block_size bytes) cs) fine.merged fine.sized c'
              fine') in
        elim (Bool-cases (is_eok r.0)) [
          | inl f ↦ absurd (ground (arith, rw (real', f) at made))
          | inr f ↦
              let same : h' ≡ (free obj one.0 one.1).0 = ground (arith, rw (real', f) at made) in
              rw same (first-freed one.0 one.1 freed (free-base pool g' r.2 ∙ base' ∙ base))
        ]

  create_two-null : HeapOk h' cs
  create_two-null =
      first_back (chosen bytes cs) refl (malloc-HeapOk fuel bytes h k cs ok small (omega arith))
    where
      first_back :
          (found : Option ℕ)
          → chosen bytes cs ≡ found
          → Granted fuel bytes h k cs found
          → HeapOk h' cs
      first_back none c m =
          let same : h' ≡ h = ground (arith, sym e ∙ create_two-none m) in rw same ok
      first_back (some t) c (g, m, fine, base) =
          second_back t g c m fine base (chosen pool_bytes (alloc (block_size bytes) cs)) refl (
            malloc-HeapOk fuel pool_bytes g (schedule_unlock (schedule_lock k))
              (alloc (block_size bytes) cs) fine small'
              (omega (arith, length-alloc (block_size bytes) cs)))

-- On a heap made of the chunks `cs`, with fuel for three steps more than there are chunks and sizes
-- that do not wrap: a creation of a task that returns null, for whatever reason, leaves the heap made
-- of the same chunks.
pub task_create-null :
    (fuel bytes : ℕ) (given : Bool) (stack_size priority tick : ℕ) (h h' : Heap) (k k' : Kernel)
    (cs : List Chunk)
    → HeapOk h cs
    → bytes + 15 < 2 ^ 32
    → stack_size + 15 < 2 ^ 32
    → length cs + 3 ≤ fuel
    → task_create fuel bytes given stack_size priority tick h k ≡ some (none, h', k')
    → HeapOk h' cs
unfolding task_create
task_create-null fuel bytes given stack_size priority tick h h' k k' cs ok small small' le e =
    elim (Bool-cases (not given || (stack_size == 0) || leb prio_levels priority)) [
      | inl f ↦ let same : h' ≡ h = ground (arith, rw f at e) in rw same ok
      | inr f ↦
          create_two-null
            (λ task stack k1.
              let r = task_init task true priority tick k1 in
              (
                r.0,
                tt,
                if is_eok r.0
                    then set_tcb task (record (r.1.tcb task) { is_dynamic = true }) r.1
                    else r.1,
              ))
            fuel bytes stack_size h h' k k' cs ok small small' le (rw f at e)
    ]

-- Under the same conditions, but for one block and a step less: a creation of a semaphore that
-- returns null leaves the heap made of the same chunks.
pub sem_create-null :
    (fuel bytes : ℕ) (named : Bool) (value flag : ℕ) (blank : Sem) (h h' : Heap) (k k' : Kernel)
    (cs : List Chunk)
    → HeapOk h cs
    → bytes + 15 < 2 ^ 32
    → length cs + 2 ≤ fuel
    → sem_create fuel bytes named value flag blank h k ≡ some (none, h', k')
    → HeapOk h' cs
unfolding sem_create
sem_create-null fuel bytes false value flag blank h h' k k' cs ok small le e =
    let same : h' ≡ h = ground (arith, e) in rw same ok
sem_create-null fuel bytes true value flag blank h h' k k' cs ok small le e =
    create_one-null
      (λ obj k1.
        let r = Sem.init obj true value flag blank k1 in
        (r.0, record r.1 { is_dynamic = true }, r.2))
      fuel bytes h h' k k' cs ok small le e
