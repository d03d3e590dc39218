-- ===== src/MsgQueue/Link.antt =====
-- What the steps of a sender and a receiver do to the two chains of a message queue.
use micro_rt_kernel.Prelude.{
  ℕ, suc, ◌≤◌, ◌≡◌, refl, ap, ◌≢◌, true, false, List, [], ◌∷◌, ◌++◌, arith, ◌==◌, ==_refl, length,
  mem, Distinct, erase, Bool-cases, inl, inr,
}
use micro_rt_kernel.Kernel.{null, update}
use micro_rt_kernel.MemPool.Chain.{Chain}

-- `tail` is the last of the blocks, if there is one.
abbrev pub EndsAt : ℕ → List ℕ → Type 0
EndsAt tail [] = Unit
EndsAt tail (x ∷ []) = tail ≡ x
EndsAt tail (x ∷ y ∷ xs) = EndsAt tail (y ∷ xs)

pub EndsAt-mem : (tail x : ℕ) (xs : List ℕ) → EndsAt tail (x ∷ xs) → mem tail (x ∷ xs) ≡ true
EndsAt-mem tail x [] e = ground (arith, ==_refl tail)
EndsAt-mem tail x (y ∷ xs) e = ground (arith, EndsAt-mem tail y xs e)

pub EndsAt-append : (a : ℕ) (xs : List ℕ) → EndsAt a (xs ++ a ∷ [])
EndsAt-append a [] = refl
EndsAt-append a (x ∷ []) = refl
EndsAt-append a (x ∷ y ∷ xs) = EndsAt-append a (y ∷ xs)

pub EndsAt-rest : (tail x : ℕ) (xs : List ℕ) → EndsAt tail (x ∷ xs) → EndsAt tail xs
EndsAt-rest tail x [] e = tt
EndsAt-rest tail x (y ∷ xs) e = e

-- A block at the end of a chain that is not empty.
pub Chain-append :
    (next : ℕ → ℕ) (first tail msg x : ℕ) (xs : List ℕ)
    → Chain next first (x ∷ xs)
    → EndsAt tail (x ∷ xs)
    → Distinct (x ∷ xs)
    → mem msg (x ∷ xs) ≡ false
    → msg ≢ null
    → Chain (update (update next tail msg) msg null) first (x ∷ xs ++ msg ∷ [])
Chain-append next first tail msg x [] (at, ne, rest) e d out real =
    let linked : update (update next tail msg) msg null x ≡ msg = ground (arith, ==_refl x) in
    let last : update (update next tail msg) msg null msg ≡ null = ground (arith, ==_refl msg) in
    (at, ne, rw linked (refl, real, last))
Chain-append next first tail msg x (y ∷ xs) (at, ne, rest) e d out real =
    let later = EndsAt-mem tail y xs e in
    let apart : (tail == x) ≡ false = elim (Bool-cases (tail == x)) [
      | inl f ↦
          let same : tail ≡ x = ground arith in
          absurd (ground (arith, d.0, ap (λ z. mem z (y ∷ xs)) same))
      | inr f ↦ f
    ] in
    let same : update (update next tail msg) msg null x ≡ next x = ground arith in
    (at, ne, rw same (Chain-append next (next x) tail msg y xs rest e d.1 (ground arith) real))

-- A list without repetition is no longer than one that has all its members.
pub length-mem :
    (xs ys : List ℕ)
    → Distinct xs
    → ((a : ℕ) → mem a xs ≡ true → mem a ys ≡ true)
    → length xs ≤ length ys
length-mem [] ys d sub = omega arith
length-mem (x ∷ xs) ys d sub =
    let here : mem x ys ≡ true = sub x (ground (arith, ==_refl x)) in
    let rest =
      length-mem xs (erase x ys) d.1 (λ a h. kept a ys (apart a h) (sub a (ground arith))) in
    omega (arith, rest, length-erase ys here)
  where
    length-erase : (zs : List ℕ) → mem x zs ≡ true → suc (length (erase x zs)) ≡ length zs
    length-erase [] h = absurd (ground arith)
    length-erase (z ∷ zs) h = elim (Bool-cases (z == x)) [
      | inl e ↦ rw e refl
      | inr e ↦ rw e (ap suc (length-erase zs (ground arith)))
    ]

    kept : (a : ℕ) (zs : List ℕ) → (a == x) ≡ false → mem a zs ≡ true → mem a (erase x zs) ≡ true
    kept a [] ne h = h
    kept a (z ∷ zs) ne h = elim (Bool-cases (z == x)) [
      | inl e ↦ rw e (ground arith)
      | inr e ↦ rw e (ground (arith, kept a zs ne))
    ]

    apart : (a : ℕ) → mem a xs ≡ true → (a == x) ≡ false
    apart a h = elim (Bool-cases (a == x)) [
      | inl e ↦
          let same : a ≡ x = ground arith in absurd (ground (arith, d.0, ap (λ z. mem z xs) same))
      | inr e ↦ e
    ]
