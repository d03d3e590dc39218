-- ===== src/DList/Seg.antt =====
-- Doubly linked segments: `next` and `prev` through the nodes of a list, one at a time.
use micro_rt_kernel.Prelude.{
  ℕ, ◌≡◌, refl, sym, ◌≢◌, inl, inr, Bool, Bool-cases, ==_of_ne, true, false, ◌||◌, List, [], ◌∷◌,
  arith, ◌==◌, if◌then◌else◌, mem, Distinct, erase,
}
use micro_rt_kernel.DList.{Links, insert_before, remove}

-- From `p` the `next` pointers lead through `xs` to `q`, and the `prev` pointers lead back.
abbrev pub Seg : Links → ℕ → List ℕ → ℕ → Type 0
Seg l p [] q = (l.next p ≡ q) × (l.prev q ≡ p)
Seg l p (x ∷ xs) q = (l.next p ≡ x) × (l.prev x ≡ p) × Seg l x xs q

pub next-mem :
    (l : Links) (p q a : ℕ) (xs : List ℕ)
    → Seg l p xs q
    → mem a (p ∷ xs) ≡ true
    → (mem (l.next a) xs || l.next a == q) ≡ true
next-mem l p q a [] s h = ground arith
next-mem l p q a (x ∷ xs) s h = ground (arith, next-mem l x q a xs s.2)

pub prev-mem :
    (l : Links) (p q a : ℕ) (xs : List ℕ)
    → Seg l p xs q
    → (mem a xs || a == q) ≡ true
    → mem (l.prev a) (p ∷ xs) ≡ true
prev-mem l p q a [] s h = ground arith
prev-mem l p q a (x ∷ xs) s h = ground (arith, prev-mem l x q a xs s.2)

-- A segment survives writes that spare its own pointers.
pub frame :
    (l g : Links) (p q : ℕ) (xs : List ℕ)
    → Seg l p xs q
    → ((a : ℕ) → mem a (p ∷ xs) ≡ true → g.next a ≡ l.next a)
    → ((a : ℕ) → (mem a xs || a == q) ≡ true → g.prev a ≡ l.prev a)
    → Seg g p xs q
frame l g p q [] s hn hp = (ground (arith, hn p), ground (arith, hp q))
frame l g p q (x ∷ xs) s hn hp = (
  ground (arith, hn p),
  ground (arith, hp x),
  frame l g x q xs s.2 (λ a m. hn a (ground arith)) (λ a m. hp a (ground arith)),
)

-- The pointers after `insert_before`: the neighbour before `q` is `o`.
module _ (l : Links) (q new a : ℕ) where
  pub next-insert_before :
      (insert_before q new l).next a
      ≡ (if a == l.prev q then new else if a == new then l.next (l.prev q) else l.next a)
  unfolding insert_before
  next-insert_before = refl

  pub prev-insert_before :
      (insert_before q new l).prev a
      ≡ (if a == l.next (l.prev q) then new else if a == new then l.prev q else l.prev a)
  unfolding insert_before
  prev-insert_before = elim (Bool-cases (l.prev q == new)) [ inl e ↦ rw e | inr e ↦ rw e ]

-- The pointers after `remove`, of a node that is not linked to itself.
module _ (l : Links) (node a : ℕ) where
  pub next-remove :
      (remove node l).next a
      ≡ (if a == node then node else if a == l.prev node then l.next node else l.next a)
  unfolding remove
  next-remove = refl

  pub prev-remove :
      l.prev node ≢ node
      → (remove node l).prev a
        ≡ (if a == node then node else if a == l.next node then l.prev node else l.prev a)
  unfolding remove
  prev-remove ne = rw (==_of_ne node (l.prev node) (λ e. ne (sym e)))

-- A node of a segment, its end included, and the node before it point at each other.
pub next-prev :
    (l : Links) (p q a : ℕ) (xs : List ℕ)
    → Seg l p xs q
    → (mem a xs || a == q) ≡ true
    → l.next (l.prev a) ≡ a
next-prev l p q a [] s h = ground arith
next-prev l p q a (x ∷ xs) s h = ground (arith, next-prev l x q a xs s.2)

-- The first node that passes a test, or the end.
abbrev pub first : (ℕ → Bool) → List ℕ → ℕ → ℕ
first test [] q = q
first test (x ∷ xs) q = if test x then x else first test xs q

-- The list with `new` put in front of the first node that passes the test, or at the end.
abbrev pub place : (ℕ → Bool) → ℕ → List ℕ → List ℕ
place test new [] = new ∷ []
place test new (x ∷ xs) = if test x then new ∷ x ∷ xs else x ∷ place test new xs

module _ (test : ℕ → Bool) where
  pub first-mem : (xs : List ℕ) (q : ℕ) → (mem (first test xs q) xs || first test xs q == q) ≡ true
  first-mem [] q = ground arith
  first-mem (x ∷ xs) q = ground (arith, first-mem xs q)

  pub mem-place : (a new : ℕ) (xs : List ℕ) → mem a (place test new xs) ≡ (a == new || mem a xs)
  mem-place a new [] = refl
  mem-place a new (x ∷ xs) = ground (arith, mem-place a new xs)

  pub place-Distinct :
      (new : ℕ) (xs : List ℕ) → Distinct xs → mem new xs ≡ false → Distinct (place test new xs)
  place-Distinct new [] d h = (refl, tt)
  place-Distinct new (x ∷ xs) d h = elim (Bool-cases (test x)) [
    | inl e ↦ rw e (h, d)
    | inr e ↦ rw e (ground (arith, mem-place x new xs), place-Distinct new xs d.1 (ground arith))
  ]

  -- Linking a fresh node in front of that position puts it into the segment there.
  pub Seg-place :
      (l : Links) (p q new : ℕ) (xs : List ℕ)
      → Seg l p xs q
      → mem new (p ∷ xs) ≡ false
      → new ≢ q
      → mem q xs ≡ false
      → Distinct (p ∷ xs)
      → Seg (insert_before (first test xs q) new l) p (place test new xs) q
  Seg-place l p q new [] s fresh ne out d = ground (
    arith,
    next-insert_before l q new p,
    next-insert_before l q new new,
    prev-insert_before l q new new,
    prev-insert_before l q new q,
  )
  Seg-place l p q new (x ∷ xs) s fresh ne out d = elim (Bool-cases (test x)) [
    | inl e ↦ rw e (
      ground (arith, next-insert_before l x new p),
      ground (arith, prev-insert_before l x new new),
      (
        ground (arith, next-insert_before l x new new),
        ground (arith, prev-insert_before l x new x),
        frame l (insert_before x new l) x q xs s.2
            (λ a m. ground (arith, next-insert_before l x new a))
            (λ a m. ground (arith, prev-insert_before l x new a)),
      ),
    )
    | inr e ↦
        let y = first test xs q in
        let at = first-mem xs q in
        rw e (
          ground (arith, prev-mem l x q y xs s.2, next-insert_before l y new p),
          ground (arith, prev-insert_before l y new x, next-prev l x q y xs s.2),
          Seg-place l x q new xs s.2 (ground arith) ne (ground arith) d.1,
        )
  ]

-- A node inside a segment of distinct nodes is not linked to itself.
pub prev-ne :
    (l : Links) (p q node : ℕ) (xs : List ℕ)
    → Seg l p xs q
    → mem node xs ≡ true
    → Distinct (p ∷ xs)
    → l.prev node ≢ node
prev-ne l p q node [] s h d = absurd (ground arith)
prev-ne l p q node (x ∷ xs) s h d = ground (arith, prev-ne l x q node xs s.2)

-- Unlinking a node of a segment leaves the segment of the others.
pub Seg-remove :
    (l : Links) (p q node : ℕ) (xs : List ℕ)
    → Seg l p xs q
    → mem node xs ≡ true
    → mem q xs ≡ false
    → Distinct (p ∷ xs)
    → Seg (remove node l) p (erase node xs) q
Seg-remove l p q node [] s h out d = absurd (ground arith)
Seg-remove l p q node (x ∷ []) s h out d =
    ground (arith, next-remove l node p, prev-remove l node q (prev-ne l p q node (x ∷ []) s h d))
Seg-remove l p q node (x ∷ y ∷ xs) s h out d =
    let ne = prev-ne l p q node (x ∷ y ∷ xs) s h d in
    elim (Bool-cases (x == node)) [
      | inl e ↦ rw e (
        ground (arith, next-remove l node p),
        ground (arith, prev-remove l node y ne),
        frame l (remove node l) y q xs s.2.2 (λ a m. ground (arith, next-remove l node a))
            (λ a m. ground (arith, prev-remove l node a ne)),
      )
      | inr e ↦ rw e (
        ground (arith, next-remove l node p, prev-mem l x q node (y ∷ xs) s.2),
        ground (arith, prev-remove l node x ne, next-mem l x q node (y ∷ xs) s.2),
        Seg-remove l x q node (y ∷ xs) s.2 (ground arith) (ground arith) d.1,
      )
    ]
