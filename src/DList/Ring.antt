-- ===== src/DList/Ring.antt =====
-- The circular list at a head: what each operation of mrtk_list.h does to the nodes that it holds.
use micro_rt_kernel.Prelude.{
  Bool-cases, inl, inr, ==_iff, ℕ, ◌≡◌, refl, ap, ◌≢◌, Bool, true, false, ◌||◌, List, [], ◌∷◌, ◌++◌,
  arith, ◌==◌, mem, Distinct, Apart, erase, mem-erase, erase-Distinct,
}
use mathlib.Core.Path.{subst}
use micro_rt_kernel.DList.{Links, init, is_empty, insert_before, remove}
use micro_rt_kernel.DList.Seg
use micro_rt_kernel.DList.Seg.{Seg, frame, first, place}

-- The circular list at `head` holds exactly `xs`, each node once and the head not among them.
pub record IsRing (l : Links) (head : ℕ) (xs : List ℕ) : Type 0 where
  pub links : Seg l head xs head
  pub fresh : mem head xs ≡ false
  pub distinct : Distinct xs

place-never : (new : ℕ) (xs : List ℕ) → place (λ _. false) new xs ≡ xs ++ new ∷ []
place-never new [] = refl
place-never new (x ∷ xs) = ap (λ r. x ∷ r) (place-never new xs)

first-never : (xs : List ℕ) (q : ℕ) → first (λ _. false) xs q ≡ q
first-never [] q = refl
first-never (x ∷ xs) q = first-never xs q

module _ (l : Links) (head : ℕ) where
  pub init-IsRing : IsRing (init head l) head []
  unfolding init
  init-IsRing = record { links = ground arith; fresh = refl; distinct = tt }

  pub is_empty-nil : IsRing l head [] → is_empty head l ≡ true
  unfolding is_empty
  is_empty-nil r = ground (arith, r.links)

  pub is_empty-cons : (x : ℕ) (xs : List ℕ) → IsRing l head (x ∷ xs) → is_empty head l ≡ false
  unfolding is_empty
  is_empty-cons x xs r = ground (arith, r.links, r.fresh)

  pub next-cons : (x : ℕ) (xs : List ℕ) → IsRing l head (x ∷ xs) → l.next head ≡ x
  next-cons x xs r = r.links.0

  -- Linking a fresh node in front of the first node that passes a test, or of the head.
  pub place-IsRing :
      (test : ℕ → Bool) (new : ℕ) (xs : List ℕ)
      → IsRing l head xs
      → new ≢ head
      → mem new xs ≡ false
      → IsRing (insert_before (first test xs head) new l) head (place test new xs)
  place-IsRing test new xs r ne out = record {
    links =
        Seg.Seg-place test l head head new xs r.links (ground arith) ne r.fresh
          (r.fresh, r.distinct);
    fresh = ground (arith, Seg.mem-place test head new xs, r.fresh);
    distinct = Seg.place-Distinct test new xs r.distinct out;
  }

  -- Linking a fresh node in front of the head appends it.
  pub insert_before-IsRing :
      (new : ℕ) (xs : List ℕ)
      → IsRing l head xs
      → new ≢ head
      → mem new xs ≡ false
      → IsRing (insert_before head new l) head (xs ++ new ∷ [])
  insert_before-IsRing new xs r ne out = rw (← place-never new xs) (
      subst (λ p. IsRing (insert_before p new l) head (place (λ _. false) new xs))
        (first-never xs head) (place-IsRing (λ _. false) new xs r ne out))

  -- Unlinking a node of the ring leaves the others, in order.
  pub remove-IsRing :
      (node : ℕ) (xs : List ℕ)
      → IsRing l head xs
      → mem node xs ≡ true
      → IsRing (remove node l) head (erase node xs)
  remove-IsRing node xs r h = record {
    links = Seg.Seg-remove l head head node xs r.links h r.fresh (r.fresh, r.distinct);
    fresh = mem-erase head node xs r.fresh;
    distinct = erase-Distinct node xs r.distinct;
  }

  -- A ring survives writes that spare its own nodes and head.
  pub IsRing-frame :
      (g : Links) (xs : List ℕ)
      → IsRing l head xs
      → ((a : ℕ) → mem a (head ∷ xs) ≡ true → (g.next a ≡ l.next a) × (g.prev a ≡ l.prev a))
      → IsRing g head xs
  IsRing-frame g xs r same = record {
    links = frame l g head head xs r.links (λ a m. (same a m).0) (λ a m. (same a (ground arith)).1);
    fresh = r.fresh;
    distinct = r.distinct;
  }

-- Making another node a list of its own.
pub init-other :
    (l : Links) (head node : ℕ) (xs : List ℕ)
    → IsRing l head xs
    → mem node (head ∷ xs) ≡ false
    → IsRing (init node l) head xs
unfolding init
init-other l head node xs r out = IsRing-frame l head (init node l) xs r λ a m.
    let apart : (a == node) ≡ false = elim (Bool-cases (a == node)) [
      | inl e ↦
          let same : a ≡ node = (==_iff _ _).0 e in
          absurd (ground (arith, ap (λ z. mem z (head ∷ xs)) same))
      | inr e ↦ e
    ] in
    (rw apart refl, rw apart refl)

-- A ring is not touched by an operation on another ring with which it shares no node.
module _ (l : Links) (head : ℕ) (xs : List ℕ) (r : IsRing l head xs) (other : ℕ) (ys : List ℕ)
    (s : IsRing l other ys) where
  pub insert_before-other :
      (pos new : ℕ)
      → (mem pos ys || pos == other) ≡ true
      → Apart (head ∷ xs) (other ∷ new ∷ ys)
      → IsRing (insert_before pos new l) head xs
  insert_before-other pos new at apart =
      let before = Seg.prev-mem l other other pos ys s.links at in
      let back = Seg.next-prev l other other pos ys s.links at in
      IsRing-frame l head (insert_before pos new l) xs r λ a m. (
        ground (arith, Seg.next-insert_before l pos new a, apart a),
        ground (arith, Seg.prev-insert_before l pos new a, apart a),
      )

  pub remove-other :
      (node : ℕ)
      → mem node ys ≡ true
      → Apart (head ∷ xs) (other ∷ ys)
      → IsRing (remove node l) head xs
  remove-other node h apart =
      let ne = Seg.prev-ne l other other node ys s.links h (s.fresh, s.distinct) in
      let before = Seg.prev-mem l other other node ys s.links (ground arith) in
      let after = Seg.next-mem l other other node ys s.links (ground arith) in
      IsRing-frame l head (remove node l) xs r λ a m. (
        ground (arith, Seg.next-remove l node a, apart a),
        ground (arith, Seg.prev-remove l node a ne, apart a),
      )
