-- ===== src/Cyclic.antt =====
-- What a circular buffer holds: the cells from an index on, going on at the start after the last.
use mathlib.Core.Path.{subst}
use micro_rt_kernel.Kernel.{update}
use native.Mathlib.Nat.{mod-eq_of_lt, add-mul-mod_self_left}
use micro_rt_kernel.Prelude.{
  ℕ, zero, suc, ◌+◌, ◌-◌, ◌*◌, ◌%◌, ◌≤◌, ◌<◌, ◌≡◌, refl, sym, ap, ◌∙◌, inl, inr, List, [], ◌∷◌,
  ◌++◌, arith, ◌==◌, ltb, if◌then◌else◌, Bool-cases, ==_iff, leb, ◌&&◌, ltb→lt, length,
}

-- The cell after the last one is the first; what `x % size` is for `x` below twice the size.
abbrev pub wrap : ℕ → ℕ → ℕ
wrap size x = if ltb x size then x else x - size

-- The `n` cells from `at` on.
abbrev pub window : (ℕ → ℕ) → ℕ → ℕ → ℕ → List ℕ
window cell size at zero = []
window cell size at (suc n) = cell at ∷ window cell size (wrap size (at + 1)) n

-- The first `n` cells of an array from `at` on.
abbrev pub listing : (ℕ → ℕ) → ℕ → ℕ → List ℕ
listing cell at zero = []
listing cell at (suc n) = cell at ∷ listing cell (at + 1) n

pub length-window : (f : ℕ → ℕ) (size at n : ℕ) → length (window f size at n) ≡ n
length-window f size at zero = refl
length-window f size at (suc n) = ap suc (length-window f size (wrap size (at + 1)) n)

pub mod-wrap : (size x : ℕ) → x < size + size → x % size ≡ wrap size x
mod-wrap size x lt = elim (Bool-cases (ltb x size)) [
  | inl e ↦ rw e (mod-eq_of_lt (ltb→lt x size e))
  | inr e ↦
      let back : x ≡ (x - size) + size * 1 = ground arith in
      rw e (
        ap (λ y. y % size) back
        ∙ add-mul-mod_self_left (x - size) size 1
        ∙ mod-eq_of_lt (ground arith))
]

-- The cell that is `i` steps on.
abbrev pub step : ℕ → ℕ → ℕ → ℕ
step size at i = wrap size (at + i)

step-next :
    (size at i : ℕ) → at < size → i < size → step size (wrap size (at + 1)) i ≡ step size at (suc i)
step-next size at i a b = ground arith

module _ (size : ℕ) where
  step-zero : (at : ℕ) → at < size → step size at 0 ≡ at
  step-zero at lt = ground arith

  pub window-append :
      (f : ℕ → ℕ) (at m n : ℕ)
      → at < size
      → m ≤ size
      → window f size at (m + n) ≡ window f size at m ++ window f size (step size at m) n
  window-append f at zero n lt le =
      let sum : 0 + n ≡ n = omega arith in rw (sum, step-zero at lt) refl
  window-append f at (suc m) n lt le =
      let sum : suc m + n ≡ suc (m + n) = omega arith in
      let rest = window-append f (wrap size (at + 1)) m n (ground arith) (omega arith) in
      rw (sum, rest, step-next size at m lt (omega arith)) refl

  pub window-ext :
      (f g : ℕ → ℕ) (at n : ℕ)
      → at < size
      → n ≤ size
      → ((i : ℕ) → i < n → f (step size at i) ≡ g (step size at i))
      → window f size at n ≡ window g size at n
  window-ext f g at zero lt le same = refl
  window-ext f g at (suc n) lt le same =
      let here : f at ≡ g at = subst (λ a. f a ≡ g a) (step-zero at lt) (same 0 (omega arith)) in
      let rest = window-ext f g (wrap size (at + 1)) n (ground arith) (omega arith) (λ i h.
        subst (λ a. f a ≡ g a) (sym (step-next size at i lt (omega arith)))
          (same (suc i) (omega arith))) in
      rw (here, rest) refl

  pub window-listing :
      (f g : ℕ → ℕ) (at from n : ℕ)
      → at < size
      → n ≤ size
      → ((i : ℕ) → i < n → f (step size at i) ≡ g (from + i))
      → window f size at n ≡ listing g from n
  window-listing f g at from zero lt le same = refl
  window-listing f g at from (suc n) lt le same =
      let here : f at ≡ g from =
        subst (λ a. f a ≡ g from) (step-zero at lt) (same 0 (omega arith) ∙ ap g (omega arith)) in
      let rest =
        window-listing f g (wrap size (at + 1)) (from + 1) n (ground arith) (omega arith) (λ i h.
          ap f (step-next size at i lt (omega arith))
          ∙ same (suc i) (omega arith)
          ∙ ap g (omega arith)) in
      rw (here, rest) refl

-- `for (i = 0; i < n; i++) dst[d + i] = src[s + i]`, the last cell written last.
unfoldable pub copy : ℕ → (ℕ → ℕ) → ℕ → (ℕ → ℕ) → ℕ → ℕ → ℕ
copy zero dst d src s = dst
copy (suc n) dst d src s = update (copy n dst d src s) (d + n) (src (s + n))

-- Inside the range the copy has the source's cells, outside it nothing changed.
pub copy-cell :
    (n : ℕ) (dst : ℕ → ℕ) (d : ℕ) (src : ℕ → ℕ) (s a : ℕ)
    → copy n dst d src s a ≡ (if leb d a && ltb a (d + n) then src (s + (a - d)) else dst a)
unfolding copy
copy-cell zero dst d src s a = ground arith
copy-cell (suc n) dst d src s a = elim (Bool-cases (a == d + n)) [
  | inl e ↦ rw e (
      let same : s + n ≡ s + (a - d) = ground (arith, ==_iff a (d + n)) in
      rw same (ground (arith, ==_iff a (d + n))))
  | inr e ↦ rw e (ground (arith, copy-cell n dst d src s a))
]
