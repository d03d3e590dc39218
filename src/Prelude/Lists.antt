-- ===== src/Prelude/Lists.antt =====
-- Lists of addresses and bytes, measured and indexed by native numbers.
use Prim.Native.Nat.{ℕ, zero, suc, ◌+◌}
use mathlib.Core.Path.{◌≡◌, refl}
use mathlib.Core.Bool.{Bool, true, false, ◌||◌}
use mathlib.Core.Option.{Option, none, some}
use mathlib.Core.List.{List, [], ◌∷◌, ◌++◌}
use native.Mathlib.Omega.{arith}
use micro_rt_kernel.Prelude.Tests.{◌==◌, if◌then◌else◌}

module _ {ℓ} {A : Type ℓ} where
  abbrev pub length : List A → ℕ
  length [] = 0
  length (x ∷ xs) = suc (length xs)

  abbrev pub get_elem? : List A → ℕ → Option A
  get_elem? [] i = none
  get_elem? (x ∷ xs) zero = some x
  get_elem? (x ∷ xs) (suc i) = get_elem? xs i

  abbrev pub get_or : List A → ℕ → A → A
  get_or [] i d = d
  get_or (x ∷ xs) zero d = x
  get_or (x ∷ xs) (suc i) d = get_or xs i d

  abbrev pub take : ℕ → List A → List A
  take zero xs = []
  take (suc n) [] = []
  take (suc n) (x ∷ xs) = x ∷ take n xs

  abbrev pub drop : ℕ → List A → List A
  drop zero xs = xs
  drop (suc n) [] = []
  drop (suc n) (x ∷ xs) = drop n xs

  pub length-append : (xs ys : List A) → length (xs ++ ys) ≡ length xs + length ys
  length-append [] ys = omega arith
  length-append (x ∷ xs) ys = omega (arith, length-append xs ys)

-- Membership of an address, as a test.
abbrev pub mem : ℕ → List ℕ → Bool
mem a [] = false
mem a (x ∷ xs) = (a == x) || mem a xs

-- No address twice.
abbrev pub Distinct : List ℕ → Type 0
Distinct [] = Unit
Distinct (x ∷ xs) = (mem x xs ≡ false) × Distinct xs

-- Two lists have no address in common.
abbrev pub Apart : List ℕ → List ℕ → Type 0
Apart xs ys = (a : ℕ) → mem a xs ≡ true → mem a ys ≡ false

-- The list without the first occurrence of an address.
abbrev pub erase : ℕ → List ℕ → List ℕ
erase a [] = []
erase a (x ∷ xs) = if x == a then xs else x ∷ erase a xs

pub mem-append : (a : ℕ) (xs ys : List ℕ) → mem a (xs ++ ys) ≡ (mem a xs || mem a ys)
mem-append a [] ys = refl
mem-append a (x ∷ xs) ys = ground (arith, mem-append a xs ys)

pub mem-erase : (b a : ℕ) (xs : List ℕ) → mem b xs ≡ false → mem b (erase a xs) ≡ false
mem-erase b a [] h = refl
mem-erase b a (x ∷ xs) h = ground (arith, mem-erase b a xs)

pub mem_of_erase : (b a : ℕ) (xs : List ℕ) → mem b (erase a xs) ≡ true → mem b xs ≡ true
mem_of_erase b a [] h = h
mem_of_erase b a (x ∷ xs) h = ground (arith, mem_of_erase b a xs)

pub mem-erase_self : (a : ℕ) (xs : List ℕ) → Distinct xs → mem a (erase a xs) ≡ false
mem-erase_self a [] d = refl
mem-erase_self a (x ∷ xs) d = ground (arith, mem-erase_self a xs d.1)

pub erase-Distinct : (a : ℕ) (xs : List ℕ) → Distinct xs → Distinct (erase a xs)
erase-Distinct a [] d = d
erase-Distinct a (x ∷ xs) d = ground (arith, erase-Distinct a xs d.1, mem-erase x a xs)

pub append-Distinct :
    (xs : List ℕ) (a : ℕ) → Distinct xs → mem a xs ≡ false → Distinct (xs ++ a ∷ [])
append-Distinct [] a d h = (refl, tt)
append-Distinct (x ∷ xs) a d h =
    (ground (arith, mem-append x xs (a ∷ [])), append-Distinct xs a d.1 (ground arith))
