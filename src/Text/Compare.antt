-- ===== src/Text/Compare.antt =====
-- `mrtk_strcmp` orders texts as lists of bytes.
use micro_rt_kernel.Prelude.{
  ℕ, zero, suc, ◌<◌, ◌≡◌, ◌↔◌, refl, ap, sym, ◌∙◌, some, List, [], ◌∷◌, arith, ◌==◌, if◌then◌else◌,
  length, Memory,
}
use micro_rt_kernel.Text.{ℤ, pos, minus, strcmp, IsText}

-- The first difference of two texts; a text ends below every byte.
abbrev pub order : List ℕ → List ℕ → ℤ
order [] [] = pos 0
order [] (d ∷ ds) = minus 0 d
order (c ∷ cs) [] = minus c 0
order (c ∷ cs) (d ∷ ds) = if c == d then order cs ds else minus c d

-- On two texts `mrtk_strcmp` ends, with more rounds than the first has bytes, with the difference
-- of the first bytes in which they differ, or 0 if there are none.
pub strcmp-order :
    (fuel s1 s2 : ℕ) (m : Memory) (cs ds : List ℕ)
    → IsText m s1 cs
    → IsText m s2 ds
    → length cs < fuel
    → strcmp fuel s1 s2 m ≡ some (order cs ds)
unfolding strcmp
strcmp-order zero s1 s2 m cs ds h g enough = absurd (omega arith)
strcmp-order (suc fuel) s1 s2 m [] [] h g enough = ground arith
strcmp-order (suc fuel) s1 s2 m [] (d ∷ ds) h g enough = ground arith
strcmp-order (suc fuel) s1 s2 m (c ∷ cs) [] h g enough = ground arith
strcmp-order (suc fuel) s1 s2 m (c ∷ cs) (d ∷ ds) h g enough =
    ground (arith, strcmp-order fuel (suc s1) (suc s2) m cs ds h.2 g.2 (omega arith))

minus-zero : (a b : ℕ) → minus a b ≡ pos 0 → a ≡ b
minus-zero a b h = ground arith

order-zero :
    (m : Memory) (s1 s2 : ℕ) (cs ds : List ℕ)
    → IsText m s1 cs
    → IsText m s2 ds
    → order cs ds ≡ pos 0
    → cs ≡ ds
order-zero m s1 s2 [] [] h g e = refl
order-zero m s1 s2 [] (d ∷ ds) h g e = absurd (g.1 (sym (minus-zero 0 d e) ∙ sym refl))
order-zero m s1 s2 (c ∷ cs) [] h g e = absurd (h.1 (minus-zero c 0 e))
order-zero m s1 s2 (c ∷ cs) (d ∷ ds) h g e =
    ground (arith, order-zero m (suc s1) (suc s2) cs ds h.2 g.2, minus-zero c d)

order_self : (cs : List ℕ) → order cs cs ≡ pos 0
order_self [] = refl
order_self (c ∷ cs) = ground (arith, order_self cs)

-- The result is 0 exactly on equal texts.
pub strcmp-zero :
    (fuel s1 s2 : ℕ) (m : Memory) (cs ds : List ℕ)
    → IsText m s1 cs
    → IsText m s2 ds
    → length cs < fuel
    → (strcmp fuel s1 s2 m ≡ some (pos 0)) ↔ (cs ≡ ds)
strcmp-zero fuel s1 s2 m cs ds h g enough =
    let value = strcmp-order fuel s1 s2 m cs ds h g enough in
    (
      λ e. order-zero m s1 s2 cs ds h g (cc (value, e)),
      λ e. value ∙ ap some (ap (order cs) (sym e) ∙ order_self cs),
    )
