-- ===== src/Text/Copy.antt =====
-- What `mrtk_strncpy` leaves in the memory, and the names of the objects.
use micro_rt_kernel.Prelude.{
  ℕ, zero, suc, ◌+◌, ◌-◌, ◌<◌, ◌≤◌, ◌≡◌, ap, ◌∙◌, ◌⊎◌, some, List, [], ◌∷◌, arith, ◌==◌, ltb,
  if◌then◌else◌, length, get_or, take, Memory, put, within,
}
use micro_rt_kernel.Text.{fill, copy, scan, strlen, set_name, IsText}

-- A byte written outside a text and its NUL
IsText-put :
    (cs : List ℕ) (m : Memory) (s d v : ℕ)
    → (d < s) ⊎ (s + length cs < d)
    → IsText m s cs
    → IsText (put d v m) s cs
IsText-put [] m s d v away h = ground arith
IsText-put (c ∷ cs) m s d v away h =
    (ground arith, h.1, IsText-put cs m (suc s) d v (ground arith) h.2)

fill-at : (n d : ℕ) (m : Memory) (a : ℕ) → fill d n m a ≡ (if within d n a then 0 else m a)
unfolding fill
fill-at zero d m a = ground arith
fill-at (suc n) d m a = ground (arith, fill-at n (suc d) (put d 0 m) a)

pub copy-at :
    (n d s : ℕ) (m : Memory) (cs : List ℕ) (a : ℕ)
    → IsText m s cs
    → (d + n ≤ s) ⊎ (s + length cs < d)
    → copy d s n m a ≡ (if within d n a then get_or cs (a - d) 0 else m a)
unfolding copy
copy-at zero d s m cs a h away = ground arith
copy-at (suc n) d s m [] a h away = ground (arith, fill-at n (suc d) (put d (m s) m) a)
copy-at (suc n) d s m (c ∷ cs) a h away =
    let kept = IsText-put cs m (suc s) d (m s) (ground arith) h.2 in
    let rest = copy-at n (suc d) (suc s) (put d (m s) m) cs a kept (ground arith) in
    ground (arith, rest)

get_or-take :
    (n : ℕ) (cs : List ℕ) (i : ℕ) → get_or (take n cs) i 0 ≡ (if ltb i n then get_or cs i 0 else 0)
get_or-take zero cs i = ground arith
get_or-take (suc n) [] i = ground arith
get_or-take (suc n) (c ∷ cs) zero = ground arith
get_or-take (suc n) (c ∷ cs) (suc i) = ground (arith, get_or-take n cs i)

-- Bytes that are those of the first `n` of a text, with a NUL behind them
take-IsText :
    (n : ℕ) (cs : List ℕ) (m m' : Memory) (s s' : ℕ)
    → IsText m s cs
    → ((i : ℕ) → i ≤ n → m' (s' + i) ≡ get_or (take n cs) i 0)
    → IsText m' s' (take n cs)
take-IsText zero cs m m' s s' h at = ground (arith, at 0)
take-IsText (suc n) [] m m' s s' h at = ground (arith, at 0)
take-IsText (suc n) (c ∷ cs) m m' s s' h at =
    let first : m' s' ≡ c = ap m' (omega arith) ∙ at 0 (omega arith) in
    let rest : (i : ℕ) → i ≤ n → m' (suc s' + i) ≡ get_or (take n cs) i 0 =
      λ i le. ap m' (omega arith) ∙ at (suc i) (omega arith) in
    (first, h.1, take-IsText n cs m m' (suc s) (suc s') h.2 rest)

scan-IsText :
    (fuel s p : ℕ) (m : Memory) (cs : List ℕ)
    → IsText m p cs
    → s ≤ p
    → length cs < fuel
    → scan fuel s p m ≡ some (p - s + length cs)
unfolding scan
scan-IsText zero s p m cs h le enough = absurd (omega arith)
scan-IsText (suc fuel) s p m [] h le enough = ground arith
scan-IsText (suc fuel) s p m (c ∷ cs) h le enough =
    ground (arith, scan-IsText fuel s (suc p) m cs h.2 (omega arith) (omega arith))

-- `mrtk_strlen` gives the length of a text, with more rounds than it has bytes.
pub strlen-IsText :
    (fuel s : ℕ) (m : Memory) (cs : List ℕ)
    → IsText m s cs
    → length cs < fuel
    → strlen fuel s m ≡ some (length cs)
unfolding strlen
strlen-IsText fuel s m cs h enough =
    ground (arith, scan-IsText fuel s s m cs h (omega arith) enough)

-- The byte that `_mrtk_obj_init` writes last
last_byte :
    (field a v w x t : ℕ)
    → v ≡ (if within field 16 a then x else w)
    → t ≡ (if ltb (a - field) 15 then x else 0)
    → (if a == field + 15 then 0 else v) ≡ (if within field 16 a then t else w)
last_byte field a v w x t hv ht = ground arith

set_name-byte :
    (field name : ℕ) (m : Memory) (cs : List ℕ)
    → IsText m name cs
    → (field + 16 ≤ name) ⊎ (name + length cs < field)
    → (a : ℕ)
    → set_name field name m a
      ≡ (if within field 16 a then get_or (take 15 cs) (a - field) 0 else m a)
unfolding set_name
set_name-byte field name m cs h away a =
    last_byte field a _ _ _ _ (copy-at 16 field name m cs a h away) (get_or-take 15 cs (a - field))

length-take : (n : ℕ) (cs : List ℕ) → length (take n cs) ≤ n
length-take zero cs = omega arith
length-take (suc n) [] = omega arith
length-take (suc n) (c ∷ cs) = omega (arith, length-take n cs)

-- The field of a name that is initialised with the text `cs`, which it does not overlap: it holds
-- the first 15 bytes of the text and is filled up with NUL; `mrtk_strlen` ends on it, within 16
-- rounds, with the number of those bytes; and no byte outside the field changes.
pub strlen-set_name :
    (field name : ℕ) (m : Memory) (cs : List ℕ)
    → IsText m name cs
    → (field + 16 ≤ name) ⊎ (name + length cs < field)
    → (strlen 16 field (set_name field name m) ≡ some (length (take 15 cs)))
      × ((a : ℕ)
          → set_name field name m a
            ≡ (if within field 16 a then get_or (take 15 cs) (a - field) 0 else m a))
strlen-set_name field name m cs h away =
    let byte = set_name-byte field name m cs h away in
    let stored = take-IsText 15 cs m (set_name field name m) name field h (λ i le.
      let back : field + i - field ≡ i = omega arith in
      byte (field + i) ∙ ground (arith, ap (λ j. get_or (take 15 cs) j 0) back)) in
    (strlen-IsText 16 field _ (take 15 cs) stored (omega (arith, length-take 15 cs)), byte)
