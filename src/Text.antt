-- ===== src/Text.antt =====
-- The string functions of Kernel/Include/mrtk_utils.h on memory as bytes by address, and the name
-- that `_mrtk_obj_init` of Kernel/Src/mrtk_obj.c writes.
use micro_rt_kernel.Prelude.{
  ℕ, zero, suc, ◌+◌, ◌-◌, ◌≡◌, ◌≢◌, Option, none, some, List, [], ◌∷◌, ◌&&◌, not, ◌==◌, leb,
  if◌then◌else◌, Memory, put,
}
pub mod Copy
pub mod Compare

-- The NUL bytes behind the text, `n` of them from `d` on
unfoldable pub fill : ℕ → ℕ → Memory → Memory
fill d zero m = m
fill d (suc n) m = fill (suc d) n (put d 0 m)

-- The loop of `mrtk_strncpy`, with `n` bytes to write: after a NUL the rest is filled.
unfoldable pub copy : ℕ → ℕ → ℕ → Memory → Memory
copy d s zero m = m
copy d s (suc n) m =
    let m1 = put d (m s) m in
    let rest = copy (suc d) (suc s) n m1 in if m s == 0 then fill (suc d) n m1 else rest

-- `mrtk_strncpy`: the address that it returns, and the memory
unfoldable pub strncpy : ℕ → ℕ → ℕ → Memory → ℕ × Memory
unfolding copy
strncpy dst src n m = (dst, copy dst src n m)

-- `mrtk_strlen`, in at most `fuel` rounds; `p` goes through the text that starts at `s`
unfoldable pub scan : ℕ → ℕ → ℕ → Memory → Option ℕ
scan zero s p m = none
scan (suc fuel) s p m = let rest = scan fuel s (suc p) m in if m p == 0 then some (p - s) else rest

unfoldable pub strlen : ℕ → ℕ → Memory → Option ℕ
unfolding scan
strlen fuel s m = scan fuel s s m

-- An `int`: `negsuc n` is -1 - n.
pub data ℤ : Type 0 where
  pos : ℕ → ℤ
  negsuc : ℕ → ℤ

-- The difference of two bytes
abbrev pub minus : ℕ → ℕ → ℤ
minus a b = if leb b a then pos (a - b) else negsuc (b - a - 1)

-- `mrtk_strcmp`, in at most `fuel` rounds
unfoldable pub strcmp : ℕ → ℕ → ℕ → Memory → Option ℤ
strcmp zero s1 s2 m = none
strcmp (suc fuel) s1 s2 m =
    let rest = strcmp fuel (suc s1) (suc s2) m in
    if not (m s1 == 0) && (m s1 == m s2) then rest else some (minus (m s1) (m s2))

-- `MRTK_OBJ_NAME_MAX_LEN`
abbrev pub name_max : ℕ
name_max = 16

-- What `_mrtk_obj_init` does to the field `name`, at the address `field`
unfoldable pub set_name : ℕ → ℕ → Memory → Memory
unfolding strncpy
set_name field name m = put (field + (name_max - 1)) 0 (strncpy field name name_max m).1

-- The bytes from `s` on are those of a text, with a NUL behind them.
abbrev pub IsText : Memory → ℕ → List ℕ → Type 0
IsText m s [] = m s ≡ 0
IsText m s (c ∷ cs) = (m s ≡ c) × (c ≢ 0) × IsText m (suc s) cs
