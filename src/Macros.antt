-- ===== src/Macros.antt =====
-- The bit, rounding and byte-order macros of Kernel/Include/mrtk_utils.h, on unsigned 32-bit words.
use micro_rt_kernel.Prelude.{
  ℕ, zero, suc, ◌+◌, ◌-◌, ◌*◌, ◌/◌, ◌%◌, ◌^◌, ◌<◌, ◌≤◌, ◌≡◌, ◌∙◌, Bool, not, ◌||◌, ◌&&◌, arith,
  ◌==◌, ltb, if◌then◌else◌, bit_and, bit_or,
}
use native.Mathlib.Nat.{pow-suc}
use micro_rt_kernel.Prelude.Bits.{
  test_bit, test_bit-bit_and, test_bit-bit_or, test_bit-pow, test_bit-not_pow, bit_and_pow,
  bit_or_shift, bit_and_byte1, bit_and_byte2,
}

-- `MRTK_BIT`, for `n` below 32
unfoldable bit : ℕ → ℕ
bit n = 2 ^ n

-- `MRTK_IS_BIT_SET`
unfoldable is_bit_set : ℕ → ℕ → Bool
unfolding bit
is_bit_set val n = not (bit_and val (bit n) == 0)

-- `MRTK_IS_BIT_CLR`
unfoldable is_bit_clr : ℕ → ℕ → Bool
unfolding bit
is_bit_clr val n = bit_and val (bit n) == 0

-- `MRTK_SET_BIT`: the new value of the variable
unfoldable set_bit : ℕ → ℕ → ℕ
unfolding bit
set_bit var n = bit_or var (bit n)

-- `MRTK_CLR_BIT`
unfoldable clr_bit : ℕ → ℕ → ℕ
unfolding bit
clr_bit var n = bit_and var (2 ^ 32 - 1 - bit n)

-- `MRTK_MODIFY_BITS`
unfoldable modify_bits : ℕ → ℕ → ℕ → ℕ
modify_bits var mask val = bit_or (bit_and var (2 ^ 32 - 1 - mask)) (bit_and val mask)

-- `MRTK_MIN`, `MRTK_MAX` and `MRTK_CLAMP`
unfoldable min : ℕ → ℕ → ℕ
min x y = if ltb x y then x else y

unfoldable max : ℕ → ℕ → ℕ
max x y = if ltb y x then x else y

unfoldable clamp : ℕ → ℕ → ℕ → ℕ
unfolding min max
clamp val lo hi = min (max val lo) hi

-- `MRTK_SWAP16` and `MRTK_SWAP32`
unfoldable swap16 : ℕ → ℕ
swap16 val = bit_or (val * 2 ^ 8) (val / 2 ^ 8) % 2 ^ 16

unfoldable swap32 : ℕ → ℕ
swap32 val =
    bit_or
      (bit_or (bit_or (val * 2 ^ 24 % 2 ^ 32) (bit_and val 0xFF00 * 2 ^ 8))
        (bit_and val 0xFF0000 / 2 ^ 8))
      (val / 2 ^ 24)

pow-positive : (n : ℕ) → 0 < 2 ^ n
pow-positive zero = omega arith
pow-positive (suc n) = omega (arith, pow-suc 2 n, pow-positive n)

is_bit_set-test_bit : (val n : ℕ) → is_bit_set val n ≡ test_bit val n
unfolding is_bit_set bit
is_bit_set-test_bit val n = ground (arith, bit_and_pow n val, pow-positive n)

is_bit_set-set_bit :
    (var n m : ℕ) → n < 32 → m < 32 → is_bit_set (set_bit var n) m ≡ (is_bit_set var m || (n == m))
unfolding set_bit bit
is_bit_set-set_bit var n m hn hm =
    simp (is_bit_set-test_bit, test_bit-bit_or, test_bit-pow n m hn hm)

is_bit_set-clr_bit :
    (var n m : ℕ)
    → n < 32
    → m < 32
    → is_bit_set (clr_bit var n) m ≡ (is_bit_set var m && not (n == m))
unfolding clr_bit bit
is_bit_set-clr_bit var n m hn hm =
    simp (is_bit_set-test_bit, test_bit-bit_and, test_bit-not_pow n m hn hm)

is_bit_clr-is_bit_set : (val n : ℕ) → is_bit_clr val n ≡ not (is_bit_set val n)
unfolding is_bit_clr is_bit_set bit
is_bit_clr-is_bit_set val n = ground arith

-- The complement of a word of `w` bits
test_bit-complement :
    (n w x : ℕ) → n < w → x < 2 ^ w → test_bit (2 ^ w - 1 - x) n ≡ not (test_bit x n)
unfolding test_bit
test_bit-complement n zero x h l = absurd (omega arith)
test_bit-complement zero (suc w) x h l = ground (arith, pow-suc 2 w)
test_bit-complement (suc n) (suc w) x h l =
    let half : (2 ^ suc w - 1 - x) / 2 ≡ 2 ^ w - 1 - x / 2 = omega (arith, pow-suc 2 w) in
    rw half (test_bit-complement n w (x / 2) (omega arith) (omega (arith, pow-suc 2 w)))

-- Under the mask the bits are those of `val`, elsewhere those of the variable.
is_bit_set-modify_bits :
    (var mask val m : ℕ)
    → mask < 2 ^ 32
    → m < 32
    → is_bit_set (modify_bits var mask val) m
      ≡ (if is_bit_set mask m then is_bit_set val m else is_bit_set var m)
unfolding modify_bits
is_bit_set-modify_bits var mask val m hk hm =
    let c = test_bit-complement m 32 mask hm hk in
    ground (
      arith,
      c,
      is_bit_set-test_bit (modify_bits var mask val) m,
      is_bit_set-test_bit mask m,
      is_bit_set-test_bit val m,
      is_bit_set-test_bit var m,
      test_bit-bit_or m (bit_and var (2 ^ 32 - 1 - mask)) (bit_and val mask),
      test_bit-bit_and m var (2 ^ 32 - 1 - mask),
      test_bit-bit_and m val mask,
    )

clamp-bounds : (val lo hi : ℕ) → lo ≤ hi → (lo ≤ clamp val lo hi) × (clamp val lo hi ≤ hi)
unfolding clamp min max
clamp-bounds val lo hi h = ground arith

swap16-bytes : (v : ℕ) → v < 2 ^ 16 → swap16 v ≡ v % 2 ^ 8 * 2 ^ 8 + v / 2 ^ 8
unfolding swap16
swap16-bytes v h = omega (arith, bit_or_shift 8 v (v / 2 ^ 8) (omega arith))

swap16_idem : (v : ℕ) → v < 2 ^ 16 → swap16 (swap16 v) ≡ v
swap16_idem v h =
    let e = swap16-bytes v h in omega (arith, e, swap16-bytes (swap16 v) (omega (arith, e)))

swap32-bytes :
    (v : ℕ)
    → v < 2 ^ 32
    → swap32 v
      ≡ v % 2 ^ 8 * 2 ^ 24 + v / 2 ^ 8 % 2 ^ 8 * 2 ^ 16 + v / 2 ^ 16 % 2 ^ 8 * 2 ^ 8 + v / 2 ^ 24
unfolding swap32
swap32-bytes v h =
    let a = v % 256 in
    let b = v / 256 % 256 in
    let c = v / 65536 % 256 in
    let d = v / 16777216 in
    let e1 : v * 2 ^ 24 % 2 ^ 32 ≡ a * 2 ^ 24 = omega arith in
    let e2 : bit_and v 0xFF00 * 2 ^ 8 ≡ b * 2 ^ 16 = omega (arith, bit_and_byte1 v) in
    let e3 : bit_and v 0xFF0000 / 2 ^ 8 ≡ c * 2 ^ 8 = omega (arith, bit_and_byte2 v) in
    let s1 : bit_or (a * 2 ^ 24) (b * 2 ^ 16) ≡ (a * 256 + b) * 2 ^ 16 =
      bit_or_shift 24 a (b * 2 ^ 16) (omega arith) ∙ omega arith in
    let s2 : bit_or ((a * 256 + b) * 2 ^ 16) (c * 2 ^ 8) ≡ ((a * 256 + b) * 256 + c) * 2 ^ 8 =
      bit_or_shift 16 (a * 256 + b) (c * 2 ^ 8) (omega arith) ∙ omega arith in
    let s3 : bit_or (((a * 256 + b) * 256 + c) * 2 ^ 8) d ≡ ((a * 256 + b) * 256 + c) * 2 ^ 8 + d =
      bit_or_shift 8 ((a * 256 + b) * 256 + c) d (omega arith) in
    rw (e1, e2, e3, s1, s2, s3) (omega arith)

swap32_idem : (v : ℕ) → v < 2 ^ 32 → swap32 (swap32 v) ≡ v
swap32_idem v h =
    let e = swap32-bytes v h in omega (arith, e, swap32-bytes (swap32 v) (omega (arith, e)))
