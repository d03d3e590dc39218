-- ===== src/Prelude/Bits.antt =====
-- Bits of a machine word: laws of `bit_and` and `bit_or` at variables.
use Prim.Native.Nat.{
  ℕ, zero, suc, ◌+◌, ◌-◌, ◌*◌, ◌/◌, ◌%◌, ◌^◌, ◌≤◌, ◌<◌, min, max, bit_and, bit_or, digits,
  bit_and-bitwise, bit_or-bitwise,
}
use mathlib.Core.Path.{◌≡◌, refl, sym, ap, ◌∙◌}
use mathlib.Core.Bool.{Bool, true, false, not, ◌&&◌, ◌||◌}
use native.Mathlib.Omega.{arith}
use native.Mathlib.Nat.{pow-suc}
use micro_rt_kernel.Prelude.Tests.{◌==◌, if◌then◌else◌, ltb, ltb→lt, holds_below, holds_below-test}

abbrev xnor : Bool → Bool → Bool
xnor true b = b
xnor false b = not b

xnor_eq : (a b : Bool) → xnor a b ≡ true → a ≡ b
xnor_eq true b h = sym h
xnor_eq false true h = cc
xnor_eq false false h = refl

-- Bit `n` of a word.
unfoldable pub test_bit : ℕ → ℕ → Bool
test_bit b zero = b % 2 == 1
test_bit b (suc n) = test_bit (b / 2) n

-- The digits of a result do not depend on the fuel, for whatever is done to two digits and to the
-- rest of the second number once the first has no digits left.
module _ (rest : ℕ → ℕ) (digit : ℕ → ℕ → ℕ) where
  digits-zero : (f y : ℕ) → digits rest digit f 0 y ≡ rest y
  digits-zero zero y = refl
  digits-zero (suc f) y = refl

  digits-fuel : (x f g y : ℕ) → x ≤ f → x ≤ g → digits rest digit f x y ≡ digits rest digit g x y
  digits-fuel zero f g y l r = digits-zero f y ∙ sym (digits-zero g y)
  digits-fuel (suc x) zero g y l r = absurd (omega arith)
  digits-fuel (suc x) (suc f) zero y l r = absurd (omega arith)
  digits-fuel (suc x) (suc f) (suc g) y l r =
      ap (λ h. h * 2 + digit (suc x % 2) (y % 2))
        (digits-fuel (suc x / 2) f g (y / 2) (omega arith) (omega arith))

zero-bit_and : (y : ℕ) → bit_and 0 y ≡ 0
zero-bit_and = bit_and-bitwise 0

zero-bit_or : (y : ℕ) → bit_or 0 y ≡ y
zero-bit_or = bit_or-bitwise 0

pub bit_and_step : (x y : ℕ) → bit_and x y ≡ bit_and (x / 2) (y / 2) * 2 + min (x % 2) (y % 2)
bit_and_step zero y = omega (zero-bit_and (y / 2), arith, zero-bit_and y)
bit_and_step (suc p) y =
    let enough =
      digits-fuel (λ _. 0) min (suc p / 2) p (suc p / 2) (y / 2) (omega arith) (omega arith) in
    omega (bit_and-bitwise (suc p / 2) (y / 2), enough, arith, bit_and-bitwise (suc p) y)

pub bit_or_step : (x y : ℕ) → bit_or x y ≡ bit_or (x / 2) (y / 2) * 2 + max (x % 2) (y % 2)
bit_or_step zero y = omega (zero-bit_or (y / 2), arith, zero-bit_or y)
bit_or_step (suc p) y =
    let enough =
      digits-fuel (λ r. r) max (suc p / 2) p (suc p / 2) (y / 2) (omega arith) (omega arith) in
    omega (bit_or-bitwise (suc p / 2) (y / 2), enough, arith, bit_or-bitwise (suc p) y)

bit_and-half : (a b : ℕ) → bit_and a b / 2 ≡ bit_and (a / 2) (b / 2)
bit_and-half a b = omega (arith, bit_and_step a b)

bit_or-half : (a b : ℕ) → bit_or a b / 2 ≡ bit_or (a / 2) (b / 2)
bit_or-half a b = omega (arith, bit_or_step a b)

pub test_bit-bit_and : (n a b : ℕ) → test_bit (bit_and a b) n ≡ (test_bit a n && test_bit b n)
unfolding test_bit
test_bit-bit_and zero a b = ground (arith, bit_and_step a b)
test_bit-bit_and (suc n) a b =
    ap (λ x. test_bit x n) (bit_and-half a b) ∙ test_bit-bit_and n (a / 2) (b / 2)

pub test_bit-bit_or : (n a b : ℕ) → test_bit (bit_or a b) n ≡ (test_bit a n || test_bit b n)
unfolding test_bit
test_bit-bit_or zero a b = ground (arith, bit_or_step a b)
test_bit-bit_or (suc n) a b =
    ap (λ x. test_bit x n) (bit_or-half a b) ∙ test_bit-bit_or n (a / 2) (b / 2)

-- A number without bits is 0.
pub eq-zero_of_test_bit : (fuel b : ℕ) → b ≤ fuel → ((n : ℕ) → test_bit b n ≡ false) → b ≡ 0
unfolding test_bit
eq-zero_of_test_bit zero b h z = omega arith
eq-zero_of_test_bit (suc fuel) zero h z = refl
eq-zero_of_test_bit (suc fuel) (suc b) h z =
    ground (arith, z 0, eq-zero_of_test_bit fuel (suc b / 2) (omega arith) (λ n. z (suc n)))

zero_bits : (n : ℕ) → test_bit 0 n ≡ false
unfolding test_bit
zero_bits zero = refl
zero_bits (suc n) = zero_bits n

pub test_bit-zero : (n : ℕ) → test_bit 0 n ≡ false
test_bit-zero n = zero_bits n

pub bit_and-zero : (x : ℕ) → bit_and x 0 ≡ 0
bit_and-zero x =
    eq-zero_of_test_bit (bit_and x 0) (bit_and x 0) (omega arith)
      (λ n. ground (arith, test_bit-bit_and n x 0, test_bit-zero n))

-- A mask's lowest digit.
even_mask : (a k : ℕ) → bit_and a (2 * k) ≡ bit_and (a / 2) k * 2
even_mask a k =
    let e : 2 * k / 2 ≡ k = omega arith in
    let half : bit_and (a / 2) (2 * k / 2) ≡ bit_and (a / 2) k = ap (bit_and (a / 2)) e in
    omega (arith, bit_and_step a (2 * k))

odd_mask : (a k : ℕ) → bit_and a (2 * k + 1) ≡ bit_and (a / 2) k * 2 + a % 2
odd_mask a k =
    let e : (2 * k + 1) / 2 ≡ k = omega arith in
    let half : bit_and (a / 2) ((2 * k + 1) / 2) ≡ bit_and (a / 2) k = ap (bit_and (a / 2)) e in
    omega (arith, bit_and_step a (2 * k + 1))

bit_and_1 : (a : ℕ) → bit_and a 1 ≡ a % 2
bit_and_1 a = omega (arith, odd_mask a 0, bit_and-zero (a / 2))

bit_and_3 : (a : ℕ) → bit_and a 3 ≡ a % 4
bit_and_3 a = omega (arith, odd_mask a 1, bit_and_1 (a / 2))

bit_and_7 : (a : ℕ) → bit_and a 7 ≡ a % 8
bit_and_7 a = omega (arith, odd_mask a 3, bit_and_3 (a / 2))

bit_and_f : (a : ℕ) → bit_and a 0xF ≡ a % 16
bit_and_f a = omega (arith, odd_mask a 7, bit_and_7 (a / 2))

bit_and_1f : (a : ℕ) → bit_and a 0x1F ≡ a % 32
bit_and_1f a = omega (arith, odd_mask a 0xF, bit_and_f (a / 2))

bit_and_3f : (a : ℕ) → bit_and a 0x3F ≡ a % 64
bit_and_3f a = omega (arith, odd_mask a 0x1F, bit_and_1f (a / 2))

bit_and_7f : (a : ℕ) → bit_and a 0x7F ≡ a % 128
bit_and_7f a = omega (arith, odd_mask a 0x3F, bit_and_3f (a / 2))

-- The mask of one byte, and that of the byte `k` bytes up.
pub bit_and_byte : (a : ℕ) → bit_and a 0xFF ≡ a % 256
bit_and_byte a = omega (arith, odd_mask a 0x7F, bit_and_7f (a / 2))

shift_mask : (a k : ℕ) → bit_and a (16 * k) ≡ bit_and (a / 16) k * 16
shift_mask a k =
    let m1 : bit_and a (2 * (8 * k)) ≡ bit_and a (16 * k) = ap (bit_and a) (omega arith) in
    let m2 : bit_and (a / 2) (2 * (4 * k)) ≡ bit_and (a / 2) (8 * k) =
      ap (bit_and (a / 2)) (omega arith) in
    let m3 : bit_and (a / 2 / 2) (2 * (2 * k)) ≡ bit_and (a / 2 / 2) (4 * k) =
      ap (bit_and (a / 2 / 2)) (omega arith) in
    let m4 : bit_and (a / 2 / 2 / 2 / 2) k ≡ bit_and (a / 16) k =
      ap (λ x. bit_and x k) (omega arith) in
    omega (
      arith,
      even_mask a (8 * k),
      even_mask (a / 2) (4 * k),
      even_mask (a / 2 / 2) (2 * k),
      even_mask (a / 2 / 2 / 2) k,
    )

pub bit_and_byte1 : (a : ℕ) → bit_and a 0xFF00 ≡ a / 256 % 256 * 256
bit_and_byte1 a =
    omega (arith, shift_mask a 0xFF0, shift_mask (a / 16) 0xFF, bit_and_byte (a / 16 / 16))

pub bit_and_byte2 : (a : ℕ) → bit_and a 0xFF0000 ≡ a / 2 ^ 16 % 256 * 2 ^ 16
bit_and_byte2 a =
    omega (arith, shift_mask a 0xFF000, shift_mask (a / 16) 0xFF00, bit_and_byte1 (a / 16 / 16))

pub bit_or-lt : (n a b : ℕ) → a < 2 ^ n → b < 2 ^ n → bit_or a b < 2 ^ n
bit_or-lt zero a b p q =
    let p' : a < 1 = p in
    let q' : b < 1 = q in
    let e : a ≡ 0 = omega arith in omega (arith, zero-bit_or b, ap (λ x. bit_or x b) e)
bit_or-lt (suc n) a b p q = omega (
  arith,
  pow-suc 2 n,
  bit_or_step a b,
  bit_or-lt n (a / 2) (b / 2) (omega (arith, pow-suc 2 n)) (omega (arith, pow-suc 2 n)),
)

pub bit_and-le : (fuel a b : ℕ) → a ≤ fuel → bit_and a b ≤ a
bit_and-le fuel zero b h = omega (arith, zero-bit_and b)
bit_and-le zero (suc a) b h = absurd (omega arith)
bit_and-le (suc fuel) (suc a) b h =
    omega (arith, bit_and_step (suc a) b, bit_and-le fuel (suc a / 2) (b / 2) (omega arith))

pub bit_and_pow : (n a : ℕ) → bit_and a (2 ^ n) ≡ (if test_bit a n then 2 ^ n else 0)
unfolding test_bit
bit_and_pow zero a = ground (arith, bit_and_1 a)
bit_and_pow (suc n) a =
    let double : 2 ^ suc n ≡ 2 * 2 ^ n = omega (arith, pow-suc 2 n) in
    rw double (even_mask a (2 ^ n) ∙ ground (arith, bit_and_pow n (a / 2)))

bit_or-zero : (fuel x : ℕ) → x ≤ fuel → bit_or x 0 ≡ x
bit_or-zero zero x h = let e : x ≡ 0 = omega arith in rw e (zero-bit_or 0)
bit_or-zero (suc fuel) x h = ground (arith, bit_or_step x 0, bit_or-zero fuel (x / 2))

-- Bits that do not meet add up.
pub bit_or_shift : (k a b : ℕ) → b < 2 ^ k → bit_or (a * 2 ^ k) b ≡ a * 2 ^ k + b
bit_or_shift zero a b h =
    let e : b ≡ 0 = omega (arith, h) in
    rw e (bit_or-zero (a * 1) (a * 1) (omega arith) ∙ omega arith)
bit_or_shift (suc k) a b h =
    let double : 2 ^ suc k ≡ 2 * 2 ^ k = omega (arith, pow-suc 2 k) in
    let q = a * 2 ^ k in
    let e : a * 2 ^ suc k ≡ 2 * q = rw double (grind arith) in
    let half : bit_or (2 * q / 2) (b / 2) ≡ bit_or q (b / 2) =
      ap (λ x. bit_or x (b / 2)) (omega arith) in
    rw e (
      omega (
        arith,
        bit_or_step (2 * q) b,
        half,
        bit_or_shift k a (b / 2) (omega (arith, double)),
        double,
      ))

-- The bits of `MRTK_BIT(n)` and of its complement on 32 bits.
pow_table : holds_below 32 (λ n. holds_below 32 (λ m. xnor (test_bit (2 ^ n) m) (n == m))) ≡ true
unfolding holds_below test_bit
pow_table = refl

not_pow_table :
    holds_below 32
      (λ n. holds_below 32 (λ m. xnor (test_bit (2 ^ 32 - 1 - 2 ^ n) m) (not (n == m))))
    ≡ true
unfolding holds_below test_bit
not_pow_table = refl

module _ (n m : ℕ) (hn : n < 32) (hm : m < 32) where
  pub test_bit-pow : test_bit (2 ^ n) m ≡ (n == m)
  test_bit-pow = xnor_eq _ _ (
      holds_below-test 32 (λ m. xnor (test_bit (2 ^ n) m) (n == m)) m
        (holds_below-test 32 (λ n. holds_below 32 (λ m. xnor (test_bit (2 ^ n) m) (n == m))) n
          pow_table hn)
        hm)

  pub test_bit-not_pow : test_bit (2 ^ 32 - 1 - 2 ^ n) m ≡ not (n == m)
  test_bit-not_pow = xnor_eq _ _ (
      holds_below-test 32 (λ m. xnor (test_bit (2 ^ 32 - 1 - 2 ^ n) m) (not (n == m))) m
        (holds_below-test 32
          (λ n. holds_below 32 (λ m. xnor (test_bit (2 ^ 32 - 1 - 2 ^ n) m) (not (n == m)))) n
          not_pow_table hn)
        hm)

pow_lt_table : holds_below 32 (λ n. ltb (2 ^ n) (2 ^ 32)) ≡ true
unfolding holds_below
pow_lt_table = refl

pub pow-lt : (n : ℕ) → n < 32 → 2 ^ n < 2 ^ 32
pow-lt n h = ltb→lt _ _ (holds_below-test 32 (λ n. ltb (2 ^ n) (2 ^ 32)) n pow_lt_table h)
