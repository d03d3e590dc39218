-- ===== src/Sched/Lowest.antt =====
-- `_mrtk_schedule_get_highest_prio` against the bits of the bitmap.
use mathlib.Core.Path.{subst}
use native.Mathlib.Nat.{add_assoc}
use native.Mathlib.Numerals.{towards_suc}
use micro_rt_kernel.Prelude.{
  ℕ, zero, suc, ◌+◌, ◌-◌, ◌/◌, ◌%◌, ◌^◌, ◌<◌, ◌≡◌, refl, ap, ◌∙◌, ◌≢◌, inl, inr, Bool, true, false,
  not, ◌||◌, ◌&&◌, arith, ◌==◌, ltb, bit_and, get_or, holds_below, holds_below-test, Bool-cases,
  ==_of_ne,
}
use micro_rt_kernel.Prelude.Bits.{
  test_bit, test_bit-bit_and, bit_and_byte, bit_and_byte1, bit_and_byte2,
}
use micro_rt_kernel.Sched.{bit_bitmap, get_highest_prio}

-- Bit `r` is set, and it is the lowest that is.
pub record IsLowest (b r : ℕ) : Type 0 where
  pub here : test_bit b r ≡ true
  pub below : (m : ℕ) → m < r → test_bit b m ≡ false

lowest_test : ℕ → ℕ → Bool
lowest_test x r = test_bit x r && holds_below r (λ m. not (test_bit x m))

table_test : ℕ → Bool
table_test x = x == 0 || (lowest_test x (get_or bit_bitmap x 0) && ltb (get_or bit_bitmap x 0) 8)

table_holds : holds_below 256 table_test ≡ true
unfolding holds_below table_test lowest_test test_bit
table_holds = refl

byte_bits : holds_below 8 (λ m. test_bit 0xFF m) ≡ true
unfolding holds_below test_bit
byte_bits = refl

lowest_test-IsLowest : (x r : ℕ) → lowest_test x r ≡ true → IsLowest x r
unfolding lowest_test
lowest_test-IsLowest x r h = record {
  here = ground arith;
  below = λ m lt. ground (arith, holds_below-test r (λ m. not (test_bit x m)) m);
}

-- The table gives the lowest bit of every byte but 0.
table-IsLowest :
    (x : ℕ) → x < 256 → x ≢ 0 → IsLowest x (get_or bit_bitmap x 0) × (get_or bit_bitmap x 0 < 8)
unfolding table_test
table-IsLowest x lt ne =
    let t = holds_below-test 256 table_test x table_holds lt in
    (lowest_test-IsLowest x (get_or bit_bitmap x 0) (ground arith), ground arith)

test_bit-byte : (b m : ℕ) → m < 8 → test_bit b m ≡ test_bit (b % 256) m
test_bit-byte b m lt =
    let one = holds_below-test 8 (λ m. test_bit 0xFF m) m byte_bits lt in
    rw (← bit_and_byte b) (ground (arith, test_bit-bit_and m b 0xFF))

test_bit-shift : (b m : ℕ) → test_bit b (m + 8) ≡ test_bit (b / 256) m
unfolding test_bit
test_bit-shift b m = simp towards_suc (ap (λ x. test_bit x m) (omega arith))

IsLowest-low : (b r : ℕ) → IsLowest (b % 256) r → r < 8 → IsLowest b r
IsLowest-low b r h lt = record {
  here = ground (arith, test_bit-byte b r, h.here);
  below = λ m l. ground (arith, test_bit-byte b m, h.below m);
}

zero_byte : (m : ℕ) → test_bit 0 m ≡ false
unfolding test_bit
zero_byte zero = refl
zero_byte (suc m) = zero_byte m

IsLowest-up : (b r : ℕ) → b % 256 ≡ 0 → IsLowest (b / 256) r → IsLowest b (r + 8)
IsLowest-up b r z h = record {
  here = test_bit-shift b r ∙ h.here;
  below = λ m l. elim (Bool-cases (ltb m 8)) [
    | inl e ↦ test_bit-byte b m (ground arith) ∙ ap (λ x. test_bit x m) z ∙ zero_byte m
    | inr e ↦
        let s : m ≡ m - 8 + 8 = ground arith in
        ap (test_bit b) s ∙ test_bit-shift b (m - 8) ∙ h.below (m - 8) (ground arith)
  ];
}

byte-IsLowest : (b : ℕ) → b % 256 ≢ 0 → IsLowest b (get_or bit_bitmap (bit_and b 0xFF) 0)
byte-IsLowest b ne =
    let t = table-IsLowest (b % 256) (omega arith) ne in
    rw (bit_and_byte b) (IsLowest-low b (get_or bit_bitmap (b % 256) 0) t.0 t.1)

-- One byte further up, when the bytes below are 0.
upper-IsLowest :
    (b : ℕ)
    → b % 256 ≡ 0
    → b / 256 % 256 ≢ 0
    → IsLowest b (get_or bit_bitmap (bit_and (b / 256) 0xFF) 0 + 8)
upper-IsLowest b z ne = IsLowest-up b _ z (byte-IsLowest (b / 256) ne)

-- The lowest bit of a byte of the word, through the table.
abbrev table_of : ℕ → ℕ
table_of y = get_or bit_bitmap (bit_and y 0xFF) 0

upper_lowest2 :
    (b : ℕ)
    → b % 256 ≡ 0
    → b / 256 % 256 ≡ 0
    → b / 2 ^ 16 % 256 ≢ 0
    → IsLowest b (table_of (b / 2 ^ 16) + 16)
upper_lowest2 b z0 z1 ne =
    let e : b / 256 / 256 ≡ b / 2 ^ 16 = omega arith in
    subst (IsLowest b) (ap (λ y. table_of y + 8 + 8) e ∙ add_assoc (table_of (b / 2 ^ 16)) 8 8)
      (IsLowest-up b _ z0 (upper-IsLowest (b / 256) z1 (omega arith)))

upper_lowest3 :
    (b : ℕ)
    → b % 256 ≡ 0
    → b / 256 % 256 ≡ 0
    → b / 2 ^ 16 % 256 ≡ 0
    → b / 2 ^ 24 % 256 ≢ 0
    → IsLowest b (table_of (b / 2 ^ 24) + 24)
upper_lowest3 b z0 z1 z2 ne =
    let e : b / 256 / 2 ^ 16 ≡ b / 2 ^ 24 = omega arith in
    subst (IsLowest b) (ap (λ y. table_of y + 16 + 8) e ∙ add_assoc (table_of (b / 2 ^ 24)) 16 8)
      (IsLowest-up b _ z0 (upper_lowest2 (b / 256) z1 (omega arith) (omega arith)))

module _ (b : ℕ) where
  byte_of_mask : (bit_and b 0xFF == 0) ≡ (b % 256 == 0)
  byte_of_mask = rw (bit_and_byte b)

  byte1_of_mask : (bit_and b 0xFF00 == 0) ≡ (b / 256 % 256 == 0)
  byte1_of_mask = rw (bit_and_byte1 b) (ground arith)

  byte2_of_mask : (bit_and b 0xFF0000 == 0) ≡ (b / 2 ^ 16 % 256 == 0)
  byte2_of_mask = rw (bit_and_byte2 b) (ground arith)

-- A nonzero ready bitmap gives the number of its lowest set bit: the ready task of the
-- highest priority is found, whichever byte of the word holds it.
pub get_highest_prio-IsLowest :
    (bitmap : ℕ) → bitmap ≢ 0 → bitmap < 2 ^ 32 → IsLowest bitmap (get_highest_prio bitmap)
unfolding get_highest_prio
get_highest_prio-IsLowest bitmap ne lt =
    rw (==_of_ne bitmap 0 ne, byte_of_mask bitmap, byte1_of_mask bitmap, byte2_of_mask bitmap)
      (elim (Bool-cases (bitmap % 256 == 0)) [
        | inr e0 ↦ rw e0 (byte-IsLowest bitmap (ground arith))
        | inl e0 ↦ elim (Bool-cases (bitmap / 256 % 256 == 0)) [
          | inr e1 ↦ rw (e0, e1) (upper-IsLowest bitmap (ground arith) (ground arith))
          | inl e1 ↦ elim (Bool-cases (bitmap / 2 ^ 16 % 256 == 0)) [
            | inr e2 ↦
                rw (e0, e1, e2) (upper_lowest2 bitmap (ground arith) (ground arith) (ground arith))
            | inl e2 ↦
                rw (e0, e1, e2)
                  (upper_lowest3 bitmap (ground arith) (ground arith) (ground arith) (ground arith))
          ]
        ]
      ])
