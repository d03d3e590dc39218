-- ===== src/Event/Bits.antt =====
-- `_mrtk_event_check_condition` as a statement about the single events.
use micro_rt_kernel.Prelude.{ℕ, ◌≡◌, refl, ap, ◌∙◌, ◌↔◌, true, false, ◌&&◌, arith, bit_and}
use micro_rt_kernel.Prelude.Bits.{test_bit, test_bit-bit_and, test_bit-zero, eq-zero_of_test_bit}
use micro_rt_kernel.Event.{flag_and, has, check_condition}

any-zero :
    (set mask option : ℕ)
    → has option flag_and ≡ false
    → check_condition set mask option ≡ false
    → bit_and set mask ≡ 0
unfolding check_condition
any-zero set mask option none h = ground arith

all-mask :
    (set mask option : ℕ)
    → has option flag_and ≡ true
    → check_condition set mask option ≡ true
    → bit_and set mask ≡ mask
unfolding check_condition
all-mask set mask option all h = ground arith

-- Without the option AND, the condition fails exactly if no event of the mask is in the set.
pub check_condition-any :
    (set mask option : ℕ)
    → has option flag_and ≡ false
    → (check_condition set mask option ≡ false)
      ↔ ((n : ℕ) → (test_bit set n && test_bit mask n) ≡ false)
unfolding check_condition
check_condition-any set mask option none = (
  (λ h n.
      let zero_set : bit_and set mask ≡ 0 = any-zero set mask option none h in
      ground
        (arith, test_bit-bit_and n set mask, ap (λ b. test_bit b n) zero_set, test_bit-zero n)),
  (λ h.
      let zero_set : bit_and set mask ≡ 0 =
        eq-zero_of_test_bit (bit_and set mask) (bit_and set mask) (omega arith)
          (λ n. test_bit-bit_and n set mask ∙ h n) in
      rw (none, zero_set) refl),
)

-- With the option AND, the condition says that every event of the mask is in the set.
pub check_condition-all :
    (set mask option n : ℕ)
    → has option flag_and ≡ true
    → check_condition set mask option ≡ true
    → test_bit mask n ≡ true
    → test_bit set n ≡ true
unfolding check_condition
check_condition-all set mask option n all ok bit =
    let same : bit_and set mask ≡ mask = all-mask set mask option all ok in
    ground (arith, test_bit-bit_and n set mask, ap (λ b. test_bit b n) same)
