-- ===== src/Align.antt =====
-- `MRTK_ALIGN_UP` and `MRTK_ALIGN_DOWN` of Kernel/Include/mrtk_utils.h, for `MRTK_ALIGN_SIZE` on 32
-- bits.
use micro_rt_kernel.Prelude.{ℕ, ◌+◌, ◌-◌, ◌%◌, ◌^◌, ◌≤◌, ◌<◌, ◌≡◌, arith}

-- `MRTK_ALIGN_SIZE`
abbrev pub align_size : ℕ
align_size = 4

-- The mask `~(align - 1)` clears the digits below the alignment.
unfoldable pub align_down : ℕ → ℕ
align_down n = n - n % align_size

unfoldable pub align_up : ℕ → ℕ
unfolding align_down
align_up n = align_down ((n + align_size - 1) % 2 ^ 32)

pub align_up-bounds :
    (n : ℕ) → n + 3 < 2 ^ 32 → (n ≤ align_up n) × (align_up n < n + 4) × (align_up n % 4 ≡ 0)
unfolding align_up
align_up-bounds n small = omega arith

-- Within four of the top of the range the result is 0.
pub align_up-wraps : (n : ℕ) → 2 ^ 32 ≤ n + 3 → n < 2 ^ 32 → align_up n ≡ 0
unfolding align_up
align_up-wraps n high small = omega arith
