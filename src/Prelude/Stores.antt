-- ===== src/Prelude/Stores.antt =====
-- Memory as values by address.
use Prim.Native.Nat.{ℕ, ◌+◌}
use mathlib.Core.Bool.{Bool, ◌&&◌}
use micro_rt_kernel.Prelude.Tests.{◌==◌, ltb, leb, if◌then◌else◌}

abbrev pub Memory : Type 0
Memory = ℕ → ℕ

abbrev pub put : ℕ → ℕ → Memory → Memory
put a v m = λ x. if x == a then v else m x

-- The address `a` is one of the `n` from `d` on.
abbrev pub within : ℕ → ℕ → ℕ → Bool
within d n a = leb d a && ltb a (d + n)
