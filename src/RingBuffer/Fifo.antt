-- ===== src/RingBuffer/Fifo.antt =====
-- The ring buffer as a first-in first-out queue of bytes of at most `size - 1`.
use micro_rt_kernel.Prelude.{ℕ, ◌+◌, ◌-◌, ◌%◌, ◌^◌, ◌<◌, ◌≡◌, List, arith}
use micro_rt_kernel.Cyclic.{wrap, window, mod-wrap, step}
use micro_rt_kernel.RingBuffer.{Rb, get_len, get_free}

pub record IsValid (rb : Rb) : Type 0 where
  pub positive : 0 < rb.size
  pub small : rb.size < 2 ^ 16
  pub reads : rb.read_idx < rb.size
  pub writes : rb.write_idx < rb.size

-- The bytes stored, the oldest first.
abbrev pub contents : Rb → List ℕ
contents rb = window rb.buffer rb.size rb.read_idx (get_len rb)

module _ (rb : Rb) (v : IsValid rb) where
  pub len-bound : get_len rb < rb.size
  unfolding get_len
  len-bound = ground (arith, v.small, v.reads, v.writes)

  -- The bytes stored end where the next one is written.
  pub len-end : step rb.size rb.read_idx (get_len rb) ≡ rb.write_idx
  unfolding get_len
  len-end = ground (arith, v.small, v.reads, v.writes)

  pub free-len : get_free rb ≡ rb.size - 1 - get_len rb
  unfolding get_free
  free-len = ground (arith, v.small, v.reads, v.writes, len-bound)

  pub mod-32 : (x : ℕ) → x < rb.size + rb.size → x % 2 ^ 32 % rb.size ≡ wrap rb.size x
  mod-32 x lt = let low : x % 2 ^ 32 ≡ x = ground (arith, v.small) in rw low (mod-wrap rb.size x lt)
