-- ===== src/RingBuffer/Char.antt =====
-- `mrtk_rb_putc` and `mrtk_rb_getc` are the write and the read of one character.
use micro_rt_kernel.Prelude.{
  ℕ, ◌+◌, ◌-◌, ◌%◌, ◌^◌, ◌<◌, ◌≤◌, ap, ◌≡◌, refl, ◌⊎◌, inl, inr, true, false, [], ◌∷◌, ◌++◌, arith,
  ◌==◌, Bool-cases, length,
}
use micro_rt_kernel.Kernel.{eok, efull, eempty, update}
use micro_rt_kernel.Cyclic.{step, length-window}
use micro_rt_kernel.RingBuffer.{Rb, is_full, is_empty, get_len, putc, getc}
use micro_rt_kernel.RingBuffer.Fifo.{IsValid, contents, len-bound, mod-32}
use micro_rt_kernel.RingBuffer.Write.{grown-IsValid, grown-contents}
use micro_rt_kernel.RingBuffer.Read.{shrunk-IsValid, shrunk-contents}

module _ (rb : Rb) (v : IsValid rb) where
  next-write : (rb.write_idx + 1) % 2 ^ 32 % rb.size ≡ step rb.size rb.write_idx 1
  next-write = mod-32 rb v (rb.write_idx + 1) (ground (arith, v.writes))

  next-read : (rb.read_idx + 1) % 2 ^ 32 % rb.size ≡ step rb.size rb.read_idx 1
  next-read = mod-32 rb v (rb.read_idx + 1) (ground (arith, v.reads))

  full-len : (step rb.size rb.write_idx 1 == rb.read_idx) ≡ (get_len rb + 1 == rb.size)
  unfolding get_len
  full-len = ground (arith, v.small, v.reads, v.writes)

  put-old :
      (ch i : ℕ)
      → get_len rb + 1 < rb.size
      → i < get_len rb
      → update rb.buffer rb.write_idx (ch % 256) (step rb.size rb.read_idx i)
        ≡ rb.buffer (step rb.size rb.read_idx i)
  unfolding get_len
  put-old ch i free h = ground (arith, v.small, v.reads, v.writes)

  put-new :
      (ch i : ℕ)
      → i < 1
      → update rb.buffer rb.write_idx (ch % 256) (step rb.size rb.write_idx i) ≡ ch % 256
  put-new ch i h = ground (arith, v.writes)

  full-length : (get_len rb + 1 == rb.size) ≡ true → length (contents rb) ≡ rb.size - 1
  full-length e = rw (length-window rb.buffer rb.size rb.read_idx (get_len rb)) (ground arith)

  empty-len : (rb.write_idx == rb.read_idx) ≡ true → get_len rb ≡ 0
  unfolding get_len
  empty-len e = ground arith

  some-len : (rb.write_idx == rb.read_idx) ≡ false → 1 ≤ get_len rb
  unfolding get_len
  some-len e = ground (arith, v.small, v.reads, v.writes)

  empty-contents : (rb.write_idx == rb.read_idx) ≡ true → contents rb ≡ []
  empty-contents e = let none : get_len rb ≡ 0 = empty-len e in rw none refl

  -- In a buffer of fewer than 65536 cells with both indices inside it: a character is refused
  -- exactly if the buffer holds `size - 1` bytes, and then nothing changes. Otherwise it stands
  -- behind the others, as one byte.
  pub putc-append :
      (ch : ℕ)
      → let r = putc rb ch in
        ((r.0 ≡ efull) × (r.1 ≡ rb) × (length (contents rb) ≡ rb.size - 1))
        ⊎ ((r.0 ≡ eok) × IsValid r.1 × (contents r.1 ≡ contents rb ++ ch % 256 ∷ []))
  unfolding putc is_full
  putc-append ch = elim (Bool-cases (get_len rb + 1 == rb.size)) [
    | inl e ↦ rw (next-write, full-len, e) (inl (refl, refl, full-length e))
    | inr e ↦
        let free : get_len rb + 1 < rb.size = ground (arith, len-bound rb v) in
        let cell = update rb.buffer rb.write_idx (ch % 256) in
        rw (next-write, full-len, e)
          (inr (
            refl,
            grown-IsValid rb v cell 1 (ground arith),
            grown-contents rb v cell (λ _. ch % 256) 1 (ground arith) (λ i h. put-old ch i free h)
                (put-new ch),
          ))
  ]

  -- In a buffer of fewer than 65536 cells with both indices inside it: a character comes out
  -- exactly if there is one, and it is the oldest; the others stay.
  pub getc-take :
      (ch : ℕ)
      → let r = getc rb ch in
        ((r.0 ≡ eempty) × (r.1 ≡ ch) × (r.2 ≡ rb) × (contents rb ≡ []))
        ⊎ ((r.0 ≡ eok) × IsValid r.2 × (contents rb ≡ r.1 ∷ contents r.2))
  unfolding getc is_empty
  getc-take ch = elim (Bool-cases (rb.write_idx == rb.read_idx)) [
    | inl e ↦ rw e (inl (refl, refl, refl, empty-contents e))
    | inr e ↦
        let some_byte : 1 ≤ get_len rb = some-len e in
        rw (e, next-read)
          (inr (
            refl,
            shrunk-IsValid rb v 1 some_byte,
            shrunk-contents rb v (λ _. rb.buffer rb.read_idx) 1 some_byte
                (λ i h. ap rb.buffer (ground (arith, v.reads))),
          ))
  ]
