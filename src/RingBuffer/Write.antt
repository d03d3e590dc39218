-- ===== src/RingBuffer/Write.antt =====
-- `mrtk_rb_write`: the buffer as a queue takes bytes at its end.
use mathlib.Core.List.{append-nil}
use micro_rt_kernel.Prelude.{
  ℕ, ◌+◌, ◌-◌, ◌%◌, ◌^◌, ◌≤◌, ◌<◌, ◌≡◌, refl, sym, ap, ◌⊎◌, inl, inr, true, false, ◌++◌, arith,
  ◌==◌, ltb, leb, if◌then◌else◌, Bool-cases, ◌&&◌, length, min,
}
use micro_rt_kernel.Cyclic.{
  listing, step, window-append, window-ext, window-listing, copy, copy-cell, length-window,
}
use micro_rt_kernel.RingBuffer.{Rb, get_len, get_free, write}
use micro_rt_kernel.RingBuffer.Fifo.{IsValid, contents, len-bound, len-end, free-len, mod-32}

module _ (rb : Rb) (v : IsValid rb) where
  -- The bytes that a write of `n` takes.
  abbrev pub room : ℕ
  room = rb.size - 1 - get_len rb

  abbrev pub taken : ℕ → ℕ
  taken n = if ltb n room then n else room

  abbrev ahead : ℕ
  ahead = rb.size - rb.write_idx

  room-u16 : get_free rb % 2 ^ 16 ≡ room
  room-u16 = ground (arith, free-len rb v, v.small)

  taken-u16 : (n : ℕ) → taken n % 2 ^ 16 ≡ taken n
  taken-u16 n = ground (arith, v.small)

  ahead-u16 : (rb.size + 2 ^ 32 - rb.write_idx) % 2 ^ 16 ≡ ahead
  ahead-u16 = ground (arith, v.small, v.writes)

  -- A write without the truncations, which have no effect on a buffer of this size.
  write-eq :
      (ptr : ℕ → ℕ) (n : ℕ)
      → write rb ptr n ≡ (
          if room == 0
          then (0, rb)
          else if leb (taken n) ahead
          then (
            taken n,
            record rb {
              buffer = copy (taken n) rb.buffer rb.write_idx ptr 0;
              write_idx = (rb.write_idx + taken n) % 2 ^ 32 % rb.size;
            },
          )
          else (
            taken n,
            record rb {
              buffer =
                  copy
                    ((taken n - ahead) % 2 ^ 16)
                    (copy ahead rb.buffer rb.write_idx ptr 0)
                    0
                    ptr
                    ahead;
              write_idx = (taken n - ahead) % 2 ^ 16;
            },
          ))
  unfolding write
  write-eq ptr n = rw (room-u16, taken-u16 n, ahead-u16) refl

  -- The buffer with other cells, and the next byte to write `w` cells on.
  abbrev pub grown : (ℕ → ℕ) → ℕ → Rb
  grown cell w = record rb { buffer = cell; write_idx = step rb.size rb.write_idx w }

  grown-len : (cell : ℕ → ℕ) (w : ℕ) → w ≤ room → get_len (grown cell w) ≡ get_len rb + w
  unfolding get_len
  grown-len cell w le = ground (arith, v.small, v.reads, v.writes)

  pub grown-IsValid : (cell : ℕ → ℕ) (w : ℕ) → w ≤ room → IsValid (grown cell w)
  grown-IsValid cell w le = record {
    positive = v.positive;
    small = v.small;
    reads = v.reads;
    writes = ground (arith, v.small, v.reads, v.writes);
  }

  -- Cells that keep what is stored, and have the new bytes behind it.
  pub grown-contents :
      (cell ptr : ℕ → ℕ) (w : ℕ)
      → w ≤ room
      → ((i : ℕ)
          → i < get_len rb
          → cell (step rb.size rb.read_idx i) ≡ rb.buffer (step rb.size rb.read_idx i))
      → ((i : ℕ) → i < w → cell (step rb.size rb.write_idx i) ≡ ptr (0 + i))
      → contents (grown cell w) ≡ contents rb ++ listing ptr 0 w
  grown-contents cell ptr w le old new =
      let front =
        window-ext rb.size cell rb.buffer rb.read_idx (get_len rb) v.reads
          (ground (arith, len-bound rb v)) old in
      let back =
        window-listing rb.size cell ptr rb.write_idx 0 w v.writes (ground (arith, len-bound rb v))
          new in
      rw
        (
          grown-len cell w le,
          window-append rb.size cell rb.read_idx (get_len rb) w v.reads
              (ground (arith, len-bound rb v)),
          len-end rb v,
          front,
          back,
        )
        refl

  direct-outside :
      (w : ℕ)
      → w ≤ room
      → w ≤ ahead
      → (i : ℕ) → i < get_len rb
      → (leb rb.write_idx (step rb.size rb.read_idx i)
          && ltb (step rb.size rb.read_idx i) (rb.write_idx + w))
        ≡ false
  unfolding get_len
  direct-outside w le short i h = ground (arith, v.small, v.reads, v.writes)

  direct-contents :
      (ptr : ℕ → ℕ) (w : ℕ)
      → w ≤ room
      → w ≤ ahead
      → contents (grown (copy w rb.buffer rb.write_idx ptr 0) w) ≡ contents rb ++ listing ptr 0 w
  direct-contents ptr w le short =
      grown-contents (copy w rb.buffer rb.write_idx ptr 0) ptr w le
        (λ i h.
          let outside : (leb rb.write_idx (step rb.size rb.read_idx i)
                && ltb (step rb.size rb.read_idx i) (rb.write_idx + w))
              ≡ false =
            direct-outside w le short i h in
          rw (copy-cell w rb.buffer rb.write_idx ptr 0 (step rb.size rb.read_idx i), outside) refl)
        (λ i h.
          let at : step rb.size rb.write_idx i ≡ rb.write_idx + i = ground arith in
          let offset : 0 + (rb.write_idx + i - rb.write_idx) ≡ 0 + i = omega arith in
          let inside : (leb rb.write_idx (rb.write_idx + i)
                && ltb (rb.write_idx + i) (rb.write_idx + w))
              ≡ true =
            ground arith in
          rw (at, copy-cell w rb.buffer rb.write_idx ptr 0 (rb.write_idx + i), inside, offset) refl)

  abbrev folded : (ℕ → ℕ) → ℕ → ℕ → ℕ
  folded ptr w = copy (w - ahead) (copy ahead rb.buffer rb.write_idx ptr 0) 0 ptr ahead

  folded-outside :
      (w : ℕ)
      → w ≤ room
      → ahead < w
      → (i : ℕ) → i < get_len rb
      → let c = step rb.size rb.read_idx i in
        ((leb rb.write_idx c && ltb c (rb.write_idx + ahead)) ≡ false)
        × ((leb 0 c && ltb c (0 + (w - ahead))) ≡ false)
  unfolding get_len
  folded-outside w le long i h = ground (arith, v.small, v.reads, v.writes)

  folded-new :
      (ptr : ℕ → ℕ) (w : ℕ)
      → w ≤ room
      → ahead < w
      → (i : ℕ) → i < w
      → folded ptr w (step rb.size rb.write_idx i) ≡ ptr (0 + i)
  folded-new ptr w le long i h = elim (Bool-cases (ltb i ahead)) [
    | inl e ↦
        let at : step rb.size rb.write_idx i ≡ rb.write_idx + i = ground arith in
        let offset : 0 + (rb.write_idx + i - rb.write_idx) ≡ 0 + i = omega arith in
        let inside : (leb rb.write_idx (rb.write_idx + i)
              && ltb (rb.write_idx + i) (rb.write_idx + ahead))
            ≡ true =
          ground arith in
        let beside : (leb 0 (rb.write_idx + i) && ltb (rb.write_idx + i) (0 + (w - ahead)))
            ≡ false =
          ground (arith, len-bound rb v) in
        rw
          (
            at,
            copy-cell (w - ahead) (copy ahead rb.buffer rb.write_idx ptr 0) 0 ptr ahead
                (rb.write_idx + i),
            beside,
            copy-cell ahead rb.buffer rb.write_idx ptr 0 (rb.write_idx + i),
            inside,
            offset,
          )
          refl
    | inr e ↦
        let at : step rb.size rb.write_idx i ≡ i - ahead = ground (arith, v.writes) in
        let offset : ahead + (i - ahead - 0) ≡ 0 + i = ground arith in
        let inside : (leb 0 (i - ahead) && ltb (i - ahead) (0 + (w - ahead))) ≡ true =
          ground arith in
        rw
          (
            at,
            copy-cell (w - ahead) (copy ahead rb.buffer rb.write_idx ptr 0) 0 ptr ahead (i - ahead),
            inside,
            offset,
          )
          refl
  ]

  folded-contents :
      (ptr : ℕ → ℕ) (w : ℕ)
      → w ≤ room
      → ahead < w
      → contents (grown (folded ptr w) w) ≡ contents rb ++ listing ptr 0 w
  folded-contents ptr w le long =
      grown-contents (folded ptr w) ptr w le
        (λ i h.
          let out = folded-outside w le long i h in
          let c = step rb.size rb.read_idx i in
          rw
            (
              copy-cell (w - ahead) (copy ahead rb.buffer rb.write_idx ptr 0) 0 ptr ahead c,
              out.1,
              copy-cell ahead rb.buffer rb.write_idx ptr 0 c,
              out.0,
            )
            refl)
        (folded-new ptr w le long)

  direct-end :
      (n : ℕ) → (rb.write_idx + taken n) % 2 ^ 32 % rb.size ≡ step rb.size rb.write_idx (taken n)
  direct-end n = mod-32 rb v (rb.write_idx + taken n) (ground (arith, v.writes))

  folded-end : (n : ℕ) → ahead < taken n → (taken n - ahead) % 2 ^ 16 ≡ taken n - ahead
  folded-end n lt = ground (arith, v.small)

  folded-step : (n : ℕ) → ahead < taken n → taken n - ahead ≡ step rb.size rb.write_idx (taken n)
  folded-step n lt = ground (arith, v.writes)

  write-cases :
      (ptr : ℕ → ℕ) (n : ℕ)
      → ((room ≡ 0) × (write rb ptr n ≡ (0, rb)))
        ⊎ ((taken n ≤ ahead)
            × (write rb ptr n
                ≡ (taken n, grown (copy (taken n) rb.buffer rb.write_idx ptr 0) (taken n))))
        ⊎ ((ahead < taken n) × (write rb ptr n ≡ (taken n, grown (folded ptr (taken n)) (taken n))))
  write-cases ptr n = elim (Bool-cases (room == 0)) [
    | inl e ↦ inl (ground arith, rw (write-eq ptr n, e) refl)
    | inr e ↦ elim (Bool-cases (leb (taken n) ahead)) [
      | inl f ↦ inr (inl (ground arith, rw (write-eq ptr n, e, f, direct-end n) refl))
      | inr f ↦
          let lt : ahead < taken n = ground arith in
          inr (
            inr (
              lt,
              rw (write-eq ptr n, e, f, folded-end n lt)
                  (ap (λ x. (taken n, record rb { buffer = folded ptr (taken n); write_idx = x }))
                    (folded-step n lt)),
            ))
    ]
  ]

  taken-room : (n : ℕ) → taken n ≤ room
  taken-room n = ground arith

  taken-min : (n : ℕ) → taken n ≡ min n (rb.size - 1 - length (contents rb))
  taken-min n = rw (length-window rb.buffer rb.size rb.read_idx (get_len rb)) (ground arith)

  none-min : (n : ℕ) → room ≡ 0 → 0 ≡ min n (rb.size - 1 - length (contents rb))
  none-min n full = rw (length-window rb.buffer rb.size rb.read_idx (get_len rb)) (ground arith)

  -- In a buffer of fewer than 65536 cells with both indices inside it: a write takes as many of the
  -- bytes offered as there is room for, and says how many; they stand behind those that were stored
  -- before, in order.
  pub write-append :
      (ptr : ℕ → ℕ) (n : ℕ)
      → let r = write rb ptr n in
        (r.0 ≡ min n (rb.size - 1 - length (contents rb)))
        × IsValid r.1
        × (contents r.1 ≡ contents rb ++ listing ptr 0 r.0)
  write-append ptr n = elim (write-cases ptr n) [
    | inl (full, e) ↦ rw e (none-min n full, v, sym (append-nil (contents rb)))
    | inr (inl (short, e)) ↦ rw e (
      taken-min n,
      grown-IsValid (copy (taken n) rb.buffer rb.write_idx ptr 0) (taken n) (taken-room n),
      direct-contents ptr (taken n) (taken-room n) short,
    )
    | inr (inr (long, e)) ↦ rw e (
      taken-min n,
      grown-IsValid (folded ptr (taken n)) (taken n) (taken-room n),
      folded-contents ptr (taken n) (taken-room n) long,
    )
  ]
