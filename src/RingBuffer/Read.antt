-- ===== src/RingBuffer/Read.antt =====
-- `mrtk_rb_read` and the functions for one character.
use micro_rt_kernel.Prelude.{
  ℕ, ◌+◌, ◌-◌, ◌%◌, ◌^◌, ◌≤◌, ◌<◌, ◌≡◌, refl, ap, ◌⊎◌, inl, inr, true, false, ◌++◌, arith, ◌==◌,
  ltb, leb, if◌then◌else◌, Bool-cases, ◌&&◌, length, min,
}
use micro_rt_kernel.Cyclic.{
  listing, step, window-append, window-listing, copy, copy-cell, length-window,
}
use micro_rt_kernel.RingBuffer.{Rb, get_len, read}
use micro_rt_kernel.RingBuffer.Fifo.{IsValid, contents, len-bound, mod-32}

module _ (rb : Rb) (v : IsValid rb) where
  -- The bytes that a read of `n` gives.
  abbrev given : ℕ → ℕ
  given n = if ltb n (get_len rb) then n else get_len rb

  abbrev tail_room : ℕ
  tail_room = rb.size - rb.read_idx

  len-u16 : get_len rb % 2 ^ 16 ≡ get_len rb
  len-u16 = ground (arith, len-bound rb v, v.small)

  given-u16 : (n : ℕ) → given n % 2 ^ 16 ≡ given n
  given-u16 n = ground (arith, len-bound rb v, v.small)

  tail-u16 : (rb.size + 2 ^ 32 - rb.read_idx) % 2 ^ 16 ≡ tail_room
  tail-u16 = ground (arith, v.small, v.reads)

  read-eq :
      (ptr : ℕ → ℕ) (n : ℕ)
      → read rb ptr n ≡ (
          if get_len rb == 0
          then (0, rb, ptr)
          else if leb (given n) tail_room
          then (
            given n,
            record rb { read_idx = (rb.read_idx + given n) % 2 ^ 32 % rb.size },
            copy (given n) ptr 0 rb.buffer rb.read_idx,
          )
          else (
            given n,
            record rb { read_idx = (given n - tail_room) % 2 ^ 16 },
            copy
                ((given n - tail_room) % 2 ^ 16)
                (copy tail_room ptr 0 rb.buffer rb.read_idx)
                tail_room
                rb.buffer
                0,
          ))
  unfolding read
  read-eq ptr n = rw (len-u16, given-u16 n, tail-u16) refl

  abbrev pub shrunk : ℕ → Rb
  shrunk w = record rb { read_idx = step rb.size rb.read_idx w }

  shrunk-len : (w : ℕ) → w ≤ get_len rb → get_len rb ≡ w + get_len (shrunk w)
  unfolding get_len
  shrunk-len w le = ground (arith, v.small, v.reads, v.writes)

  pub shrunk-IsValid : (w : ℕ) → w ≤ get_len rb → IsValid (shrunk w)
  shrunk-IsValid w le = record {
    positive = v.positive;
    small = v.small;
    reads = ground (arith, v.reads, len-bound rb v);
    writes = v.writes;
  }

  pub shrunk-contents :
      (out : ℕ → ℕ) (w : ℕ)
      → w ≤ get_len rb
      → ((i : ℕ) → i < w → rb.buffer (step rb.size rb.read_idx i) ≡ out (0 + i))
      → contents rb ≡ listing out 0 w ++ contents (shrunk w)
  shrunk-contents out w le same =
      let front =
        window-listing rb.size rb.buffer out rb.read_idx 0 w v.reads
          (ground (arith, len-bound rb v)) same in
      rw
        (
          shrunk-len w le,
          window-append rb.size rb.buffer rb.read_idx w (get_len (shrunk w)) v.reads
              (ground (arith, len-bound rb v)),
          front,
        )
        refl

  direct-out :
      (ptr : ℕ → ℕ) (w i : ℕ)
      → w ≤ tail_room
      → i < w
      → rb.buffer (step rb.size rb.read_idx i) ≡ copy w ptr 0 rb.buffer rb.read_idx (0 + i)
  direct-out ptr w i short h =
      let at : step rb.size rb.read_idx i ≡ rb.read_idx + (0 + i - 0) = ground arith in
      let inside : (leb 0 (0 + i) && ltb (0 + i) (0 + w)) ≡ true = ground arith in
      rw (at, copy-cell w ptr 0 rb.buffer rb.read_idx (0 + i), inside) refl

  spliced-out :
      (ptr : ℕ → ℕ) (w i : ℕ)
      → w ≤ get_len rb
      → tail_room < w
      → i < w
      → rb.buffer (step rb.size rb.read_idx i)
        ≡ copy
            (w - tail_room)
            (copy tail_room ptr 0 rb.buffer rb.read_idx)
            tail_room
            rb.buffer
            0
            (0 + i)
  spliced-out ptr w i le long h = elim (Bool-cases (ltb i tail_room)) [
    | inl e ↦
        let at : step rb.size rb.read_idx i ≡ rb.read_idx + (0 + i - 0) = ground arith in
        let beside : (leb tail_room (0 + i) && ltb (0 + i) (tail_room + (w - tail_room))) ≡ false =
          ground arith in
        let inside : (leb 0 (0 + i) && ltb (0 + i) (0 + tail_room)) ≡ true = ground arith in
        rw
          (
            at,
            copy-cell (w - tail_room) (copy tail_room ptr 0 rb.buffer rb.read_idx) tail_room
                rb.buffer 0 (0 + i),
            beside,
            copy-cell tail_room ptr 0 rb.buffer rb.read_idx (0 + i),
            inside,
          )
          refl
    | inr e ↦
        let at : step rb.size rb.read_idx i ≡ 0 + (0 + i - tail_room) =
          ground (arith, v.reads, len-bound rb v) in
        let inside : (leb tail_room (0 + i) && ltb (0 + i) (tail_room + (w - tail_room))) ≡ true =
          ground arith in
        rw
          (
            at,
            copy-cell (w - tail_room) (copy tail_room ptr 0 rb.buffer rb.read_idx) tail_room
                rb.buffer 0 (0 + i),
            inside,
          )
          refl
  ]

  direct-end :
      (n : ℕ) → (rb.read_idx + given n) % 2 ^ 32 % rb.size ≡ step rb.size rb.read_idx (given n)
  direct-end n = mod-32 rb v (rb.read_idx + given n) (ground (arith, v.reads, len-bound rb v))

  spliced-end : (n : ℕ) → (given n - tail_room) % 2 ^ 16 ≡ given n - tail_room
  spliced-end n = ground (arith, v.small, len-bound rb v)

  spliced-step :
      (n : ℕ) → tail_room < given n → given n - tail_room ≡ step rb.size rb.read_idx (given n)
  spliced-step n lt = ground (arith, v.reads, len-bound rb v)

  given-min : (n : ℕ) → given n ≡ min n (length (contents rb))
  given-min n = rw (length-window rb.buffer rb.size rb.read_idx (get_len rb)) (ground arith)

  given-len : (n : ℕ) → given n ≤ get_len rb
  given-len n = ground arith

  read-cases :
      (ptr : ℕ → ℕ) (n : ℕ)
      → ((get_len rb ≡ 0) × (read rb ptr n ≡ (0, rb, ptr)))
        ⊎ ((given n ≤ tail_room)
            × (read rb ptr n
                ≡ (given n, shrunk (given n), copy (given n) ptr 0 rb.buffer rb.read_idx)))
        ⊎ ((tail_room < given n)
            × (read rb ptr n ≡ (
              given n,
              shrunk (given n),
              copy
                  (given n - tail_room)
                  (copy tail_room ptr 0 rb.buffer rb.read_idx)
                  tail_room
                  rb.buffer
                  0,
            )))
  read-cases ptr n = elim (Bool-cases (get_len rb == 0)) [
    | inl e ↦ inl (ground arith, rw (read-eq ptr n, e) refl)
    | inr e ↦ elim (Bool-cases (leb (given n) tail_room)) [
      | inl f ↦ inr (inl (ground arith, rw (read-eq ptr n, e, f, direct-end n) refl))
      | inr f ↦
          let lt : tail_room < given n = ground arith in
          inr (
            inr (
              lt,
              rw (read-eq ptr n, e, f, spliced-end n)
                  (ap
                    (λ x. (
                      given n,
                      record rb { read_idx = x },
                      copy (given n - tail_room) (copy tail_room ptr 0 rb.buffer rb.read_idx)
                          tail_room rb.buffer 0,
                    ))
                    (spliced-step n lt)),
            ))
    ]
  ]

  none-min : (n : ℕ) → get_len rb ≡ 0 → 0 ≡ min n (length (contents rb))
  none-min n e = rw (length-window rb.buffer rb.size rb.read_idx (get_len rb)) (ground arith)

  -- In a buffer of fewer than 65536 cells with both indices inside it: a read gives as many of the
  -- bytes stored as are asked for and there, and says how many. They are the oldest, in order; the
  -- others stay.
  pub read-take :
      (ptr : ℕ → ℕ) (n : ℕ)
      → let r = read rb ptr n in
        (r.0 ≡ min n (length (contents rb)))
        × IsValid r.1
        × (contents rb ≡ listing r.2 0 r.0 ++ contents r.1)
  read-take ptr n = elim (read-cases ptr n) [
    | inl (none, e) ↦ rw e (none-min n none, v, refl)
    | inr (inl (short, e)) ↦ rw e (
      given-min n,
      shrunk-IsValid (given n) (given-len n),
      shrunk-contents (copy (given n) ptr 0 rb.buffer rb.read_idx) (given n) (given-len n)
          (λ i h. direct-out ptr (given n) i short h),
    )
    | inr (inr (long, e)) ↦ rw e (
      given-min n,
      shrunk-IsValid (given n) (given-len n),
      shrunk-contents
          (copy (given n - tail_room) (copy tail_room ptr 0 rb.buffer rb.read_idx) tail_room
            rb.buffer 0)
          (given n) (given-len n) (λ i h. spliced-out ptr (given n) i (given-len n) long h),
    )
  ]
