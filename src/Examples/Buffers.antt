-- ===== src/Examples/Buffers.antt =====
-- The theorems on buffers, pools and events, applied to concrete states.
use micro_rt_kernel.Prelude.{
  ℕ, ◌<◌, ◌+◌, ◌-◌, ◌≡◌, refl, ◌⊎◌, true, false, some, [], ◌∷◌, ◌++◌, arith, ◌==◌, min, length,
  if◌then◌else◌,
}
use micro_rt_kernel.Kernel.{Kernel, eok, error, null}
use micro_rt_kernel.Cyclic.{listing}
use micro_rt_kernel.RingBuffer.{Rb, read, write}
use micro_rt_kernel.RingBuffer.Fifo
use micro_rt_kernel.RingBuffer.Write.{write-append}
use micro_rt_kernel.RingBuffer.Read.{read-take}
use micro_rt_kernel.MailBox.{Mb, send_wait, recv}
use micro_rt_kernel.MailBox.Fifo as Mails
use micro_rt_kernel.MailBox.Fifo.{send_wait-contents, recv-contents}
use micro_rt_kernel.Blocking.{returned}
use micro_rt_kernel.Align.{align_up}
use micro_rt_kernel.MemPool
use micro_rt_kernel.MemPool.{Mp}
use micro_rt_kernel.MemPool.Chain.{FreeOk}
use micro_rt_kernel.MemPool.Init.{blocks, Laid, init-FreeOk}
use micro_rt_kernel.Examples.{busy}

-- Three bytes in a buffer of five, across its end
abbrev wrapped : Rb
wrapped = record { buffer = λ a. a + 65; size = 5; read_idx = 3; write_idx = 1 }

wrapped-IsValid : Fifo.IsValid wrapped
wrapped-IsValid = record {
  positive = omega arith;
  small = omega arith;
  reads = omega arith;
  writes = omega arith;
}

write-append_example :
    let r = write wrapped (λ i. 90) 7 in
    (r.0 ≡ min 7 (5 - 1 - length (Fifo.contents wrapped)))
    × Fifo.IsValid r.1
    × (Fifo.contents r.1 ≡ Fifo.contents wrapped ++ listing (λ i. 90) 0 r.0)
write-append_example = write-append wrapped wrapped-IsValid (λ i. 90) 7

read-take_example :
    let r = read wrapped (λ i. 0) 2 in
    (r.0 ≡ min 2 (length (Fifo.contents wrapped)))
    × Fifo.IsValid r.1
    × (Fifo.contents wrapped ≡ listing r.2 0 r.0 ++ Fifo.contents r.1)
read-take_example = read-take wrapped wrapped-IsValid (λ i. 0) 2

-- Two mails in a box of three, across its end
abbrev mails : Mb
mails = record {
  msg_pool = λ a. a + 18;
  max_mail_cnt = 3;
  cur_mail_cnt = 2;
  in_offset = 1;
  out_offset = 2;
  flag = 0;
  is_dynamic = false;
}

mails-IsValid : Mails.IsValid mails
mails-IsValid = record {
  positive = omega arith;
  small = omega arith;
  bounded = omega arith;
  out = omega arith;
  in_place = refl;
}

send_wait-contents_example :
    (m' : Mb) × (k' : Kernel) × (send_wait 1 201 (some 77) 5 mails busy
      ≡ some (returned eok, m', k'))
    × Mails.IsValid m'
    × (Mails.contents m' ≡ 20 ∷ 18 ∷ 77 ∷ [])
send_wait-contents_example =
    send_wait-contents 1 201 5 mails busy mails-IsValid (λ e. absurd (omega arith)) refl 77
      (omega arith)

recv-contents_example :
    (m' : Mb) × (mail : ℕ) × (k' : Kernel) × (recv 1 201 true 5 mails busy
      ≡ some (returned eok, m', some mail, k'))
    × Mails.IsValid m'
    × (20 ∷ 18 ∷ [] ≡ mail ∷ Mails.contents m')
recv-contents_example =
    recv-contents 1 201 5 mails busy mails-IsValid (λ e. absurd (omega arith)) refl (omega arith)

-- Two free blocks of 8 bytes, at 1004 and 1016
abbrev pool : Mp
pool = record {
  start_addr = 1000;
  size = 36;
  block_size = 8;
  total_block_count = 3;
  free_block_count = 2;
  free_block_list = 1004;
}

abbrev headers : ℕ → ℕ
headers b = if b == 1004 then 1016 else null

pool-FreeOk : FreeOk pool headers (1004 ∷ 1016 ∷ [])
pool-FreeOk = record {
  chain = (refl, (λ e. absurd (omega arith)), (refl, (λ e. absurd (omega arith)), refl));
  distinct = (refl, (refl, tt));
  count = refl;
}

init-FreeOk_example :
    let r = MemPool.init 900 1001 40 7 pool headers busy in
    let stride = align_up 7 + 4 in
    let n = r.1.total_block_count in
    ((1001 + 40 - align_up 1001 < stride) × (r.0 ≡ error) × (n ≡ 0) × (r.2 ≡ headers))
    ⊎ ((r.0 ≡ eok)
        × FreeOk r.1 r.2 (blocks n stride (align_up 1001 + 4))
        × Laid 1001 40 stride n
        × (0 < n))
unfolding align_up
init-FreeOk_example =
    init-FreeOk 900 1001 40 7 pool headers busy (omega arith) (omega arith) (omega arith)
      (omega arith)
