-- ===== src/RingBuffer.antt =====
-- Kernel/Src/mrtk_ringbuffer.c and the inline functions of Kernel/Include/mrtk_ringbuffer.h.
-- Sizes and indices are 32 bits wide, the lengths inside a call 16.
pub mod Fifo
pub mod Write
pub mod Read
pub mod Char
use micro_rt_kernel.Prelude.{ℕ, ◌+◌, ◌-◌, ◌%◌, ◌^◌, Bool, ◌==◌, ltb, leb, if◌then◌else◌}
use micro_rt_kernel.Kernel.{Err, eok, efull, eempty, update}
use micro_rt_kernel.Cyclic.{copy}

-- `mrtk_rb_t`; `buffer` is the memory that the pointer leads to
pub record Rb : Type 0 where
  pub buffer : ℕ → ℕ
  pub size : ℕ
  pub read_idx : ℕ
  pub write_idx : ℕ

-- `mrtk_rb_init`
unfoldable pub init : (ℕ → ℕ) → ℕ → Rb
init pool size = record { buffer = pool; size = size; read_idx = 0; write_idx = 0 }

-- `mrtk_rb_is_full` and `mrtk_rb_is_empty`
unfoldable pub is_full : ℕ → ℕ → ℕ → Bool
is_full read_idx write_idx size = (write_idx + 1) % 2 ^ 32 % size == read_idx

unfoldable pub is_empty : ℕ → ℕ → Bool
is_empty read_idx write_idx = write_idx == read_idx

-- `mrtk_rb_get_len`
unfoldable pub get_len : Rb → ℕ
unfolding is_empty
get_len rb =
    if is_empty rb.read_idx rb.write_idx
    then 0
    else if ltb rb.read_idx rb.write_idx
    then rb.write_idx - rb.read_idx
    else (rb.size + 2 ^ 32 - rb.read_idx + rb.write_idx) % 2 ^ 32

-- `mrtk_rb_get_free`
unfoldable pub get_free : Rb → ℕ
unfolding get_len
get_free rb = (rb.size + 2 ^ 32 - 1 + (2 ^ 32 - get_len rb)) % 2 ^ 32

-- `mrtk_u16_t`
abbrev pub to_u16 : ℕ → ℕ
to_u16 n = n % 2 ^ 16

-- `mrtk_rb_read` into `ptr`: the length read, the buffer and the memory at `ptr`
unfoldable pub read : Rb → (ℕ → ℕ) → ℕ → ℕ × Rb × (ℕ → ℕ)
unfolding get_len
read rb ptr size =
    let data_len = to_u16 (get_len rb) in
    let read_len = to_u16 (if ltb size data_len then size else data_len) in
    let first_chunk = to_u16 (rb.size + 2 ^ 32 - rb.read_idx) in
    let second_chunk = to_u16 (read_len - first_chunk) in
    if data_len == 0
    then (0, rb, ptr)
    else if leb read_len first_chunk
    then (
      read_len,
      record rb { read_idx = (rb.read_idx + read_len) % 2 ^ 32 % rb.size },
      copy read_len ptr 0 rb.buffer rb.read_idx,
    )
    else (
      read_len,
      record rb { read_idx = second_chunk },
      copy second_chunk (copy first_chunk ptr 0 rb.buffer rb.read_idx) first_chunk rb.buffer 0,
    )

-- `mrtk_rb_write` from `ptr`
unfoldable pub write : Rb → (ℕ → ℕ) → ℕ → ℕ × Rb
unfolding get_free
write rb ptr size =
    let free_len = to_u16 (get_free rb) in
    let write_len = to_u16 (if ltb size free_len then size else free_len) in
    let first_chunk = to_u16 (rb.size + 2 ^ 32 - rb.write_idx) in
    let second_chunk = to_u16 (write_len - first_chunk) in
    if free_len == 0
    then (0, rb)
    else if leb write_len first_chunk
    then (
      write_len,
      record rb {
        buffer = copy write_len rb.buffer rb.write_idx ptr 0;
        write_idx = (rb.write_idx + write_len) % 2 ^ 32 % rb.size;
      },
    )
    else (
      write_len,
      record rb {
        buffer =
            copy second_chunk (copy first_chunk rb.buffer rb.write_idx ptr 0) 0 ptr first_chunk;
        write_idx = second_chunk;
      },
    )

-- `mrtk_rb_putc`
unfoldable pub putc : Rb → ℕ → Err × Rb
unfolding is_full
putc rb ch = if is_full rb.read_idx rb.write_idx rb.size then (efull, rb) else (
  eok,
  record rb {
    buffer = update rb.buffer rb.write_idx (ch % 256);
    write_idx = (rb.write_idx + 1) % 2 ^ 32 % rb.size;
  },
)

-- `mrtk_rb_getc`; the character stays what it was when there is none
unfoldable pub getc : Rb → ℕ → Err × ℕ × Rb
unfolding is_empty
getc rb ch =
    if is_empty rb.read_idx rb.write_idx
    then (eempty, ch, rb)
    else (eok, rb.buffer rb.read_idx, record rb { read_idx = (rb.read_idx + 1) % 2 ^ 32 % rb.size })
