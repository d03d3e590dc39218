-- ===== src/MemPool/Init.antt =====
-- `mrtk_mp_init` lays out the free blocks one behind the other.
use mathlib.Core.Path.{subst}
use micro_rt_kernel.Prelude.{
  ℕ, zero, suc, ◌+◌, ◌-◌, ◌/◌, ◌%◌, ◌^◌, ◌*◌, ◌≤◌, true, ◌<◌, ◌≡◌, refl, sym, ap, ◌∙◌, ◌≢◌, ◌⊎◌,
  inl, inr, false, List, [], ◌∷◌, arith, ◌==◌, Bool-cases, ==_refl, ==_iff, length, mem, Distinct,
}
use micro_rt_kernel.Kernel.{Kernel, eok, error, null, update}
use micro_rt_kernel.Align.{align_up, align_up-bounds}
use native.Mathlib.Nat.{div-add-mod', mod-lt}
use micro_rt_kernel.MemPool.{Mp, header_size, link_blocks, link_words, init}
use micro_rt_kernel.MemPool.Chain.{Chain, FreeOk}

-- `n` blocks from `b` on, `stride` apart.
abbrev pub blocks : ℕ → ℕ → ℕ → List ℕ
blocks zero stride b = []
blocks (suc n) stride b = b ∷ blocks n stride (b + stride)

pub length-blocks : (n stride b : ℕ) → length (blocks n stride b) ≡ n
length-blocks zero stride b = refl
length-blocks (suc n) stride b = ap suc (length-blocks n stride (b + stride))

pub blocks-above : (n stride b a : ℕ) → a < b → mem a (blocks n stride b) ≡ false
blocks-above zero stride b a lt = refl
blocks-above (suc n) stride b a lt = ground (arith, blocks-above n stride (b + stride) a)

pub blocks-Distinct : (n stride b : ℕ) → 0 < stride → Distinct (blocks n stride b)
blocks-Distinct zero stride b pos = tt
blocks-Distinct (suc n) stride b pos =
    (blocks-above n stride (b + stride) b (omega arith), blocks-Distinct n stride (b + stride) pos)

link_blocks-low :
    (n stride b : ℕ) (header : ℕ → ℕ) (a : ℕ) → a < b → link_blocks n stride b header a ≡ header a
unfolding link_blocks
link_blocks-low zero stride b header a lt = ground arith
link_blocks-low (suc n) stride b header a lt =
    ground (arith, link_blocks-low n stride (b + stride) (update header b (b + stride)) a)

pub link_blocks-Chain :
    (n stride b : ℕ) (header : ℕ → ℕ)
    → 0 < stride
    → b ≢ null
    → Chain (link_blocks n stride b header) b (blocks (suc n) stride b)
unfolding link_blocks
link_blocks-Chain zero stride b header pos ne = (refl, ne, ground (arith, ==_refl b))
link_blocks-Chain (suc n) stride b header pos ne =
    let next : link_blocks n stride (b + stride) (update header b (b + stride)) b ≡ b + stride =
      link_blocks-low n stride (b + stride) (update header b (b + stride)) b (omega arith)
      ∙ ground (arith, ==_refl b) in
    (
      refl,
      ne,
      rw next (
          link_blocks-Chain n stride (b + stride) (update header b (b + stride)) pos
            (ground arith)),
    )

-- Where the blocks lie
blocks-bounds :
    (n stride b a : ℕ) → mem a (blocks n stride b) ≡ true → (b ≤ a) × (a + stride ≤ b + n * stride)
blocks-bounds zero stride b a h = absurd (ground arith)
blocks-bounds (suc n) stride b a h =
    let more : suc n * stride ≡ n * stride + stride = grind arith in
    elim (Bool-cases (a == b)) [
      | inl e ↦ ground arith
      | inr e ↦
          let rest = blocks-bounds n stride (b + stride) a (ground arith) in
          (omega (arith, rest), omega (arith, rest, more))
    ]

-- The loop, when no address wraps
link_words-link_blocks :
    (n stride b : ℕ) (header : ℕ → ℕ)
    → b + n * stride < 2 ^ 32
    → link_words n stride b header ≡ link_blocks n stride b header
unfolding link_words link_blocks
link_words-link_blocks zero stride b header h = refl
link_words-link_blocks (suc n) stride b header h =
    let more : suc n * stride ≡ n * stride + stride = grind arith in
    let next : (b + stride) % 2 ^ 32 ≡ b + stride = omega (arith, h, more) in
    rw next (
      link_words-link_blocks n stride (b + stride) (update header b (b + stride))
        (omega (arith, h, more)))

-- How many blocks there are
count-bounds :
    (room stride : ℕ)
    → 0 < stride
    → (room / stride * stride ≤ room) × (room < room / stride * stride + stride)
count-bounds room stride pos =
    let whole = div-add-mod' room stride in
    let rest = mod-lt room pos in (omega (arith, whole), omega (arith, whole, rest))

-- The blocks that `init` links, their number, and their place in the region
pub record Laid (start_addr size stride count : ℕ) : Type 0 where
  pub most : count * stride ≤ start_addr + size - align_up start_addr
  pub full : start_addr + size - align_up start_addr < count * stride + stride
  pub inside :
      (b : ℕ)
      → mem b (blocks count stride (align_up start_addr + header_size)) ≡ true
      → (align_up start_addr + header_size ≤ b) × (b + (stride - header_size) ≤ start_addr + size)

-- A pool is made of a region and a block size that do not come near the end of the 32-bit range, the
-- region's start aligned up lying in the region. If what is left behind that has no room for a block
-- with its header, the pool is refused and no header is written. Otherwise there are as many blocks
-- as fit, each with room for the block size, aligned up, inside the region; all of them are free,
-- each once, and the count says how many.
pub init-FreeOk :
    (mp start_addr size block_size : ℕ) (p : Mp) (header : ℕ → ℕ) (k : Kernel)
    → start_addr + 7 < 2 ^ 32
    → start_addr + size < 2 ^ 32
    → block_size + 7 < 2 ^ 32
    → align_up start_addr ≤ start_addr + size
    → let r = init mp start_addr size block_size p header k in
      let stride = align_up block_size + header_size in
      let n = r.1.total_block_count in
      ((start_addr + size - align_up start_addr < stride)
        × (r.0 ≡ error)
        × (n ≡ 0)
        × (r.2 ≡ header))
      ⊎ ((r.0 ≡ eok)
          × FreeOk r.1 r.2 (blocks n stride (align_up start_addr + header_size))
          × Laid start_addr size stride n
          × (0 < n))
unfolding init
init-FreeOk mp start_addr size block_size p header k s1 s2 s3 s4 =
    let al = align_up start_addr in
    let bl = align_up block_size in
    let ab = align_up-bounds start_addr (omega arith) in
    let bb = align_up-bounds block_size (omega arith) in
    let room : ℕ = start_addr + size - al in
    let stride = bl + header_size in
    let first = al + header_size in
    let e1 : (bl + header_size) % 2 ^ 32 ≡ stride = omega (arith, bb) in
    let e2 : (size + 2 ^ 32 - (al + 2 ^ 32 - start_addr) % 2 ^ 32) % 2 ^ 32 ≡ room =
      omega (arith, ab) in
    let e3 : (al + header_size) % 2 ^ 32 ≡ first = omega (arith, ab) in
    let total = room / stride in
    let fit = count-bounds room stride (omega arith) in
    let laid : Laid start_addr size stride total = record {
      most = fit.0;
      full = fit.1;
      inside =
          λ b h. let at = blocks-bounds total stride first b h in (at.0, omega (arith, at, fit));
    } in
    rw (e1, e2, e3)
      (elim (Bool-cases (total == 0)) [
        | inl e ↦
            let zero_fit : room < 0 * stride + stride =
              subst (λ n. room < n * stride + stride) ((==_iff total 0).0 e) fit.1 in
            rw e (inl (omega (arith, zero_fit), refl, ground arith, refl))
        | inr e ↦
            let count : suc (total - 1) ≡ total = ground arith in
            let last : (total - 1) * stride + stride ≡ total * stride =
              subst (λ n. (total - 1) * stride + stride ≡ n * stride) count (grind arith) in
            let plain : link_words (total - 1) stride first header
                ≡ link_blocks (total - 1) stride first header =
              link_words-link_blocks (total - 1) stride first header (omega (arith, last, fit)) in
            rw (e, plain)
              (inr (
                refl,
                subst
                    (λ n.
                      FreeOk
                        record p {
                          start_addr = start_addr;
                          size = size;
                          block_size = bl;
                          total_block_count = total;
                          free_block_count = total;
                          free_block_list = first;
                        }
                        (link_blocks (total - 1) stride first header) (blocks n stride first))
                    count
                    record {
                      chain =
                          link_blocks-Chain (total - 1) stride first header (omega arith)
                            (ground arith);
                      distinct = blocks-Distinct (suc (total - 1)) stride first (omega arith);
                      count = sym (length-blocks (suc (total - 1)) stride first ∙ count);
                    },
                laid,
                ground arith,
              ))
      ])
