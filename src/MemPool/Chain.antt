-- ===== src/MemPool/Chain.antt =====
-- The free blocks of a memory pool, linked through their headers.
use micro_rt_kernel.Prelude.{
  ℕ, ◌-◌, ◌^◌, ◌<◌, ◌≡◌, refl, ◌≢◌, false, List, [], ◌∷◌, arith, ==_refl, length, mem, Distinct,
}
use micro_rt_kernel.Kernel.{null, update}
use micro_rt_kernel.MemPool.{Mp, pop, push}

-- The headers lead from `first` through `bs` and end with null.
abbrev pub Chain : (ℕ → ℕ) → ℕ → List ℕ → Type 0
Chain header first [] = first ≡ null
Chain header first (b ∷ bs) = (first ≡ b) × (b ≢ null) × Chain header (header b) bs

-- The free list holds the blocks `bs`, each once, and the count says how many.
pub record FreeOk (p : Mp) (header : ℕ → ℕ) (bs : List ℕ) : Type 0 where
  pub chain : Chain header p.free_block_list bs
  pub distinct : Distinct bs
  pub count : p.free_block_count ≡ length bs

pub Chain-update :
    (header : ℕ → ℕ) (first a v : ℕ) (bs : List ℕ)
    → mem a bs ≡ false
    → Chain header first bs
    → Chain (update header a v) first bs
Chain-update header first a v [] out c = c
Chain-update header first a v (b ∷ bs) out c =
    let same : update header a v b ≡ header b = ground arith in
    (c.0, c.1, rw same (Chain-update header (header b) a v bs (ground arith) c.2))

module _ (mp : ℕ) (p : Mp) (header : ℕ → ℕ) where
  -- An allocation from a pool with a free block gives the first one. The others stay free, and the
  -- header of the block names the pool.
  pub pop-FreeOk :
      (b : ℕ) (bs : List ℕ)
      → FreeOk p header (b ∷ bs)
      → let r = pop mp p header in (r.0 ≡ b) × FreeOk r.1 r.2 bs × (r.2 b ≡ mp)
  unfolding pop
  pop-FreeOk b bs ok =
      let (at, ne, rest) = ok.chain in
      rw at (
        refl,
        record {
          chain = Chain-update header (header b) b mp bs ok.distinct.0 rest;
          distinct = ok.distinct.1;
          count = ground (arith, ok.count);
        },
        ground (arith, ==_refl b),
      )

  -- A block that is given back, and was not free, becomes the first free block.
  pub push-FreeOk :
      (b : ℕ) (bs : List ℕ)
      → FreeOk p header bs
      → b ≢ null
      → mem b bs ≡ false
      → length bs < 2 ^ 32 - 1
      → let r = push b p header in FreeOk r.0 r.1 (b ∷ bs)
  unfolding push
  push-FreeOk b bs ok ne out small =
      let next : update header b p.free_block_list b ≡ p.free_block_list =
        ground (arith, ==_refl b) in
      record {
        chain = (
          refl,
          ne,
          rw next (Chain-update header p.free_block_list b p.free_block_list bs out ok.chain),
        );
        distinct = (out, ok.distinct);
        count = ground (arith, ok.count);
      }
