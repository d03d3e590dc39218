-- ===== src/DList/Walk.antt =====
-- Walks along a list: `_mrtk_list_len` and `MRTK_LIST_FOR_EACH` end, and see the nodes in order.
use micro_rt_kernel.Prelude.{
  ℕ, zero, suc, ◌+◌, ◌%◌, ◌^◌, ◌<◌, ◌≡◌, refl, ap, ◌∙◌, Bool, false, some, none, List, [], ◌∷◌,
  arith, length, mem,
}
use micro_rt_kernel.DList.{Links, len_loop, len, search_from, search_node}
use micro_rt_kernel.DList.Seg.{Seg, first}
use micro_rt_kernel.DList.Ring.{IsRing}

module _ (l : Links) (head : ℕ) where
  len_loop-length :
      (fuel cur acc : ℕ) (xs : List ℕ)
      → Seg l cur xs head
      → mem head xs ≡ false
      → length xs < fuel
      → acc < 2 ^ 32
      → len_loop fuel head cur acc l ≡ some ((acc + length xs) % 2 ^ 32)
  unfolding len_loop
  len_loop-length zero cur acc xs s out lt small = absurd (omega arith)
  len_loop-length (suc fuel) cur acc [] s out lt small = ground arith
  len_loop-length (suc fuel) cur acc (x ∷ xs) s out lt small =
      ground (arith, len_loop-length fuel x ((acc + 1) % 2 ^ 32) xs s.2)

  -- `_mrtk_list_len` ends on every well-formed list and counts its nodes (modulo 2 ^ 32).
  pub len-length :
      (fuel : ℕ) (xs : List ℕ)
      → IsRing l head xs
      → length xs < fuel
      → len fuel head l ≡ some (length xs % 2 ^ 32)
  unfolding len
  len-length fuel xs r lt =
      len_loop-length fuel head 0 xs r.links r.fresh lt (omega arith)
      ∙ ap (λ n. some (n % 2 ^ 32)) (omega arith)

  search_from-first :
      (test : ℕ → Bool) (fuel p cur : ℕ) (xs : List ℕ)
      → Seg l p xs head
      → l.next p ≡ cur
      → mem head xs ≡ false
      → length xs < fuel
      → search_from fuel test head cur l ≡ some (first test xs head)
  unfolding search_from
  search_from-first test zero p cur xs s e out lt = absurd (omega arith)
  search_from-first test (suc fuel) p cur [] s e out lt = ground arith
  search_from-first test (suc fuel) p cur (x ∷ xs) s e out lt =
      ground (arith, search_from-first test fuel x (l.next x) xs s.2)

  -- A for-each loop that breaks at the first node with some property ends, at that node or at the
  -- head.
  pub search_node-first :
      (test : ℕ → Bool) (fuel : ℕ) (xs : List ℕ)
      → IsRing l head xs
      → length xs < fuel
      → search_node fuel test head l ≡ some (first test xs head)
  unfolding search_node
  search_node-first test fuel xs r lt =
      search_from-first test fuel head (l.next head) xs r.links refl r.fresh lt

  pub search_node-zero : (test : ℕ → Bool) → search_node 0 test head l ≡ none
  unfolding search_node search_from
  search_node-zero test = refl
