-- ===== src/DList.antt =====
-- Kernel/Include/mrtk_list.h: the intrusive circular doubly linked list.
pub mod Seg
pub mod Ring
pub mod Walk
use micro_rt_kernel.Prelude.{
  ℕ, zero, suc, ◌+◌, ◌%◌, ◌^◌, Bool, Option, none, some, ◌==◌, if◌then◌else◌,
}

-- The two pointers of every `mrtk_list_node_t`, by the node's address.
pub record Links : Type 0 where
  pub next : ℕ → ℕ
  pub prev : ℕ → ℕ

abbrev pub update : (ℕ → ℕ) → ℕ → ℕ → ℕ → ℕ
update f a v b = if b == a then v else f b

-- `a->next = v` and `a->prev = v`
abbrev pub set_next : ℕ → ℕ → Links → Links
set_next a v l = record l { next = update l.next a v }

abbrev pub set_prev : ℕ → ℕ → Links → Links
set_prev a v l = record l { prev = update l.prev a v }

-- `_mrtk_list_init`
unfoldable pub init : ℕ → Links → Links
init head l = set_prev head head (set_next head head l)

-- `_mrtk_list_is_empty`
unfoldable pub is_empty : ℕ → Links → Bool
is_empty head l = l.next head == head

-- The loop of `_mrtk_list_len`, from `cur`; `none` when the rounds given are used up.
len_loop : ℕ → ℕ → ℕ → ℕ → Links → Option ℕ
len_loop zero head cur acc l = none
len_loop (suc fuel) head cur acc l =
    let rest = len_loop fuel head (l.next cur) ((acc + 1) % 2 ^ 32) l in
    if l.next cur == head then some acc else rest

-- `_mrtk_list_len`
unfoldable pub len : ℕ → ℕ → Links → Option ℕ
unfolding len_loop
len fuel head l = len_loop fuel head head 0 l

-- `_mrtk_list_insert_after`: the four writes in the source's order.
unfoldable pub insert_after : ℕ → ℕ → Links → Links
insert_after node new l =
    let l1 = set_next new (l.next node) l in
    let l2 = set_prev new node l1 in let l3 = set_prev (l2.next node) new l2 in set_next node new l3

-- `_mrtk_list_insert_before`
unfoldable pub insert_before : ℕ → ℕ → Links → Links
unfolding insert_after
insert_before node new l = insert_after (l.prev node) new l

-- `_mrtk_list_remove`: the four writes in the source's order.
unfoldable pub remove : ℕ → Links → Links
remove node l =
    let l1 = set_next (l.prev node) (l.next node) l in
    let l2 = set_prev (l1.next node) (l1.prev node) l1 in
    let l3 = set_next node node l2 in set_prev node node l3

-- `MRTK_LIST_FOR_EACH` with a `break` at the first node that passes a test: that node, or the
-- head if the loop runs through; `none` when the rounds given are used up.
search_from : ℕ → (ℕ → Bool) → ℕ → ℕ → Links → Option ℕ
search_from zero test head cur l = none
search_from (suc fuel) test head cur l =
    let rest = search_from fuel test head (l.next cur) l in
    if cur == head then some head else if test cur then some cur else rest

unfoldable pub search_node : ℕ → (ℕ → Bool) → ℕ → Links → Option ℕ
unfolding search_from
search_node fuel test head l = search_from fuel test head (l.next head) l
