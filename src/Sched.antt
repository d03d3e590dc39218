-- ===== src/Sched.antt =====
-- Kernel/Src/mrtk_schedule.c and the comparisons of Kernel/Include/mrtk_schedule.h, with the
-- configuration of mrtk_config.h: 32 levels, a lower value is a higher priority, no CLZ instruction.
pub mod Lowest
pub mod Queues
pub mod Change
pub mod Select
pub mod Init
use micro_rt_kernel.Prelude.{
  ℕ, zero, suc, ◌+◌, ◌-◌, ◌/◌, ◌%◌, ◌^◌, Bool, true, false, not, ◌||◌, List, [], ◌∷◌, ◌==◌, ltb,
  bit_and, bit_or, get_or, if◌then◌else◌,
}
use micro_rt_kernel.DList
use micro_rt_kernel.DList.{Links}
use micro_rt_kernel.Kernel.{
  Kernel, null, ready_list, defunct_list, prio_levels, set_priority, set_tcb,
}

-- `__bit_bitmap`
abbrev pub bit_bitmap : List ℕ
bit_bitmap =
    0 ∷ 0 ∷ 1 ∷ 0 ∷ 2 ∷ 0 ∷ 1 ∷ 0 ∷ 3 ∷ 0 ∷ 1 ∷ 0 ∷ 2 ∷ 0 ∷ 1 ∷ 0 ∷ 4 ∷ 0 ∷ 1 ∷ 0 ∷ 2 ∷ 0 ∷ 1 ∷ 0
    ∷ 3 ∷ 0 ∷ 1 ∷ 0 ∷ 2 ∷ 0 ∷ 1 ∷ 0 ∷ 5 ∷ 0 ∷ 1 ∷ 0 ∷ 2 ∷ 0 ∷ 1 ∷ 0 ∷ 3 ∷ 0 ∷ 1 ∷ 0 ∷ 2 ∷ 0 ∷ 1 ∷ 0
    ∷ 4 ∷ 0 ∷ 1 ∷ 0 ∷ 2 ∷ 0 ∷ 1 ∷ 0 ∷ 3 ∷ 0 ∷ 1 ∷ 0 ∷ 2 ∷ 0 ∷ 1 ∷ 0 ∷ 6 ∷ 0 ∷ 1 ∷ 0 ∷ 2 ∷ 0 ∷ 1 ∷ 0
    ∷ 3 ∷ 0 ∷ 1 ∷ 0 ∷ 2 ∷ 0 ∷ 1 ∷ 0 ∷ 4 ∷ 0 ∷ 1 ∷ 0 ∷ 2 ∷ 0 ∷ 1 ∷ 0 ∷ 3 ∷ 0 ∷ 1 ∷ 0 ∷ 2 ∷ 0 ∷ 1 ∷ 0
    ∷ 5 ∷ 0 ∷ 1 ∷ 0 ∷ 2 ∷ 0 ∷ 1 ∷ 0 ∷ 3 ∷ 0 ∷ 1 ∷ 0 ∷ 2 ∷ 0 ∷ 1 ∷ 0 ∷ 4 ∷ 0 ∷ 1 ∷ 0 ∷ 2 ∷ 0 ∷ 1 ∷ 0
    ∷ 3 ∷ 0 ∷ 1 ∷ 0 ∷ 2 ∷ 0 ∷ 1 ∷ 0 ∷ 7 ∷ 0 ∷ 1 ∷ 0 ∷ 2 ∷ 0 ∷ 1 ∷ 0 ∷ 3 ∷ 0 ∷ 1 ∷ 0 ∷ 2 ∷ 0 ∷ 1 ∷ 0
    ∷ 4 ∷ 0 ∷ 1 ∷ 0 ∷ 2 ∷ 0 ∷ 1 ∷ 0 ∷ 3 ∷ 0 ∷ 1 ∷ 0 ∷ 2 ∷ 0 ∷ 1 ∷ 0 ∷ 5 ∷ 0 ∷ 1 ∷ 0 ∷ 2 ∷ 0 ∷ 1 ∷ 0
    ∷ 3 ∷ 0 ∷ 1 ∷ 0 ∷ 2 ∷ 0 ∷ 1 ∷ 0 ∷ 4 ∷ 0 ∷ 1 ∷ 0 ∷ 2 ∷ 0 ∷ 1 ∷ 0 ∷ 3 ∷ 0 ∷ 1 ∷ 0 ∷ 2 ∷ 0 ∷ 1 ∷ 0
    ∷ 6 ∷ 0 ∷ 1 ∷ 0 ∷ 2 ∷ 0 ∷ 1 ∷ 0 ∷ 3 ∷ 0 ∷ 1 ∷ 0 ∷ 2 ∷ 0 ∷ 1 ∷ 0 ∷ 4 ∷ 0 ∷ 1 ∷ 0 ∷ 2 ∷ 0 ∷ 1 ∷ 0
    ∷ 3 ∷ 0 ∷ 1 ∷ 0 ∷ 2 ∷ 0 ∷ 1 ∷ 0 ∷ 5 ∷ 0 ∷ 1 ∷ 0 ∷ 2 ∷ 0 ∷ 1 ∷ 0 ∷ 3 ∷ 0 ∷ 1 ∷ 0 ∷ 2 ∷ 0 ∷ 1 ∷ 0
    ∷ 4 ∷ 0 ∷ 1 ∷ 0 ∷ 2 ∷ 0 ∷ 1 ∷ 0 ∷ 3 ∷ 0 ∷ 1 ∷ 0 ∷ 2 ∷ 0 ∷ 1 ∷ 0 ∷ []

-- `MRTK_IDLE_PRIORITY`
abbrev pub idle_priority : ℕ
idle_priority = prio_levels - 1

-- `_mrtk_schedule_get_highest_prio`, of the bitmap that it reads
unfoldable pub get_highest_prio : ℕ → ℕ
get_highest_prio bitmap =
    if bitmap == 0
    then idle_priority
    else if not (bit_and bitmap 0xFF == 0)
    then get_or bit_bitmap (bit_and bitmap 0xFF) 0
    else if not (bit_and bitmap 0xFF00 == 0)
    then get_or bit_bitmap (bit_and (bitmap / 2 ^ 8) 0xFF) 0 + 8
    else if not (bit_and bitmap 0xFF0000 == 0)
    then get_or bit_bitmap (bit_and (bitmap / 2 ^ 16) 0xFF) 0 + 16
    else get_or bit_bitmap (bit_and (bitmap / 2 ^ 24) 0xFF) 0 + 24

-- `mrtk_schedule_prio_ht`: a null right side counts as lower
unfoldable pub prio_ht : ℕ → ℕ → Kernel → Bool
prio_ht lhs rhs k = if rhs == null then true else ltb (k.tcb lhs).priority (k.tcb rhs).priority

-- `mrtk_schedule_prio_lt`
unfoldable pub prio_lt : ℕ → ℕ → Kernel → Bool
prio_lt lhs rhs k = if rhs == null then false else ltb (k.tcb rhs).priority (k.tcb lhs).priority

-- The loop of `mrtk_schedule_init`: `i` counts the rounds left.
init_lists : ℕ → ℕ → Links → Links
init_lists zero i l = l
init_lists (suc left) i l = init_lists left (i + 1) (DList.init (ready_list i) l)

-- `mrtk_schedule_init`
unfoldable pub schedule_init : Kernel → Kernel
unfolding init_lists
schedule_init k = record k {
  sched = DList.init defunct_list (init_lists prio_levels 0 k.sched);
  ready_prio_bitmap = 0;
  lock_nest = 0;
  need_schedule = false;
  current = null;
  next = null;
}

-- The task that `mrtk_schedule` selects: the first node of the highest ready list.
unfoldable pub select : Kernel → ℕ
select k = k.sched.next (ready_list (get_highest_prio k.ready_prio_bitmap))

-- `mrtk_schedule`; `pended` is the request that `mrtk_hw_context_switch_interrupt` makes
unfoldable pub schedule : Kernel → Kernel
schedule k =
    if not k.started
    then record k { need_schedule = true }
    else if ltb 0 k.interrupt_nest || ltb 0 k.lock_nest
    then record k { need_schedule = true }
    else record k {
      need_schedule = false;
      next = select k;
      pended = not (select k == k.current) || k.pended;
    }

-- `_mrtk_schedule_insert_task`
unfoldable pub insert_task : ℕ → Kernel → Kernel
insert_task task k =
    let prio = (k.tcb task).priority in
    record k {
      sched = DList.insert_before (ready_list prio) task k.sched;
      ready_prio_bitmap = bit_or k.ready_prio_bitmap (2 ^ prio);
    }

-- `~MRTK_BIT(n)` on 32 bits
abbrev pub not_bit : ℕ → ℕ
not_bit n = 2 ^ 32 - 1 - 2 ^ n

-- `_mrtk_schedule_remove_task`
unfoldable pub remove_task : ℕ → Kernel → Kernel
remove_task task k =
    let prio = (k.tcb task).priority in
    let links = DList.remove task k.sched in
    record k {
      sched = links;
      ready_prio_bitmap =
          if DList.is_empty (ready_list prio) links
          then bit_and k.ready_prio_bitmap (not_bit prio)
          else k.ready_prio_bitmap;
    }

-- `mrtk_schedule_lock`
unfoldable pub schedule_lock : Kernel → Kernel
schedule_lock k = record k { lock_nest = (k.lock_nest + 1) % 2 ^ 32 }

-- `mrtk_schedule_unlock`
unfoldable pub schedule_unlock : Kernel → Kernel
unfolding schedule
schedule_unlock k =
    let k1 = record k { lock_nest = (k.lock_nest + 2 ^ 32 - 1) % 2 ^ 32 } in
    if ltb 0 k1.interrupt_nest || ltb 0 k1.lock_nest
    then k1
    else if k1.need_schedule
    then schedule (record k1 { lock_nest = 0 })
    else record k1 { lock_nest = 0 }

-- `_mrtk_schedule_prio_change`
unfoldable pub prio_change : ℕ → ℕ → Kernel → Kernel
prio_change task prio k = insert_task task (set_priority task (prio % 256) (remove_task task k))

-- The end of a time slice in `mrtk_tick_increase`: a new slice, and behind the others if there are.
unfoldable pub slice_end : ℕ → Kernel → Kernel
slice_end task k =
    let c = k.tcb task in
    let head = ready_list c.priority in
    let k1 = set_tcb task (record c { remain_tick = c.init_tick }) k in
    if k.sched.next (k.sched.next head) == head then k1 else record k1 {
      sched = DList.insert_before head task (DList.remove task k.sched);
      need_schedule = true;
    }

-- The round robin part of `mrtk_tick_increase`, after the tick count and the timer scan.
unfoldable pub round_robin : Kernel → Kernel
round_robin k =
    let task = k.current in
    let c = k.tcb task in
    if task == null
    then k
    else if not (ltb 0 c.remain_tick)
    then k
    else if c.remain_tick - 1 == 0
    then slice_end task k
    else set_tcb task (record c { remain_tick = c.remain_tick - 1 }) k

-- `mrtk_tick_increase`; `hard_check` is `mrtk_timer_hard_check`
unfoldable pub tick_increase : (Kernel → Kernel) → Kernel → Kernel
unfolding round_robin slice_end
tick_increase hard_check k = round_robin (hard_check (record k { tick = (k.tick + 1) % 2 ^ 32 }))
