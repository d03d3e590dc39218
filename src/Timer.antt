-- ===== src/Timer.antt =====
-- Kernel/Src/mrtk_timer.c. A loop takes the rounds that it may make, and gives `none` beyond them.
pub mod Insert
pub mod Stop
pub mod Scan
pub mod Endless
use micro_rt_kernel.Prelude.{
  ℕ, zero, suc, ◌+◌, ◌-◌, ◌/◌, ◌%◌, ◌^◌, Bool, true, false, not, ◌||◌, Option, none, some, ◌==◌,
  ltb, if◌then◌else◌, ◌>>=◌,
}
use micro_rt_kernel.DList
use micro_rt_kernel.Obj.{timer, obj_init, obj_delete}
use micro_rt_kernel.Kernel.{
  Kernel, Timer, Err, eok, error, einval, null, hard_list, soft_list, set_timer,
}

-- `MRTK_WAITING_FOREVER`, -1 as a `mrtk_u32_t`, and `MRTK_TICK_MAX`
abbrev pub waiting_forever : ℕ
waiting_forever = 2 ^ 32 - 1

abbrev pub tick_max : ℕ
tick_max = 2 ^ 32 - 1

-- The list that `_mrtk_timer_insert` selects.
abbrev pub target_list : Timer → ℕ
target_list c = if c.soft then soft_list else hard_list

abbrev pub set_activated : ℕ → Bool → Kernel → Kernel
set_activated t b k = set_timer t (record (k.timer t) { activated = b }) k

abbrev pub link_before : ℕ → ℕ → Kernel → Kernel
link_before pos t k = record k { timers = DList.insert_before pos t k.timers }

-- What `_mrtk_timer_insert` does once its loop has ended at `pos`: an early return inside the
-- loop links the timer and leaves its flag, the end of the loop links it last and sets the flag.
abbrev pub insert_at : ℕ → ℕ → Kernel → Kernel
insert_at pos t k =
    let list = target_list (k.timer t) in
    if pos == list then set_activated t true (link_before list t k) else link_before pos t k

-- `_mrtk_timer_insert`
unfoldable pub timer_insert : ℕ → ℕ → Kernel → Option Kernel
timer_insert fuel t k = do
  pos ←
      DList.search_node fuel (λ c. ltb (k.timer t).timeout_tick (k.timer c).timeout_tick)
        (target_list (k.timer t)) k.timers
  some (insert_at pos t k)

-- `_mrtk_timer_remove`
unfoldable pub timer_remove : ℕ → Kernel → Kernel
timer_remove t k = set_activated t false (record k { timers = DList.remove t k.timers })

-- `_mrtk_timer_system_init`
unfoldable pub timer_system_init : Kernel → Kernel
timer_system_init k = record k {
  timers = DList.init soft_list (DList.init hard_list k.timers);
  tick = 0;
}

-- `mrtk_timer_init`; `named` and `called` say whether `name` and `callback` are given
unfoldable pub timer_init : ℕ → Bool → Bool → ℕ → Bool → Bool → Kernel → Err × Kernel
timer_init t named called tick periodic soft k =
    if (t == null) || not named || not called
    then (einval, k)
    else let k1 = obj_init timer t k in
      (
        eok,
        set_timer t
            (record (k1.timer t) {
              activated = false;
              periodic = periodic;
              soft = soft;
              init_tick = tick;
            })
            (record k1 { timers = DList.init t k1.timers }),
      )

-- `mrtk_timer_detach`, and `mrtk_timer_delete` up to the release of the memory
unfoldable pub timer_detach : ℕ → Kernel → Err × Kernel
unfolding timer_remove
timer_detach t k =
    if t == null
    then (einval, k)
    else (eok, obj_delete t (if (k.timer t).activated then timer_remove t k else k))

-- `mrtk_timer_start`
unfoldable pub timer_start : ℕ → ℕ → Kernel → Option (Err × Kernel)
unfolding timer_insert timer_remove
timer_start fuel t k =
    if (t == null) || ((k.timer t).init_tick == waiting_forever) then some (einval, k) else do
      let k1 = if (k.timer t).activated then timer_remove t k else k
      let due = (k1.tick + (k1.timer t).init_tick) % 2 ^ 32
      k2 ← timer_insert fuel t (set_timer t (record (k1.timer t) { timeout_tick = due }) k1)
      some (eok, k2)

-- `mrtk_timer_stop`
unfoldable pub timer_stop : ℕ → Kernel → Err × Kernel
unfolding timer_remove
timer_stop t k =
    if t == null
    then (einval, k)
    else if not (k.timer t).activated
    then (error, k)
    else (eok, timer_remove t k)

-- `mrtk_timer_cmd_t`; a command with an argument has `none` for a null pointer.
pub data TimerCmd : Type 0 where
  set_time : Option ℕ → TimerCmd
  get_time : Bool → TimerCmd
  set_oneshot set_periodic set_hard_mode set_soft_mode other : TimerCmd

-- The two mode commands of `mrtk_timer_control`.
unfoldable pub set_mode : ℕ → Bool → ℕ → Kernel → Option (Err × Kernel)
unfolding timer_insert timer_remove
set_mode fuel soft t k = do
  let was_activated = (k.timer t).activated
  let k1 = if was_activated then timer_remove t k else k
  let k2 = set_timer t (record (k1.timer t) { soft = soft }) k1
  k3 ← if was_activated then timer_insert fuel t k2 else some k2
  some (eok, k3)

-- `mrtk_timer_control`; beside the error, the number that GET_TIME writes through `arg`
unfoldable pub timer_control : ℕ → ℕ → TimerCmd → Kernel → Option (Err × Kernel)
unfolding set_mode
timer_control fuel zero cmd k = some (einval, k)
timer_control fuel t (set_time none) k = some (einval, k)
timer_control fuel t (set_time (some time)) k =
    some (eok, set_timer t (record (k.timer t) { init_tick = time }) k)
timer_control fuel t (get_time false) k = some (einval, k)
timer_control fuel t (get_time true) k = some (eok, k)
timer_control fuel t set_oneshot k =
    some (eok, set_timer t (record (k.timer t) { periodic = false }) k)
timer_control fuel t set_periodic k =
    some (eok, set_timer t (record (k.timer t) { periodic = true }) k)
timer_control fuel t set_hard_mode k = set_mode fuel false t k
timer_control fuel t set_soft_mode k = set_mode fuel true t k
timer_control fuel t other k = some (einval, k)

-- The test of the scan: `cur_tick - timeout_tick < MRTK_TICK_MAX / 2` on 32 bits
abbrev pub expired : ℕ → Timer → Bool
expired cur_tick c = ltb ((cur_tick + 2 ^ 32 - c.timeout_tick) % 2 ^ 32) (tick_max / 2)

-- A periodic timer is put back one period later.
unfoldable pub rearm : ℕ → ℕ → Kernel → Option Kernel
unfolding timer_insert
rearm fuel t k =
    if (k.timer t).periodic
    then timer_insert fuel t (
        set_timer t
          (record (k.timer t) {
            timeout_tick = ((k.timer t).timeout_tick + (k.timer t).init_tick) % 2 ^ 32;
          })
          k)
    else some k

-- The loop of `mrtk_timer_hard_check` and of `mrtk_timer_soft_check`, which differ in the list
-- only; `callback t` is what the callback of timer `t` does.
unfoldable pub check : ℕ → (ℕ → Kernel → Kernel) → ℕ → ℕ → Kernel → Option Kernel
unfolding rearm timer_remove
check zero callback list cur_tick k = none
check (suc fuel) callback list cur_tick k =
    let t = k.timers.next list in
    let rest : Option Kernel = do
      k1 ← rearm fuel t (callback t (timer_remove t k))
      check fuel callback list cur_tick k1
    in if DList.is_empty list k.timers
      then some k
      else if not (expired cur_tick (k.timer t))
      then some k
      else rest

unfoldable pub hard_check : ℕ → (ℕ → Kernel → Kernel) → Kernel → Option Kernel
unfolding check
hard_check fuel callback k = check fuel callback hard_list k.tick k

unfoldable pub soft_check : ℕ → (ℕ → Kernel → Kernel) → Kernel → Option Kernel
unfolding check
soft_check fuel callback k = check fuel callback soft_list k.tick k
