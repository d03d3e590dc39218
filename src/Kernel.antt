-- ===== src/Kernel.antt =====
-- The kernel's shared state: the globals of mrtk_schedule.c, mrtk_irq.c, mrtk_timer.c, mrtk_obj.c
-- and mrtk_system.c, and the control blocks of tasks and timers (mrtk_task.h, mrtk_timer.h).
-- An object is its address. Nodes of one kind (sched_node, timer_node, held_node, obj_node) and the
-- list heads that hold them have a link store of their own, in which the object's address stands
-- for its node, so `_mrtk_list_entry` is the identity.
use micro_rt_kernel.Prelude.{ℕ, ◌+◌, ◌^◌, ◌==◌, if◌then◌else◌, Bool}
use micro_rt_kernel.DList.{Links}

-- `mrtk_errno.h`
pub data Err : Type 0 where
  eok error einval edeleted efull eempty e_in_isr ebusy etimeout : Err

-- `mrtk_task_stat_t`
pub data TaskState : Type 0 where
  init ready running suspend close : TaskState

-- The scheduling and waiting fields of `mrtk_tcb_t`; `cleanup_handler` is null if there is none.
pub record Tcb : Type 0 where
  pub priority : ℕ
  pub state : TaskState
  pub init_tick : ℕ
  pub remain_tick : ℕ
  pub orig_prio : ℕ
  pub last_error : Err
  pub is_dynamic : Bool
  pub event_set : ℕ
  pub event_option : ℕ
  pub event_recved : ℕ
  pub cleanup_handler : ℕ

-- `mrtk_timer_t`; the Booleans are the bits ACTIVATED, PERIODIC and SOFT_TIMER of `obj.flag`.
pub record Timer : Type 0 where
  pub init_tick : ℕ
  pub timeout_tick : ℕ
  pub activated : Bool
  pub periodic : Bool
  pub soft : Bool

-- `mrtk_mutex_t`: the fields beside its lists; `flag` and `is_dynamic` are those of its base.
pub record Mutex : Type 0 where
  pub value : ℕ
  pub orig_prio : ℕ
  pub nest : ℕ
  pub owner_task : ℕ
  pub flag : ℕ
  pub is_dynamic : Bool

pub record Kernel : Type 0 where
  pub sched : Links
  pub timers : Links
  pub objs : Links
  pub held : Links
  pub tcb : ℕ → Tcb
  pub timer : ℕ → Timer
  pub mutex : ℕ → Mutex
  pub ready_prio_bitmap : ℕ
  pub current : ℕ
  pub next : ℕ
  pub lock_nest : ℕ
  pub need_schedule : Bool
  pub interrupt_nest : ℕ
  pub started : Bool
  pub tick : ℕ
  pub pended : Bool

abbrev pub null : ℕ
null = 0

-- Addresses below this bound are those of the kernel's own list heads.
abbrev pub first_object : ℕ
first_object = 64

-- `&g_ready_task_list[prio]` and `&g_defunct_task_list`, in the store of the sched nodes
abbrev pub ready_list : ℕ → ℕ
ready_list prio = prio + 1

abbrev pub defunct_list : ℕ
defunct_list = 33

-- `&g_hard_timer_list` and `&g_soft_timer_list`, in the store of the timer nodes
abbrev pub hard_list : ℕ
hard_list = 1

abbrev pub soft_list : ℕ
soft_list = 2

-- `&task->timer`: an address of its own, beyond the 32-bit addresses of the other objects
abbrev pub task_timer : ℕ → ℕ
task_timer task = task + 2 ^ 32

abbrev pub prio_levels : ℕ
prio_levels = 32

abbrev pub update {ℓ} : {A : Type ℓ} → (ℕ → A) → ℕ → A → ℕ → A
update f a v b = if b == a then v else f b

abbrev pub set_tcb : ℕ → Tcb → Kernel → Kernel
set_tcb t c k = record k { tcb = update k.tcb t c }

abbrev pub set_timer : ℕ → Timer → Kernel → Kernel
set_timer t c k = record k { timer = update k.timer t c }

abbrev pub set_state : ℕ → TaskState → Kernel → Kernel
set_state t s k = set_tcb t (record (k.tcb t) { state = s }) k

abbrev pub set_last_error : ℕ → Err → Kernel → Kernel
set_last_error t e k = set_tcb t (record (k.tcb t) { last_error = e }) k

abbrev pub set_priority : ℕ → ℕ → Kernel → Kernel
set_priority t p k = set_tcb t (record (k.tcb t) { priority = p }) k

abbrev pub set_mutex : ℕ → Mutex → Kernel → Kernel
set_mutex m c k = record k { mutex = update k.mutex m c }
