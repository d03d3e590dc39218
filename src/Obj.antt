-- ===== src/Obj.antt =====
-- Kernel/Src/mrtk_obj.c: the base of every kernel object and the lists of objects by type.
-- The name and the allocation flag of an object are not part of this state.
pub mod Twice
use micro_rt_kernel.Prelude.{ℕ, zero, suc, ◌+◌}
use micro_rt_kernel.DList
use micro_rt_kernel.DList.{Links}
use micro_rt_kernel.Kernel.{Kernel}

-- `mrtk_obj_type`
pub data ObjType : Type 0 where
  task mutex sem queue mail event mem_pool timer device : ObjType

-- `&g_obj_list[type]`, in the store of the object nodes
abbrev pub obj_list : ObjType → ℕ
obj_list task = 1
obj_list mutex = 2
obj_list sem = 3
obj_list queue = 4
obj_list mail = 5
obj_list event = 6
obj_list mem_pool = 7
obj_list timer = 8
obj_list device = 9

-- `_mrtk_obj_init`
unfoldable pub obj_init : ObjType → ℕ → Kernel → Kernel
obj_init type obj k = record k { objs = DList.insert_after (obj_list type) obj k.objs }

-- `_mrtk_obj_delete`
unfoldable pub obj_delete : ℕ → Kernel → Kernel
obj_delete obj k = record k { objs = DList.remove obj k.objs }

-- The loop of `_mrtk_obj_system_init`, over `left` lists from that at `head` on.
init_objs : ℕ → ℕ → Links → Links
init_objs zero head l = l
init_objs (suc left) head l = init_objs left (head + 1) (DList.init head l)

-- `_mrtk_obj_system_init`
unfoldable pub obj_system_init : Kernel → Kernel
unfolding init_objs
obj_system_init k = record k { objs = init_objs 9 1 k.objs }
