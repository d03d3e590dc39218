-- ===== src/Port.antt =====
-- Kernel/Port: the stack frame of a new task (cpu_port.c) and the switch of the context in
-- `PendSV_Handler` (hw_stm32f407.S). A word stands in the memory at the address of its first byte.
-- What the processor itself does when an exception starts and ends is not in the code.
use micro_rt_kernel.Prelude.{
  ℕ, ◌≡◌, refl, zero, suc, ◌+◌, ◌-◌, ◌%◌, ◌^◌, ◌==◌, if◌then◌else◌, List, [], ◌∷◌, Memory, put,
}
pub mod Frame
pub mod Switch

-- `sizeof(struct stack_frame)`: R4 to R11, R0 to R3, R12, LR, PC and xPSR
abbrev pub frame_size : ℕ
frame_size = 64

-- The pattern in the registers that the handler restores
abbrev pub dead_beef : ℕ
dead_beef = 0xDEADBEEF

-- `mrtk_hw_stack_init`: the address of the frame, and the memory with the frame
unfoldable pub stack_init : ℕ → ℕ → ℕ → ℕ → Memory → ℕ × Memory
stack_init entry parameter stack_top exit m =
    let stk = (stack_top + (2 ^ 32 - frame_size)) % 2 ^ 32 in
    let m = put (stk + 60) 0x01000000 m in
    let m = put (stk + 56) entry m in
    let m = put (stk + 52) exit m in
    let m = put (stk + 48) 0 m in
    let m = put (stk + 32) parameter m in
    let m = put (stk + 36) 0 m in
    let m = put (stk + 40) 0 m in
    let m = put (stk + 44) 0 m in
    let m = put (stk + 0) dead_beef m in
    let m = put (stk + 4) dead_beef m in
    let m = put (stk + 8) dead_beef m in
    let m = put (stk + 12) dead_beef m in
    let m = put (stk + 16) dead_beef m in
    let m = put (stk + 20) dead_beef m in
    let m = put (stk + 24) dead_beef m in let m = put (stk + 28) dead_beef m in (stk, m)

-- The top of the stack of a new task, aligned down to eight bytes
unfoldable pub stack_top_val : ℕ → ℕ → ℕ
stack_top_val stack_base stack_size = let top = (stack_base + stack_size) % 2 ^ 32 in top - top % 8

-- The stack that `mrtk_task_init` makes, with `task_exit` the address of `_mrtk_task_exit`
unfoldable pub new_stack : ℕ → ℕ → ℕ → ℕ → ℕ → Memory → ℕ × Memory
unfolding stack_init stack_top_val
new_stack task_exit entry para stack_base stack_size m =
    stack_init entry para (stack_top_val stack_base stack_size) task_exit m

-- `mrtk_hw_interrupt_disable`: the mask before, and the mask then
unfoldable interrupt_disable : ℕ → ℕ × ℕ
interrupt_disable primask = (primask, 1)

-- `mrtk_hw_interrupt_enable`: the mask then
unfoldable interrupt_enable : ℕ → ℕ → ℕ
interrupt_enable level primask = level

-- A critical section inside another one leaves the interrupts masked; behind the outer one the mask
-- is what it was.
nested_sections :
    (primask : ℕ)
    → let outer = interrupt_disable primask in
      let inner = interrupt_disable outer.1 in
      let after_inner = interrupt_enable inner.0 inner.1 in
      (after_inner ≡ 1) × (interrupt_enable outer.0 after_inner ≡ primask)
unfolding interrupt_disable interrupt_enable
nested_sections primask = (refl, refl)

-- The registers by number (14 is LR), the process stack pointer, the interrupt mask, the interrupt
-- control register, the memory, and of the kernel what the handler reads and writes: the stack
-- pointers in the control blocks, the two globals, and the address at which `g_CurrentTCB` stands.
pub record Cpu : Type 0 where
  pub reg : ℕ → ℕ
  pub psp : ℕ
  pub primask : ℕ
  pub icsr : ℕ
  pub memory : Memory
  pub current_addr : ℕ
  pub stack_ptr : ℕ → ℕ
  pub current : ℕ
  pub next : ℕ

-- `STM`: `n` registers from number `i` on, to the words from `a` on
unfoldable pub stm : ℕ → ℕ → ℕ → (ℕ → ℕ) → Memory → Memory
stm zero i a reg m = m
stm (suc n) i a reg m = stm n (suc i) (a + 4) reg (put a (reg i) m)

-- `LDM`: the words from `a` on, to `n` registers from number `i` on
unfoldable pub ldm : ℕ → ℕ → ℕ → Memory → (ℕ → ℕ) → ℕ → ℕ
ldm zero i a m reg = reg
ldm (suc n) i a m reg = ldm n (suc i) (a + 4) m (put i (m a) reg)

-- Up to `skip_save`: interrupts off, and R4 to R11 below the stack pointer, unless no task has run
-- yet. R0 and R1 are the handler's.
unfoldable pub save : Cpu → Cpu
unfolding stm
save s =
    let r0 = s.psp - 32 in
    if s.psp == 0 then record s { primask = 1; reg = put 0 s.psp s.reg } else record s {
      primask = 1;
      memory = stm 8 4 r0 s.reg s.memory;
      stack_ptr = put s.current r0 s.stack_ptr;
      reg = put 1 s.current (put 0 r0 s.reg);
    }

-- From `skip_save` on: R1 and R2 are loaded, R0 goes past the eight words, LR takes the code for the
-- return to a task, and interrupts are on.
unfoldable pub restore : Cpu → Cpu
unfolding ldm
restore s =
    let r0 = s.stack_ptr s.next in
    let loaded = ldm 8 4 r0 s.memory (put 0 r0 (put 2 s.next (put 1 s.current_addr s.reg))) in
    record s {
      current = s.next;
      reg = put 14 0xFFFFFFFD (put 0 (r0 + 32) loaded);
      psp = r0 + 32;
      primask = 0;
    }

-- `PendSV_Handler`
unfoldable pub pend_sv : Cpu → Cpu
unfolding save restore
pend_sv s = restore (save s)

-- `mrtk_start`: no task's stack yet, the request for the handler, interrupts on
unfoldable pub request : Cpu → Cpu
request s = record s {
  reg = put 1 (2 ^ 28) (put 0 0xE000ED04 s.reg);
  psp = 0;
  icsr = 2 ^ 28;
  primask = 0;
}

-- `mrtk_start`, and the handler that then runs
unfoldable pub start : Cpu → Cpu
unfolding request pend_sv
start s = pend_sv (request s)

-- `n` words at `a`, from the offset `i` on
unfoldable pub words : ℕ → ℕ → ℕ → Memory → List ℕ
words zero i a m = []
words (suc n) i a m = m (a + i) ∷ words n (i + 4) a m
