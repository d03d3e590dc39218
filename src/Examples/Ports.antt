-- ===== src/Examples/Ports.antt =====
-- The theorems on the port and on the names of objects, applied to concrete memory.
use micro_rt_kernel.Prelude.{
  ℕ, ◌+◌, ◌%◌, ◌≤◌, ◌<◌, ◌≡◌, refl, inr, [], ◌∷◌, arith, if◌then◌else◌, Memory, within,
}
use micro_rt_kernel.Port.{Cpu, dead_beef, new_stack, words, start, pend_sv}
use micro_rt_kernel.Port.Frame.{frame, new_stack-inside, new_stack-below, start-new_stack}
use micro_rt_kernel.Port.Switch.{pend_sv-back}

abbrev empty : Memory
empty = λ a. 0

-- A stack of 200 bytes at 1004 for the task whose entry function is at 500
new_stack-inside_example :
    let r = new_stack 300 500 7 1004 200 empty in
    (r.0 % 8 ≡ 0)
    × (1004 ≤ r.0)
    × (r.0 + 64 ≤ 1004 + 200)
    × (words 16 0 r.0 r.1 ≡ frame 500 7 300)
    × ((a : ℕ) → (if within 1004 200 a then empty a else r.1 a) ≡ empty a)
new_stack-inside_example = new_stack-inside 300 500 7 1004 200 empty (omega arith) (omega arith)

new_stack-below_example :
    let r = new_stack 300 500 7 1000 40 empty in (r.0 < 1000) × (r.1 r.0 ≡ dead_beef)
new_stack-below_example =
    new_stack-below 300 500 7 1000 40 empty (omega arith) (omega arith) (omega arith)

abbrev booting : Cpu
booting = record {
  reg = λ r. r;
  psp = 0;
  primask = 0;
  icsr = 0;
  current_addr = 20000;
  memory = (new_stack 300 500 7 1004 200 empty).1;
  stack_ptr = λ t. (new_stack 300 500 7 1004 200 empty).0;
  current = 0;
  next = 100;
}

start-new_stack_example :
    let s' = start booting in
    (s'.current ≡ 100)
    × (s'.psp % 8 ≡ 0)
    × (s'.psp + 32 ≤ 1004 + 200)
    × (words 8 0 s'.psp s'.memory ≡ 7 ∷ 0 ∷ 0 ∷ 0 ∷ 0 ∷ 300 ∷ 500 ∷ 0x01000000 ∷ [])
    × ((r : ℕ) → (if within 4 8 r then s'.reg r else dead_beef) ≡ dead_beef)
    × (s'.reg 14 ≡ 0xFFFFFFFD)
    × (s'.primask ≡ 0)
start-new_stack_example =
    start-new_stack 300 500 7 1004 200 empty booting (omega arith) (omega arith) refl refl

-- Task 100 runs, and task 102 has its registers saved at 2000.
abbrev running_100 : Cpu
running_100 = record {
  reg = λ r. r + 40;
  psp = 1000;
  primask = 0;
  icsr = 0;
  current_addr = 20000;
  memory = empty;
  stack_ptr = λ t. 2000;
  current = 100;
  next = 102;
}

abbrev running_102 : Cpu
running_102 = record {
  reg = λ r. 9;
  psp = 2016;
  primask = 0;
  icsr = 0;
  current_addr = 20000;
  memory = (pend_sv running_100).memory;
  stack_ptr = (pend_sv running_100).stack_ptr;
  current = 102;
  next = 100;
}

pend_sv-back_example :
    ((pend_sv running_102).current ≡ 100)
    × ((pend_sv running_102).psp ≡ 1000)
    × ((r : ℕ) → (if within 4 8 r then (pend_sv running_102).reg r else r + 40) ≡ r + 40)
    × ((pend_sv running_102).reg 14 ≡ 0xFFFFFFFD)
    × ((pend_sv running_102).primask ≡ 0)
pend_sv-back_example =
    pend_sv-back running_100 running_102 (omega arith) (omega arith)
      (λ e. absurd (omega (arith, e))) refl refl (λ a h. refl) (inr (omega arith))
