-- ===== src/Port/Frame.antt =====
-- The first frame of a task, and whether it lies in the task's stack.
use micro_rt_kernel.Prelude.{
  ℕ, Bool-cases, inl, inr, refl, ◌*◌, zero, suc, ◌+◌, ◌-◌, ◌%◌, ◌^◌, ◌<◌, ◌≤◌, ◌≡◌, ap, ◌∙◌, List,
  [], ◌∷◌, arith, ◌==◌, if◌then◌else◌, Memory, within, false, get_or, holds_below, holds_below-test,
  ==_iff, drop,
}
use micro_rt_kernel.Port.Switch.{restore-reg}
use micro_rt_kernel.Port.{
  dead_beef, stack_init, stack_top_val, new_stack, words, Cpu, start, request, pend_sv, save,
  restore,
}

-- What a new frame holds
abbrev pub frame : ℕ → ℕ → ℕ → List ℕ
frame entry para exit =
    dead_beef ∷ dead_beef ∷ dead_beef ∷ dead_beef ∷ dead_beef ∷ dead_beef ∷ dead_beef ∷ dead_beef
    ∷ para ∷ 0 ∷ 0 ∷ 0 ∷ 0 ∷ exit ∷ entry ∷ 0x01000000 ∷ []

-- Offsets in the frame are equal if the addresses are.
offset-eq : (s a b : ℕ) → (s + a == s + b) ≡ (a == b)
offset-eq s a b = ground arith

pub stack_init-words :
    (entry para top exit : ℕ) (m : Memory)
    → let r = stack_init entry para top exit m in words 16 0 r.0 r.1 ≡ frame entry para exit
unfolding stack_init words
stack_init-words entry para top exit m = simp offset-eq

words-first :
    (n i a x : ℕ) (xs : List ℕ) (m : Memory) → words (suc n) i a m ≡ x ∷ xs → m (a + i) ≡ x
unfolding words
words-first n i a x xs m h = cc h

stack_init-first :
    (entry para top exit : ℕ) (m : Memory)
    → (stack_init entry para top exit m).1 (stack_init entry para top exit m).0 ≡ dead_beef
stack_init-first entry para top exit m =
    let r = stack_init entry para top exit m in
    ap r.1 (omega arith)
    ∙ words-first 15 0 r.0 dead_beef _ r.1 (stack_init-words entry para top exit m)

stack_init-outside :
    (entry para top exit : ℕ) (m : Memory) (a : ℕ)
    → within (stack_init entry para top exit m).0 64 a ≡ false
    → (stack_init entry para top exit m).1 a ≡ m a
unfolding stack_init
stack_init-outside entry para top exit m a h = ground arith

stack_init-place :
    (entry para top exit : ℕ) (m : Memory)
    → 64 ≤ top
    → top < 2 ^ 32
    → (stack_init entry para top exit m).0 ≡ top - 64
unfolding stack_init
stack_init-place entry para top exit m h h' = omega arith

stack_top_val-bounds :
    (base size : ℕ)
    → base + size < 2 ^ 32
    → (stack_top_val base size % 8 ≡ 0)
      × (stack_top_val base size ≤ base + size)
      × (base + size < stack_top_val base size + 8)
unfolding stack_top_val
stack_top_val-bounds base size h = omega arith

-- A task is initialised with a stack of at least 71 bytes that does not wrap around the address
-- space: the frame lies in the stack, at a multiple of eight; it holds the pattern for R4 to R11,
-- then what the processor loads when the task starts: the parameter in R0, the exit function in
-- LR, the entry function as PC and the Thumb bit in xPSR; no word outside the stack changes.
pub new_stack-inside :
    (task_exit entry para base size : ℕ) (m : Memory)
    → 71 ≤ size
    → base + size < 2 ^ 32
    → let r = new_stack task_exit entry para base size m in
      (r.0 % 8 ≡ 0)
      × (base ≤ r.0)
      × (r.0 + 64 ≤ base + size)
      × (words 16 0 r.0 r.1 ≡ frame entry para task_exit)
      × ((a : ℕ) → (if within base size a then m a else r.1 a) ≡ m a)
unfolding new_stack
new_stack-inside task_exit entry para base size m room small =
    let top = stack_top_val base size in
    let bounds : (top % 8 ≡ 0) × (top ≤ base + size) × (base + size < top + 8) =
      stack_top_val-bounds base size small in
    let place = stack_init-place entry para top task_exit m (omega arith) (omega arith) in
    (
      omega (arith, place),
      omega (arith, place),
      omega (arith, place),
      stack_init-words entry para top task_exit m,
      λ a. ground (arith, place, stack_init-outside entry para top task_exit m a),
    )

-- A task is initialised with a stack of less than 64 bytes, whose base is at least 64 and which does
-- not wrap around the address space: the frame starts below the stack, and the word at its start,
-- which is not the stack's, is overwritten.
pub new_stack-below :
    (task_exit entry para base size : ℕ) (m : Memory)
    → size < 64
    → 64 ≤ base
    → base + size < 2 ^ 32
    → let r = new_stack task_exit entry para base size m in (r.0 < base) × (r.1 r.0 ≡ dead_beef)
unfolding new_stack
new_stack-below task_exit entry para base size m few high small =
    let top = stack_top_val base size in
    let bounds : (top % 8 ≡ 0) × (top ≤ base + size) × (base + size < top + 8) =
      stack_top_val-bounds base size small in
    let place = stack_init-place entry para top task_exit m (omega arith) (omega arith) in
    (omega (arith, place), stack_init-first entry para top task_exit m)

words-shift : (n i a k : ℕ) (m : Memory) → words n i (a + k) m ≡ words n (k + i) a m
unfolding words
words-shift zero i a k m = refl
words-shift (suc n) i a k m =
    let here : a + k + i ≡ a + (k + i) = omega arith in
    let step : k + (i + 4) ≡ k + i + 4 = omega arith in
    let rest : words n (i + 4) (a + k) m ≡ words n (k + i + 4) a m =
      words-shift n (i + 4) a k m ∙ ap (λ j. words n j a m) step in
    cc (ap m here, rest)

words-get : (n i a j : ℕ) (m : Memory) → j < n → m (a + (i + 4 * j)) ≡ get_or (words n i a m) j 0
unfolding words
words-get zero i a j m h = absurd (omega arith)
words-get (suc n) i a zero m h = ap m (omega arith)
words-get (suc n) i a (suc j) m h = ap m (omega arith) ∙ words-get n (i + 4) a j m (omega arith)

-- The first eight words are the pattern.
frame-pattern : (entry para exit j : ℕ) → j < 8 → get_or (frame entry para exit) j 0 ≡ dead_beef
unfolding holds_below
frame-pattern entry para exit j h =
    (==_iff _ _).0
      (holds_below-test 8 (λ j. get_or (frame entry para exit) j 0 == dead_beef) j refl h)

-- The first switch of all, to a task that was initialised with a stack of at least 71 bytes, which
-- does not wrap around the address space, and whose frame is still as it was made: the task is
-- current, the stack pointer is at a multiple of eight inside the stack, the words from there on
-- are those that the processor loads when the task starts, R4 to R11 hold the pattern, LR the code
-- for the return to a task, and interrupts are on.
pub start-new_stack :
    (task_exit entry para base size : ℕ) (m : Memory) (s : Cpu)
    → 71 ≤ size
    → base + size < 2 ^ 32
    → s.stack_ptr s.next ≡ (new_stack task_exit entry para base size m).0
    → (let r = new_stack task_exit entry para base size m in
        words 16 0 r.0 s.memory ≡ words 16 0 r.0 r.1)
    → let s' = start s in
      (s'.current ≡ s.next)
      × (s'.psp % 8 ≡ 0)
      × (s'.psp + 32 ≤ base + size)
      × (words 8 0 s'.psp s'.memory ≡ para ∷ 0 ∷ 0 ∷ 0 ∷ 0 ∷ task_exit ∷ entry ∷ 0x01000000 ∷ [])
      × ((r : ℕ) → (if within 4 8 r then s'.reg r else dead_beef) ≡ dead_beef)
      × (s'.reg 14 ≡ 0xFFFFFFFD)
      × (s'.primask ≡ 0)
unfolding start request pend_sv save restore words
start-new_stack task_exit entry para base size m s room small at same =
    let inside = new_stack-inside task_exit entry para base size m room small in
    let sp = s.stack_ptr s.next in
    let held : words 16 0 sp s.memory ≡ frame entry para task_exit =
      ap (λ a. words 16 0 a s.memory) at ∙ same ∙ inside.3 in
    let pattern : (j : ℕ) → j < 8 → s.memory (sp + 4 * j) ≡ dead_beef = λ j h.
      ap s.memory (omega arith)
      ∙ words-get 16 0 sp j s.memory (omega arith)
      ∙ ap (λ ws. get_or ws j 0) held
      ∙ frame-pattern entry para task_exit j h in
    (
      refl,
      omega (arith, inside.0, at),
      omega (arith, inside.2, at),
      words-shift 8 0 sp 32 s.memory ∙ ap (drop 8) held,
      λ r. elim (Bool-cases (within 4 8 r)) [
        | inl h ↦ rw h (restore-reg (save (request s)) r h ∙ pattern (r - 4) (ground arith))
        | inr h ↦ rw h refl
      ],
      refl,
      refl,
    )
