-- ===== src/Port/Switch.antt =====
-- What a task finds when it is switched to again.
use micro_rt_kernel.Prelude.{
  ℕ, zero, suc, ◌+◌, ◌-◌, ◌*◌, ◌<◌, ◌≤◌, ◌≡◌, ◌≢◌, ◌⊎◌, inl, inr, refl, ◌∙◌, ap, arith, ◌==◌,
  if◌then◌else◌, Memory, put, within, Bool-cases, ==_of_ne, true, false,
}
use micro_rt_kernel.Port.{Cpu, stm, ldm, save, restore, pend_sv}

-- A word that `STM` does not write
stm-outside :
    (n i a x : ℕ) (reg : ℕ → ℕ) (m : Memory) → within a (4 * n) x ≡ false → stm n i a reg m x ≡ m x
unfolding stm
stm-outside zero i a x reg m h = refl
stm-outside (suc n) i a x reg m h =
    stm-outside n (suc i) (a + 4) x reg _ (ground arith) ∙ ground arith

-- The word of the register `i + j`
stm-word :
    (n i a j : ℕ) (reg : ℕ → ℕ) (m : Memory) → j < n → stm n i a reg m (a + 4 * j) ≡ reg (i + j)
unfolding stm
stm-word zero i a j reg m h = absurd (omega arith)
stm-word (suc n) i a zero reg m h =
    let e : a + 4 * 0 ≡ a = omega arith in
    let f : i + 0 ≡ i = omega arith in
    rw (e, f) (stm-outside n (suc i) (a + 4) a reg _ (ground arith) ∙ ground arith)
stm-word (suc n) i a (suc j) reg m h =
    let e : a + 4 * suc j ≡ a + 4 + 4 * j = omega arith in
    let f : suc i + j ≡ i + suc j = omega arith in
    rw e (stm-word n (suc i) (a + 4) j reg _ (omega arith) ∙ ap reg f)

-- The registers that `LDM` loads, and the others
ldm-reg :
    (n i a r : ℕ) (reg : ℕ → ℕ) (m : Memory)
    → ldm n i a m reg r ≡ (if within i n r then m (a + 4 * (r - i)) else reg r)
unfolding ldm
ldm-reg zero i a r reg m = ground arith
ldm-reg (suc n) i a r reg m =
    let rest = ldm-reg n (suc i) (a + 4) r (put i (m a) reg) m in
    let later : i < r → m (a + 4 + 4 * (r - suc i)) ≡ m (a + 4 * (r - i)) =
      λ h. ap m (omega arith) in
    let first : r ≡ i → m (a + 4 * (r - i)) ≡ m a = λ h. ap m (omega arith) in
    ground (arith, rest, later, first)

-- What a save leaves: the registers in the eight words below the stack pointer, which the control
-- block of the task then names.
save-word :
    (s : Cpu) (j : ℕ) → s.psp ≢ 0 → j < 8 → (save s).memory (s.psp - 32 + 4 * j) ≡ s.reg (4 + j)
unfolding save
save-word s j started h =
    rw (==_of_ne s.psp 0 started) (stm-word 8 4 (s.psp - 32) j s.reg s.memory h)

save-stack_ptr : (s : Cpu) → s.psp ≢ 0 → (save s).stack_ptr s.current ≡ s.psp - 32
unfolding save
save-stack_ptr s started = ground arith

-- What a save by another task leaves alone
save-other : (s : Cpu) (t : ℕ) → t ≢ s.current → (save s).stack_ptr t ≡ s.stack_ptr t
unfolding save
save-other s t other = ground arith

save-outside : (s : Cpu) (x : ℕ) → within (s.psp - 32) 32 x ≡ false → (save s).memory x ≡ s.memory x
unfolding save
save-outside s x h = elim (Bool-cases (s.psp == 0)) [
  | inl e ↦ rw e refl
  | inr e ↦ rw e (stm-outside 8 4 (s.psp - 32) x s.reg s.memory h)
]

put-other : (a v x : ℕ) (f : ℕ → ℕ) → (x == a) ≡ false → put a v f x ≡ f x
put-other a v x f e = rw e refl

-- The registers that it loads
pub restore-reg :
    (s : Cpu) (r : ℕ)
    → within 4 8 r ≡ true
    → (restore s).reg r ≡ s.memory (s.stack_ptr s.next + 4 * (r - 4))
unfolding restore
restore-reg s r h =
    let r0 = s.stack_ptr s.next in
    let regs = put 0 r0 (put 2 s.next (put 1 s.current_addr s.reg)) in
    put-other 14 0xFFFFFFFD r (put 0 (r0 + 32) (ldm 8 4 r0 s.memory regs)) (ground arith)
    ∙ put-other 0 (r0 + 32) r (ldm 8 4 r0 s.memory regs) (ground arith)
    ∙ ldm-reg 8 4 r0 r regs s.memory
    ∙ rw h refl

save-next : (s : Cpu) → (save s).next ≡ s.next
unfolding save
save-next s = ground arith

-- A task is switched away from with its stack pointer at `s.psp`. Later the handler switches back to
-- it from another task: in between its control block's stack pointer and the 32 bytes below `s.psp`
-- have not changed, and the other task does not save its registers there. Then it is current again,
-- with the stack pointer and R4 to R11 that it had, LR holds the code for the return to a task, and
-- interrupts are on. Both stack pointers are at least 32.
pub pend_sv-back :
    (s s' : Cpu)
    → 32 ≤ s.psp
    → 32 ≤ s'.psp
    → s.current ≢ s'.current
    → s'.next ≡ s.current
    → s'.stack_ptr s.current ≡ (pend_sv s).stack_ptr s.current
    → ((a : ℕ) → within (s.psp - 32) 32 a ≡ true → s'.memory a ≡ (pend_sv s).memory a)
    → (s'.psp + 32 ≤ s.psp) ⊎ (s.psp + 32 ≤ s'.psp)
    → ((pend_sv s').current ≡ s.current)
      × ((pend_sv s').psp ≡ s.psp)
      × ((r : ℕ) → (if within 4 8 r then (pend_sv s').reg r else s.reg r) ≡ s.reg r)
      × ((pend_sv s').reg 14 ≡ 0xFFFFFFFD)
      × ((pend_sv s').primask ≡ 0)
unfolding pend_sv restore
pend_sv-back s s' room room' other next sp kept apart =
    let started : s.psp ≢ 0 = omega arith in
    let at : (save s').stack_ptr (save s').next ≡ s.psp - 32 =
      ap (save s').stack_ptr (save-next s' ∙ next)
      ∙ save-other s' s.current other
      ∙ sp
      ∙ save-stack_ptr s started in
    let word : (j : ℕ) → j < 8 → (save s').memory (s.psp - 32 + 4 * j) ≡ s.reg (4 + j) =
      λ j h. save-outside s' _ (ground arith) ∙ kept _ (ground arith) ∙ save-word s j started h in
    let reg : (r : ℕ) → within 4 8 r ≡ true → (restore (save s')).reg r ≡ s.reg r = λ r h.
      restore-reg (save s') r h
      ∙ ap (λ p. (save s').memory (p + 4 * (r - 4))) at
      ∙ word (r - 4) (ground arith)
      ∙ ap s.reg (ground arith) in
    (
      save-next s' ∙ next,
      omega (arith, at),
      λ r. elim (Bool-cases (within 4 8 r)) [ inl h ↦ rw h (reg r h) | inr h ↦ rw h refl ],
      refl,
      refl,
    )
