-- ===== src/Machine/States.antt =====
-- The states of the tasks beside the lists: who is ready, and who waits.
use micro_rt_kernel.Prelude.{
  ℕ, ◌<◌, ◌≡◌, ◌⊎◌, inl, inr, true, false, ◌||◌, List, arith, ◌==◌, if◌then◌else◌, Bool-cases,
  ==_iff, mem,
}
use micro_rt_kernel.Kernel.{Kernel, TaskState, ready, suspend, prio_levels, update}
use micro_rt_kernel.Task.{is_runnable}

pub record StatesOk (objs : List ℕ) (k : Kernel) (rq wl : ℕ → List ℕ) : Type 0 where
  pub runs : (p t : ℕ) → p < prio_levels → mem t (rq p) ≡ true → is_runnable (k.tcb t).state ≡ true
  pub sleeps : (o t : ℕ) → mem o objs ≡ true → mem t (wl o) ≡ true → (k.tcb t).state ≡ suspend

-- Where a member of an updated list comes from.
pub mem-update :
    (wl : ℕ → List ℕ) (o a x : ℕ) (ws : List ℕ)
    → mem x (update wl o ws a) ≡ true
    → ((a ≡ o) × (mem x ws ≡ true)) ⊎ (mem x (wl a) ≡ true)
mem-update wl o a x ws h = elim (Bool-cases (a == o)) [
  | inl e ↦ inl ((==_iff a o).0 e, rw e at h)
  | inr e ↦ inr (rw e at h)
]

-- One task changes its state.
module _ (objs : List ℕ) (k g : Kernel) (rq sq wl vl : ℕ → List ℕ) (t : ℕ) (st : TaskState)
    (ok : StatesOk objs k rq wl)
    (one : (s : ℕ) → (g.tcb s).state ≡ (if s == t then st else (k.tcb s).state)) where
  -- It becomes ready.
  pub readied-StatesOk :
      st ≡ ready
      → ((p s : ℕ) → p < prio_levels → mem s (sq p) ≡ true → (mem s (rq p) || s == t) ≡ true)
      → ((o s : ℕ) → mem o objs ≡ true → mem s (vl o) ≡ true → mem s (wl o) ≡ true)
      → ((o : ℕ) → mem o objs ≡ true → mem t (vl o) ≡ false)
      → StatesOk objs g sq vl
  readied-StatesOk is more less out = record {
    runs = λ p s h m. elim (Bool-cases (s == t)) [
      | inl e ↦ ground (arith, one s)
      | inr e ↦ ground (arith, one s, ok.runs p s h, more p s h m)
    ];
    sleeps = λ o s h m. elim (Bool-cases (s == t)) [
      | inl e ↦ absurd (ground (arith, out o h))
      | inr e ↦ ground (arith, one s, ok.sleeps o s h (less o s h m))
    ];
  }

  -- It goes to sleep.
  pub suspended-StatesOk :
      st ≡ suspend
      → ((p s : ℕ) → p < prio_levels → mem s (sq p) ≡ true → mem s (rq p) ≡ true)
      → ((p : ℕ) → p < prio_levels → mem t (sq p) ≡ false)
      → ((o s : ℕ) → mem o objs ≡ true → mem s (vl o) ≡ true → (mem s (wl o) || s == t) ≡ true)
      → StatesOk objs g sq vl
  suspended-StatesOk is less out more = record {
    runs = λ p s h m. elim (Bool-cases (s == t)) [
      | inl e ↦ absurd (ground (arith, out p h))
      | inr e ↦ ground (arith, one s, ok.runs p s h (less p s h m))
    ];
    sleeps = λ o s h m. elim (Bool-cases (s == t)) [
      | inl e ↦ ground (arith, one s)
      | inr e ↦ ground (arith, one s, ok.sleeps o s h, more o s h m)
    ];
  }
