-- ===== src/Timer/Scan.antt =====
-- The loop of `mrtk_timer_hard_check` and `mrtk_timer_soft_check` over timers that fire once.
use micro_rt_kernel.Prelude.{
  ℕ, zero, suc, ◌+◌, ◌-◌, ◌/◌, ◌^◌, ◌%◌, ◌<◌, ◌≤◌, ◌≡◌, refl, ◌∙◌, inl, inr, Bool, true, false, not,
  some, none, List, [], ◌∷◌, ◌++◌, arith, ltb, leb, if◌then◌else◌, Bool-cases, ==_refl, ==_iff,
  length, mem, erase, ◌>>=◌,
}
use mathlib.Core.Path.{subst}
use micro_rt_kernel.DList
use micro_rt_kernel.DList.{Links}
use micro_rt_kernel.DList.Ring.{IsRing, remove-IsRing, is_empty-nil, is_empty-cons, next-cons}
use micro_rt_kernel.Kernel.{Kernel}
use micro_rt_kernel.Timer.{tick_max, timer_remove, rearm, check}
use micro_rt_kernel.Timer.Insert.{Ascending, due}

-- The scan's test on a due tick.
abbrev pub is_due : ℕ → ℕ → Bool
is_due tick d = ltb ((tick + 2 ^ 32 - d) % 2 ^ 32) (tick_max / 2)

-- The timers before the first one that is not due, and those from it on.
abbrev pub fired : (ℕ → ℕ) → ℕ → List ℕ → List ℕ
fired d tick [] = []
fired d tick (t ∷ ts) = if is_due tick (d t) then t ∷ fired d tick ts else []

abbrev pub left : (ℕ → ℕ) → ℕ → List ℕ → List ℕ
left d tick [] = []
left d tick (t ∷ ts) = if is_due tick (d t) then left d tick ts else t ∷ ts

-- Unlinking timers and running their callbacks, one after the other.
abbrev pub run : (ℕ → Kernel → Kernel) → List ℕ → Kernel → Kernel
run callback [] k = k
run callback (t ∷ ts) k = run callback ts (callback t (timer_remove t k))

-- A callback that neither starts, stops nor changes a timer.
abbrev pub Spares : (Kernel → Kernel) → Type 0
Spares f = (k : Kernel) → ((f k).timers ≡ k.timers) × ((s : ℕ) → (f k).timer s ≡ k.timer s)

pub erase-head : (t : ℕ) (ts : List ℕ) → erase t (t ∷ ts) ≡ ts
erase-head t ts = rw (==_refl t) refl

module _ (callback : ℕ → Kernel → Kernel) (list tick : ℕ) where
  pub check-zero : (k : Kernel) → check 0 callback list tick k ≡ none
  unfolding check
  check-zero k = refl

  -- One round, with the calls left shut.
  pub check-eq :
      (fuel : ℕ) (k : Kernel)
      → check (suc fuel) callback list tick k ≡ (
          if DList.is_empty list k.timers
          then some k
          else if not (is_due tick (due k (k.timers.next list)))
          then some k
          else (rearm fuel
                (k.timers.next list)
                (callback (k.timers.next list) (timer_remove (k.timers.next list) k))
              >>= λ k1. check fuel callback list tick k1))
  unfolding check
  check-eq fuel k = refl

module _ (callback : ℕ → Kernel → Kernel) (spares : (t : ℕ) → Spares (callback t)) (list tick : ℕ)
    (d : ℕ → ℕ) where
  -- What the scan needs of the list that it still has before it.
  pub record Listed (k : Kernel) (ts : List ℕ) : Type 0 where
    pub ring : IsRing k.timers list ts
    pub ticks : (s : ℕ) → due k s ≡ d s
    pub once : (s : ℕ) → mem s ts ≡ true → (k.timer s).periodic ≡ false

  module _ (t : ℕ) (ts : List ℕ) (k : Kernel) (l : Listed k (t ∷ ts)) where
    abbrev step : Kernel
    step = callback t (timer_remove t k)

    step-timer : (s : ℕ) → step.timer s ≡ (timer_remove t k).timer s
    step-timer s = (spares t (timer_remove t k)).1 s

    step-timers : step.timers ≡ DList.remove t k.timers
    unfolding timer_remove
    step-timers = (spares t (timer_remove t k)).0

    step-due : (s : ℕ) → due step s ≡ due k s
    unfolding timer_remove
    step-due s = ground (arith, step-timer s)

    step-periodic : (s : ℕ) → (step.timer s).periodic ≡ (k.timer s).periodic
    unfolding timer_remove
    step-periodic s = ground (arith, step-timer s)

    step-Listed : Listed step ts
    step-Listed = record {
      ring = rw step-timers (
          subst (λ xs. IsRing (DList.remove t k.timers) list xs) (erase-head t ts)
            (remove-IsRing k.timers list t (t ∷ ts) l.ring (ground (arith, ==_refl t))));
      ticks = λ s. step-due s ∙ l.ticks s;
      once = λ s m. step-periodic s ∙ l.once s (ground arith);
    }

    rearm-step : (fuel : ℕ) → rearm fuel t step ≡ some step
    unfolding rearm
    rearm-step fuel = ground (arith, step-periodic t, l.once t, ==_refl t)

  check-nil : (fuel : ℕ) (k : Kernel) → Listed k [] → check (suc fuel) callback list tick k ≡ some k
  unfolding check
  check-nil fuel k l = ground (arith, is_empty-nil k.timers list l.ring)

  check-cons :
      (fuel t : ℕ) (ts : List ℕ) (k : Kernel)
      → Listed k (t ∷ ts)
      → check (suc fuel) callback list tick k ≡ (
          if is_due tick (d t)
          then check fuel callback list tick (callback t (timer_remove t k))
          else some k)
  check-cons fuel t ts k l =
      rw
        (
          check-eq callback list tick fuel k,
          is_empty-cons k.timers list t ts l.ring,
          next-cons k.timers list t ts l.ring,
          l.ticks t,
          rearm-step t ts k l fuel,
        )
        (ground arith)

  check-run :
      (fuel : ℕ) (ts : List ℕ) (k : Kernel)
      → Listed k ts
      → length ts < fuel
      → (check fuel callback list tick k ≡ some (run callback (fired d tick ts) k))
        × Listed (run callback (fired d tick ts) k) (left d tick ts)
  check-run zero ts k l lt = absurd (omega arith)
  check-run (suc fuel) [] k l lt = (check-nil fuel k l, l)
  check-run (suc fuel) (t ∷ ts) k l lt =
      let rest = check-run fuel ts (step t ts k l) (step-Listed t ts k l) (omega arith) in
      elim (Bool-cases (is_due tick (d t))) [
        | inl e ↦ rw (check-cons fuel t ts k l, e) rest
        | inr e ↦ rw (check-cons fuel t ts k l, e) (refl, l)
      ]

fired-left : (d : ℕ → ℕ) (tick : ℕ) (ts : List ℕ) → (fired d tick ts ++ left d tick ts) ≡ ts
fired-left d tick [] = refl
fired-left d tick (t ∷ ts) = ground (arith, fired-left d tick ts)

-- The tick count and the due ticks are those of a time that does not wrap. The test is right for a
-- timer within half the range of the counter.
is_due-time :
    (now due tick d : ℕ)
    → tick ≡ now % 2 ^ 32
    → d ≡ due % 2 ^ 32
    → now < due + (2 ^ 31 - 1)
    → due < now + 2 ^ 31
    → is_due tick d ≡ leb due now
is_due-time now due tick d ht hd behind ahead = ground arith

module _ (d time : ℕ → ℕ) (tick now : ℕ) where
  -- The test agrees with the time for all of a list.
  abbrev pub Agrees : List ℕ → Type 0
  Agrees ts = (s : ℕ) → mem s ts ≡ true → is_due tick (d s) ≡ leb (time s) now

  fired-due : (ts : List ℕ) → Agrees ts → (s : ℕ) → mem s (fired d tick ts) ≡ true → time s ≤ now
  fired-due [] window s m = absurd (ground arith)
  fired-due (t ∷ ts) window s m = elim (Bool-cases (is_due tick (d t))) [
    | inl e ↦
        ground
          (arith, window t, window s, ==_iff s t, fired-due ts (λ a h. window a (ground arith)) s)
    | inr e ↦ absurd (ground arith)
  ]

  left-due :
      (ts : List ℕ)
      → Agrees ts
      → Ascending time ts
      → (s : ℕ) → mem s (left d tick ts) ≡ true
      → now < time s
  left-due [] window a s m = absurd (ground arith)
  left-due (t ∷ ts) window a s m = elim (Bool-cases (is_due tick (d t))) [
    | inl e ↦ ground (arith, left-due ts (λ b h. window b (ground arith)) a.1 s)
    | inr e ↦ ground (arith, window t, a.0 s, ==_iff s t, ==_refl t)
  ]

-- The scan at the time `now` of a list of one-shot timers, in the order of the times at which they
-- are due, whose callbacks leave the timers alone: the counter holds `now` and each timer its time
-- modulo 2 ^ 32, so that either may have wrapped, and each time lies less than 2 ^ 31 - 1 behind
-- `now` or less than 2 ^ 31 ahead of it. With more rounds than there are timers the scan ends. It
-- runs the callbacks of exactly the timers that are due by `now`, each once and in their order, and
-- leaves the others linked.
pub check-fired :
    (callback : ℕ → Kernel → Kernel) (list tick fuel : ℕ) (k : Kernel) (ts : List ℕ) (now : ℕ)
    (time : ℕ → ℕ)
    → ((t : ℕ) → Spares (callback t))
    → IsRing k.timers list ts
    → Ascending time ts
    → ((s : ℕ) → mem s ts ≡ true → (k.timer s).periodic ≡ false)
    → tick ≡ now % 2 ^ 32
    → ((s : ℕ) → mem s ts ≡ true → due k s ≡ time s % 2 ^ 32)
    → ((s : ℕ) → mem s ts ≡ true → now < time s + (2 ^ 31 - 1))
    → ((s : ℕ) → mem s ts ≡ true → time s < now + 2 ^ 31)
    → length ts < fuel
    → let gone = fired (due k) tick ts in
      let later = left (due k) tick ts in
      (gone ++ later ≡ ts)
      × ((s : ℕ) → mem s gone ≡ true → time s ≤ now)
      × ((s : ℕ) → mem s later ≡ true → now < time s)
      × (check fuel callback list tick k ≡ some (run callback gone k))
      × IsRing (run callback gone k).timers list later
check-fired callback list tick fuel k ts now time spares ring a once ht hd behind ahead lt =
    let l : Listed callback spares list tick (due k) k ts = record {
      ring = ring;
      ticks = λ s. refl;
      once = once;
    } in
    let r = check-run callback spares list tick (due k) fuel ts k l lt in
    let agrees : Agrees (due k) time tick now ts =
      λ s m. is_due-time now (time s) tick (due k s) ht (hd s m) (behind s m) (ahead s m) in
    (
      fired-left (due k) tick ts,
      fired-due (due k) time tick now ts agrees,
      left-due (due k) time tick now ts agrees a,
      r.0,
      r.1.ring,
    )
