-- ===== src/Examples/Timers.antt =====
-- The theorems on timers, applied to concrete states.
use micro_rt_kernel.Prelude.{
  ℕ, ◌+◌, ◌^◌, ◌<◌, ◌≤◌, ◌≡◌, refl, true, false, none, some, List, [], ◌∷◌, ◌++◌, arith, mem,
}
use micro_rt_kernel.DList.Ring.{IsRing}
use micro_rt_kernel.Kernel.{Kernel, Timer, eok, error}
use micro_rt_kernel.Timer.{timer_insert, timer_start, timer_stop, check}
use micro_rt_kernel.Timer.Insert.{Ascending, due, timer_insert-place}
use micro_rt_kernel.Timer.Stop.{timer_stop-before}
use micro_rt_kernel.Timer.Scan.{run, check-fired}
use micro_rt_kernel.Timer.Endless.{check-none}
use micro_rt_kernel.Examples.{busy, pair_links, timers-IsRing}

both-Ascending : Ascending (due busy) (300 ∷ 301 ∷ [])
both-Ascending = ((λ s m. ground arith), ((λ s m. absurd (ground arith)), tt))

times-Ascending : Ascending (λ s. due busy s + 2 ^ 32) (300 ∷ 301 ∷ [])
times-Ascending = ((λ s m. ground arith), ((λ s m. absurd (ground arith)), tt))

timer_insert-place_example :
    (k' : Kernel) × (timer_insert 3 303 busy ≡ some k')
    × IsRing k'.timers 1 (303 ∷ 300 ∷ 301 ∷ [])
    × Ascending (due k') (303 ∷ 300 ∷ 301 ∷ [])
    × ((k'.timer 303).activated ≡ false)
timer_insert-place_example =
    timer_insert-place 303 busy (300 ∷ 301 ∷ []) timers-IsRing (λ e. absurd (omega arith)) refl 3
      (omega arith) both-Ascending

timer_stop-before_example :
    (k1 : Kernel) × (timer_start 3 302 busy ≡ some (eok, k1))
    × IsRing k1.timers 1 (300 ∷ 302 ∷ 301 ∷ [])
    × (timer_stop 302 k1 ≡ (error, k1))
timer_stop-before_example =
    timer_stop-before 302 busy (300 ∷ 301 ∷ []) timers-IsRing (λ e. absurd (omega arith)) refl
      (λ e. absurd (omega arith)) refl (λ e. absurd (omega arith)) 3 (omega arith) refl

-- A callback that asks for a reschedule, as one that wakes a task may do.
abbrev note : ℕ → Kernel → Kernel
note t k = record k { need_schedule = true }

-- The counter has wrapped: the time is 2 ^ 32 + 15.
check-fired_example :
    let gone : List ℕ = 300 ∷ [] in
    let later : List ℕ = 301 ∷ [] in
    (gone ++ later ≡ 300 ∷ 301 ∷ [])
    × ((s : ℕ) → mem s gone ≡ true → due busy s + 2 ^ 32 ≤ 2 ^ 32 + 15)
    × ((s : ℕ) → mem s later ≡ true → 2 ^ 32 + 15 < due busy s + 2 ^ 32)
    × (check 3 note 1 15 busy ≡ some (run note gone busy))
    × IsRing (run note gone busy).timers 1 later
check-fired_example =
    check-fired note 1 15 3 busy (300 ∷ 301 ∷ []) (2 ^ 32 + 15) (λ s. due busy s + 2 ^ 32)
      (λ t k. (refl, λ s. refl)) timers-IsRing times-Ascending (λ s m. ground arith) (omega arith)
      (λ s m. ground arith) (λ s m. ground arith) (λ s m. ground arith) (omega arith)

abbrev endless : Timer
endless = record {
  init_tick = 0;
  timeout_tick = 10;
  activated = true;
  periodic = true;
  soft = false;
}

abbrev ticking : Kernel
ticking = record busy { timers = pair_links 1 300; timer = λ t. endless }

check-none_example : check 1000 note 1 15 ticking ≡ none
check-none_example =
    check-none note 300 1 15 10 (λ k. (refl, λ s. refl)) (λ e. absurd (omega arith)) refl
      (omega arith) 1000 ticking
      record {
        ring = record { links = (refl, refl, (refl, refl)); fresh = refl; distinct = (refl, tt) };
        home = refl;
        ticks = refl;
        again = refl;
        period = refl;
      }
