-- ===== src/Timer/Endless.antt =====
-- A periodic timer with a period of no ticks: the loop of the scan never ends.
use micro_rt_kernel.Prelude.{
  ℕ, zero, suc, ◌+◌, ◌^◌, ◌%◌, ◌<◌, ◌≡◌, refl, sym, ◌∙◌, ◌≢◌, Bool, true, false, Option, none, some,
  [], ◌∷◌, arith, if◌then◌else◌, ==_refl,
}
use mathlib.Core.Path.{subst}
use micro_rt_kernel.DList
use micro_rt_kernel.DList.{Links}
use micro_rt_kernel.DList.Ring.{IsRing, remove-IsRing, is_empty-cons, next-cons, place-IsRing}
use micro_rt_kernel.DList.Walk.{search_node-zero}
use micro_rt_kernel.Kernel.{Kernel, set_timer}
use micro_rt_kernel.Timer.{target_list, timer_insert, timer_remove, rearm, check}
use micro_rt_kernel.Timer.Insert.{due, inserted, timer_insert-eq, inserted-timers}
use micro_rt_kernel.Timer.Scan.{Spares, is_due, erase-head, check-eq, check-zero}

if_true : (b : Bool) (x y : Option Kernel) → b ≡ true → (if b then x else y) ≡ x
if_true b x y e = rw e refl

module _ (callback : ℕ → Kernel → Kernel) (t list tick d : ℕ) (spares : Spares (callback t))
    (ne : t ≢ list) (now : is_due tick d ≡ true) (range : d < 2 ^ 32) where
  -- The list holds the timer alone, which is due, periodic, and has no ticks between two rounds.
  pub record Alone (k : Kernel) : Type 0 where
    pub ring : IsRing k.timers list (t ∷ [])
    pub home : target_list (k.timer t) ≡ list
    pub ticks : due k t ≡ d
    pub again : (k.timer t).periodic ≡ true
    pub period : (k.timer t).init_tick ≡ 0

  module _ (k : Kernel) (a : Alone k) where
    abbrev step : Kernel
    step = callback t (timer_remove t k)

    step-home : target_list (step.timer t) ≡ list
    unfolding timer_remove
    step-home = ground (arith, (spares (timer_remove t k)).1 t, a.home, ==_refl t)

    removed-timers : (timer_remove t k).timers ≡ DList.remove t k.timers
    unfolding timer_remove
    removed-timers = refl

    step-IsRing : IsRing step.timers list []
    step-IsRing =
        rw ((spares (timer_remove t k)).0, removed-timers)
          (subst (λ xs. IsRing (DList.remove t k.timers) list xs) (erase-head t [])
            (remove-IsRing k.timers list t (t ∷ []) a.ring (ground (arith, ==_refl t))))

    step-fields :
        (due step t ≡ d) × ((step.timer t).periodic ≡ true) × ((step.timer t).init_tick ≡ 0)
    unfolding timer_remove
    step-fields =
        ground (arith, (spares (timer_remove t k)).1 t, a.ticks, a.again, a.period, ==_refl t)

    abbrev again : Kernel
    again =
        set_timer t
          (record (step.timer t) {
            timeout_tick = (due step t + (step.timer t).init_tick) % 2 ^ 32;
          })
          step

    again-home : target_list (again.timer t) ≡ list
    again-home = ground (arith, step-home, ==_refl t)

    again-IsRing : IsRing again.timers (target_list (again.timer t)) []
    again-IsRing = subst (λ p. IsRing step.timers p []) (sym again-home) step-IsRing

    again-ne : t ≢ target_list (again.timer t)
    again-ne e = ne (e ∙ again-home)

    abbrev back : Kernel
    back = inserted t again [] again-IsRing again-ne refl

    back-Alone : Alone back
    back-Alone = record {
      ring =
          rw (inserted-timers t again [] again-IsRing again-ne refl, again-home)
            (place-IsRing step.timers list (λ _. false) t [] step-IsRing ne refl);
      home = ground (arith, again-home, ==_refl t);
      ticks = ground (arith, step-fields, ==_refl t);
      again = ground (arith, step-fields, ==_refl t);
      period = ground (arith, step-fields, ==_refl t);
    }

    rearm-back : (fuel : ℕ) → rearm (suc fuel) t step ≡ some back
    unfolding rearm
    rearm-back fuel =
        if_true (step.timer t).periodic (timer_insert (suc fuel) t again) (some step) step-fields.1
        ∙ timer_insert-eq t again [] again-IsRing again-ne refl (suc fuel) (omega arith)

    rearm-none : rearm 0 t step ≡ none
    unfolding rearm
    rearm-none = rw (step-fields.1, search_node-zero) refl

  check-again :
      (fuel : ℕ) (k : Kernel) (a : Alone k)
      → check (suc (suc fuel)) callback list tick k ≡ check (suc fuel) callback list tick (back k a)
  check-again fuel k a =
      rw
        (
          check-eq callback list tick (suc fuel) k,
          is_empty-cons k.timers list t [] a.ring,
          next-cons k.timers list t [] a.ring,
          a.ticks,
          now,
          rearm-back k a fuel,
        )
        refl

  check-once : (k : Kernel) (a : Alone k) → check 1 callback list tick k ≡ none
  check-once k a =
      rw
        (
          check-eq callback list tick 0 k,
          is_empty-cons k.timers list t [] a.ring,
          next-cons k.timers list t [] a.ring,
          a.ticks,
          now,
          rearm-none k a,
        )
        refl

  -- A list that holds one timer alone, which is due, is periodic with a period of no ticks, and has a
  -- callback that neither starts, stops nor changes a timer: the scan runs on for ever, for however
  -- many rounds are allowed, the loop has not ended.
  pub check-none : (fuel : ℕ) (k : Kernel) → Alone k → check fuel callback list tick k ≡ none
  check-none zero k a = check-zero callback list tick k
  check-none (suc zero) k a = check-once k a
  check-none (suc (suc fuel)) k a =
      check-again fuel k a ∙ check-none (suc fuel) (back k a) (back-Alone k a)
