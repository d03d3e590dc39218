-- ===== src/Timer/Stop.antt =====
-- `mrtk_timer_start` followed by `mrtk_timer_stop`: when the stop undoes the start, and when not.
use micro_rt_kernel.Prelude.{
  ℕ, ◌+◌, ◌^◌, ◌%◌, ◌<◌, ◌≡◌, sym, ◌∙◌, ◌≢◌, inl, inr, Bool, true, false, not, some, List, [], ◌∷◌,
  arith, Bool-cases, ==_refl, length, mem, erase,
}
use mathlib.Core.Path.{subst}
use micro_rt_kernel.DList
use micro_rt_kernel.DList.Seg.{place, mem-place}
use micro_rt_kernel.DList.Ring.{IsRing, place-IsRing, remove-IsRing}
use micro_rt_kernel.Kernel.{Kernel, eok, error, null, set_timer}
use micro_rt_kernel.Timer.{waiting_forever, target_list, timer_remove, timer_start, timer_stop}
use micro_rt_kernel.Timer.Insert.{
  later, any_later, inserted, timer_insert-eq, inserted-timers, inserted-activated,
}

-- The due tick that a start computes, and its effect on the timer.
abbrev pub timed : ℕ → Kernel → Kernel
timed t k =
    set_timer t (record (k.timer t) { timeout_tick = (k.tick + (k.timer t).init_tick) % 2 ^ 32 }) k

erase-place :
    (test : ℕ → Bool) (t : ℕ) (ts : List ℕ) → mem t ts ≡ false → erase t (place test t ts) ≡ ts
erase-place test t [] out = ground (arith, ==_refl t)
erase-place test t (x ∷ ts) out = elim (Bool-cases (test x)) [
  | inl e ↦ rw e (ground (arith, ==_refl t))
  | inr e ↦ rw e (ground (arith, erase-place test t ts))
]

module _ (t : ℕ) (k : Kernel) (ts : List ℕ) (ring : IsRing k.timers (target_list (k.timer t)) ts)
    (ne : t ≢ target_list (k.timer t)) (out : mem t ts ≡ false) (object : t ≢ null)
    (idle : (k.timer t).activated ≡ false) (finite : (k.timer t).init_tick ≢ waiting_forever) where
  abbrev home : ℕ
  home = target_list (k.timer t)

  same_list : target_list ((timed t k).timer t) ≡ home
  same_list = ground (arith, ==_refl t)

  timed-IsRing : IsRing (timed t k).timers (target_list ((timed t k).timer t)) ts
  timed-IsRing = subst (λ p. IsRing k.timers p ts) (sym same_list) ring

  timed_ne : t ≢ target_list ((timed t k).timer t)
  timed_ne e = ne (e ∙ same_list)

  abbrev started : Kernel
  started = inserted t (timed t k) ts timed-IsRing timed_ne out

  timer_start-started : (fuel : ℕ) → length ts < fuel → timer_start fuel t k ≡ some (eok, started)
  unfolding timer_start
  timer_start-started fuel lt =
      ground (arith, timer_insert-eq t (timed t k) ts timed-IsRing timed_ne out fuel lt)

  started-IsRing : IsRing started.timers home (place (later (timed t k) t) t ts)
  started-IsRing =
      rw (inserted-timers t (timed t k) ts timed-IsRing timed_ne out, same_list)
        (place-IsRing k.timers home (later (timed t k) t) t ts ring ne out)

  started-activated : (started.timer t).activated ≡ not (any_later (timed t k) t ts)
  started-activated =
      ground (arith, inserted-activated t (timed t k) ts timed-IsRing timed_ne out, ==_refl t)

  -- A timer that is started while the list holds one that is due later is linked, but it cannot be
  -- stopped: `mrtk_timer_stop` reports an error and leaves the state, the linked timer included, as
  -- it is.
  pub timer_stop-before :
      (fuel : ℕ)
      → length ts < fuel
      → any_later (timed t k) t ts ≡ true
      → (k1 : Kernel) × (timer_start fuel t k ≡ some (eok, k1))
        × IsRing k1.timers home (place (later (timed t k) t) t ts)
        × (timer_stop t k1 ≡ (error, k1))
  unfolding timer_stop
  timer_stop-before fuel lt before =
      (started, timer_start-started fuel lt, started-IsRing, ground (arith, started-activated))

  removed : IsRing (timer_remove t started).timers home ts
  unfolding timer_remove
  removed =
      subst (λ xs. IsRing (DList.remove t started.timers) home xs)
        (erase-place (later (timed t k) t) t ts out)
        (remove-IsRing started.timers home t (place (later (timed t k) t) t ts) started-IsRing
          (ground (arith, mem-place (later (timed t k) t) t t ts, ==_refl t)))

  -- A timer that is started while the list holds none that is due later is linked last, and
  -- `mrtk_timer_stop` undoes this: it succeeds, the list is what it was, and the timer is inactive.
  pub timer_stop-last :
      (fuel : ℕ)
      → length ts < fuel
      → any_later (timed t k) t ts ≡ false
      → (k1 k2 : Kernel) × (timer_start fuel t k ≡ some (eok, k1))
        × IsRing k1.timers home (place (later (timed t k) t) t ts)
        × (timer_stop t k1 ≡ (eok, k2))
        × IsRing k2.timers home ts
        × ((k2.timer t).activated ≡ false)
  unfolding timer_stop
  timer_stop-last fuel lt last = (
    started,
    timer_remove t started,
    timer_start-started fuel lt,
    started-IsRing,
    ground (arith, started-activated),
    removed,
    ground (arith, ==_refl t),
  )
