-- ===== src/Timer/Insert.antt =====
-- `_mrtk_timer_insert`, `mrtk_timer_start` and `mrtk_timer_stop` on a well-formed timer list.
use micro_rt_kernel.Prelude.{
  ℕ, ◌≤◌, ◌<◌, ◌≡◌, sym, ◌≢◌, inl, inr, Bool, true, false, not, ◌||◌, some, List, [], ◌∷◌, arith,
  ◌==◌, ltb, Bool-cases, ==_refl, ==_iff, length, mem,
}
use micro_rt_kernel.DList
use micro_rt_kernel.DList.Seg.{first, place, mem-place}
use micro_rt_kernel.DList.Ring.{IsRing, place-IsRing}
use micro_rt_kernel.DList.Walk.{search_node-first}
use micro_rt_kernel.Kernel.{Kernel}
use micro_rt_kernel.Timer.{target_list, insert_at, timer_insert}

-- The list is in ascending order of the ticks at which its timers are due.
abbrev pub Ascending : (ℕ → ℕ) → List ℕ → Type 0
Ascending due [] = Unit
Ascending due (t ∷ ts) = ((s : ℕ) → mem s ts ≡ true → due t ≤ due s) × Ascending due ts

abbrev pub due : Kernel → ℕ → ℕ
due k t = (k.timer t).timeout_tick

abbrev pub later : Kernel → ℕ → ℕ → Bool
later k t s = ltb (due k t) (due k s)

-- Whether a timer of the list is due later than `t`.
abbrev pub any_later : Kernel → ℕ → List ℕ → Bool
any_later k t [] = false
any_later k t (s ∷ ts) = later k t s || any_later k t ts

place-Ascending :
    (f : ℕ → ℕ) (t : ℕ) (ts : List ℕ)
    → Ascending f ts
    → Ascending f (place (λ s. ltb (f t) (f s)) t ts)
place-Ascending f t [] a = (λ s m. absurd (ground arith), tt)
place-Ascending f t (x ∷ ts) a = elim (Bool-cases (ltb (f t) (f x))) [
  | inl e ↦ rw e ((λ s m. ground (arith, a.0 s)), a)
  | inr e ↦ rw e (
    (λ s m. ground (arith, a.0 s, mem-place (λ s. ltb (f t) (f s)) s t ts)),
    place-Ascending f t ts a.1,
  )
]

first-head :
    (k : Kernel) (t : ℕ) (ts : List ℕ) (list : ℕ)
    → mem list ts ≡ false
    → (first (later k t) ts list == list) ≡ not (any_later k t ts)
first-head k t [] list out = ==_refl list
first-head k t (x ∷ ts) list out = ground (arith, first-head k t ts list)

-- The Ascending order depends on the due ticks alone.
Ascending-congr :
    (f g : ℕ → ℕ) (ts : List ℕ) → ((s : ℕ) → f s ≡ g s) → Ascending f ts → Ascending g ts
Ascending-congr f g [] e a = tt
Ascending-congr f g (t ∷ ts) e a =
    ((λ s m. ground (arith, a.0 s, e s, e t)), Ascending-congr f g ts e a.1)

module _ (t : ℕ) (k : Kernel) (ts : List ℕ) (ring : IsRing k.timers (target_list (k.timer t)) ts)
    (ne : t ≢ target_list (k.timer t)) (out : mem t ts ≡ false) where
  abbrev pub inserted : Kernel
  inserted = insert_at (first (later k t) ts (target_list (k.timer t))) t k

  pub timer_insert-eq : (fuel : ℕ) → length ts < fuel → timer_insert fuel t k ≡ some inserted
  unfolding timer_insert
  timer_insert-eq fuel lt =
      rw (search_node-first k.timers (target_list (k.timer t)) (later k t) fuel ts ring lt)

  position :
      (first (later k t) ts (target_list (k.timer t)) == target_list (k.timer t))
      ≡ not (any_later k t ts)
  position = first-head k t ts (target_list (k.timer t)) ring.fresh

  pub inserted-timers :
      inserted.timers
      ≡ DList.insert_before (first (later k t) ts (target_list (k.timer t))) t k.timers
  inserted-timers =
      ground
        (arith, ==_iff (first (later k t) ts (target_list (k.timer t))) (target_list (k.timer t)))

  pub inserted-activated :
      (inserted.timer t).activated ≡ ((k.timer t).activated || not (any_later k t ts))
  inserted-activated = ground (arith, position)

  due-inserted : (s : ℕ) → due inserted s ≡ due k s
  due-inserted s = ground arith

  -- A timer is linked in front of the first timer that is due later; a list in ascending order
  -- stays so. The timer is marked as active only if it ends up last: in front of another one its
  -- mark stays what it was.
  pub timer_insert-place :
      (fuel : ℕ)
      → length ts < fuel
      → Ascending (due k) ts
      → (k' : Kernel) × (timer_insert fuel t k ≡ some k')
        × IsRing k'.timers (target_list (k.timer t)) (place (later k t) t ts)
        × Ascending (due k') (place (later k t) t ts)
        × ((k'.timer t).activated ≡ ((k.timer t).activated || not (any_later k t ts)))
  timer_insert-place fuel lt a = (
    inserted,
    timer_insert-eq fuel lt,
    rw inserted-timers
        (place-IsRing k.timers (target_list (k.timer t)) (later k t) t ts ring ne out),
    Ascending-congr (due k) (due inserted) (place (later k t) t ts) (λ s. sym (due-inserted s))
        (place-Ascending (due k) t ts a),
    inserted-activated,
  )
