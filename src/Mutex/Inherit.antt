-- ===== src/Mutex/Inherit.antt =====
-- The priority that a task gets back when it gives up a mutex.
use micro_rt_kernel.Prelude.{
  ℕ, zero, suc, ◌+◌, ◌≤◌, ◌<◌, ◌≡◌, refl, ◌∙◌, true, false, some, List, [], ◌∷◌, arith, ◌==◌, ltb,
  if◌then◌else◌, ==_refl, ==_iff, sym, length, mem,
}
use micro_rt_kernel.DList.Seg.{Seg}
use micro_rt_kernel.DList.Ring.{IsRing}
use micro_rt_kernel.Kernel.{Kernel}
use micro_rt_kernel.Mutex.{scan_waiters, scan_held, find_highest_inherited_prio}

-- The priority of the last task of the list that passes the comparison, or `acc`.
abbrev pub last_passing : (ℕ → ℕ) → Kernel → List ℕ → ℕ → ℕ
last_passing stray k [] acc = acc
last_passing stray k (t ∷ ts) acc =
    last_passing stray k ts (if ltb (k.tcb t).priority (stray t) then (k.tcb t).priority else acc)

abbrev pub last_of_held : (ℕ → ℕ) → Kernel → (ℕ → List ℕ) → List ℕ → ℕ → ℕ
last_of_held stray k waiters [] acc = acc
last_of_held stray k waiters (m ∷ ms) acc =
    last_of_held stray k waiters ms (last_passing stray k (waiters m) acc)

module _ (stray : ℕ → ℕ) (k : Kernel) where
  scan_waiters-last :
      (fuel mutex p cur acc : ℕ) (ts : List ℕ)
      → Seg k.sched p ts mutex
      → k.sched.next p ≡ cur
      → mem mutex ts ≡ false
      → length ts < fuel
      → scan_waiters fuel stray mutex cur acc k ≡ some (last_passing stray k ts acc)
  unfolding scan_waiters
  scan_waiters-last zero mutex p cur acc ts s e out lt = absurd (omega arith)
  scan_waiters-last (suc fuel) mutex p cur acc [] s e out lt = ground arith
  scan_waiters-last (suc fuel) mutex p cur acc (t ∷ ts) s e out lt = ground (
    arith,
    scan_waiters-last fuel mutex t (k.sched.next t)
        (if ltb (k.tcb t).priority (stray t) then (k.tcb t).priority else acc) ts s.2,
  )

  module _ (waiters : ℕ → List ℕ) (bound : ℕ) where
    scan_held-last :
        (fuel task p cur acc : ℕ) (ms : List ℕ)
        → Seg k.held p ms task
        → k.held.next p ≡ cur
        → mem task ms ≡ false
        → ((m : ℕ) → mem m ms ≡ true → IsRing k.sched m (waiters m))
        → ((m : ℕ) → mem m ms ≡ true → length (waiters m) ≤ bound)
        → length ms + bound < fuel
        → scan_held fuel stray task cur acc k ≡ some (last_of_held stray k waiters ms acc)
    unfolding scan_held
    scan_held-last zero task p cur acc ms s e out rings short lt = absurd (omega arith)
    scan_held-last (suc fuel) task p cur acc [] s e out rings short lt = ground arith
    scan_held-last (suc fuel) task p cur acc (m ∷ ms) s e out rings short lt =
        let r = rings m (ground (arith, ==_refl m)) in
        let few : length (waiters m) ≤ bound = short m (ground (arith, ==_refl m)) in
        let inner =
          scan_waiters-last fuel m m (k.sched.next m) acc (waiters m) r.links refl r.fresh
            (omega arith) in
        let rest =
          scan_held-last fuel task m (k.held.next m) (last_passing stray k (waiters m) acc) ms s.2
            refl (ground arith) (λ x h. rings x (ground arith)) (λ x h. short x (ground arith))
            (omega arith) in
        let go : (m == task) ≡ false = ground (arith, ==_iff m task) in
        rw (sym e ∙ s.0, go, inner) rest

    -- The search for the priority to give back always ends. Its result is the priority of the last
    -- task, along the mutexes held and along their waiting lists, that is higher than the byte with
    -- which it is compared, or the task's own priority if there is none.
    pub find_highest_inherited_prio-last :
        (fuel task : ℕ) (ms : List ℕ)
        → IsRing k.held task ms
        → ((m : ℕ) → mem m ms ≡ true → IsRing k.sched m (waiters m))
        → ((m : ℕ) → mem m ms ≡ true → length (waiters m) ≤ bound)
        → length ms + bound < fuel
        → find_highest_inherited_prio fuel stray task k
          ≡ some (last_of_held stray k waiters ms (k.tcb task).orig_prio)
    unfolding find_highest_inherited_prio
    find_highest_inherited_prio-last fuel task ms ring rings short lt =
        scan_held-last fuel task task (k.held.next task) (k.tcb task).orig_prio ms ring.links refl
          ring.fresh rings short lt
