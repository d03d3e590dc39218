-- ===== src/Mutex/Nest.antt =====
-- A mutex that its owner takes more than once.
use micro_rt_kernel.Prelude.{
  ℕ, ◌+◌, ◌%◌, ◌<◌, ◌≡◌, refl, ◌≢◌, true, false, not, ◌&&◌, ◌||◌, some, arith, ◌==◌, ltb, ==_of_ne,
  ==_refl, ==_iff,
}
use micro_rt_kernel.Kernel.{Kernel, eok, null, set_mutex}
use micro_rt_kernel.Blocking.{returned}
use micro_rt_kernel.Mutex.{take, release}

module _ (mutex : ℕ) (k : Kernel) where
  abbrev taken : Kernel
  taken = set_mutex mutex (record (k.mutex mutex) { nest = ((k.mutex mutex).nest + 1) % 256 }) k

  abbrev released : Kernel
  released =
      set_mutex mutex (record (taken.mutex mutex) { nest = ((taken.mutex mutex).nest + 255) % 256 })
        taken

  taken-mutex :
      taken.mutex mutex ≡ record (k.mutex mutex) { nest = ((k.mutex mutex).nest + 1) % 256 }
  taken-mutex = rw (==_refl mutex) refl

  released-mutex :
      released.mutex mutex
      ≡ record (taken.mutex mutex) { nest = ((taken.mutex mutex).nest + 255) % 256 }
  released-mutex = rw (==_refl mutex) refl

  take-taken :
      (fuel timeout : ℕ)
      → mutex ≢ null
      → k.interrupt_nest ≡ 0
      → k.current ≡ (k.mutex mutex).owner_task
      → take fuel mutex timeout k ≡ some (returned eok, taken)
  unfolding take
  take-taken fuel timeout ne calm own =
      let guard : (not (timeout == 0) && not (k.interrupt_nest == 0)) ≡ false = ground arith in
      let mine : (k.current == (k.mutex mutex).owner_task) ≡ true =
        ground (arith, ==_iff k.current (k.mutex mutex).owner_task) in
      rw (==_of_ne mutex 0 ne, guard, mine) refl

  release-released :
      (fuel : ℕ) (stray : ℕ → ℕ)
      → mutex ≢ null
      → k.current ≢ null
      → k.interrupt_nest ≡ 0
      → k.current ≡ (k.mutex mutex).owner_task
      → 0 < (k.mutex mutex).nest
      → (k.mutex mutex).nest < 255
      → release fuel stray mutex taken ≡ some (eok, released)
  unfolding release
  release-released fuel stray ne here calm own low high =
      let guard : (k.interrupt_nest == 0) ≡ true = ground arith in
      let mine : ((k.current == null) || not (k.current == (taken.mutex mutex).owner_task))
          ≡ false =
        ground (arith, taken-mutex) in
      let left : ltb 0 (((taken.mutex mutex).nest + 255) % 256) ≡ true =
        ground (arith, taken-mutex) in
      rw (==_of_ne mutex 0 ne, guard, mine, left) refl

-- A task that holds a mutex takes it again and releases it again: both calls succeed at once, the
-- count of the takes goes up and down by one, and the task still holds the mutex. The count must
-- not be at its maximum of 255.
pub release-take :
    (fuel timeout mutex : ℕ) (stray : ℕ → ℕ) (k : Kernel)
    → mutex ≢ null
    → k.current ≢ null
    → k.interrupt_nest ≡ 0
    → k.current ≡ (k.mutex mutex).owner_task
    → 0 < (k.mutex mutex).nest
    → (k.mutex mutex).nest < 255
    → (k1 : Kernel) × (k2 : Kernel) × (take fuel mutex timeout k ≡ some (returned eok, k1))
      × ((k1.mutex mutex).nest ≡ (k.mutex mutex).nest + 1)
      × (release fuel stray mutex k1 ≡ some (eok, k2))
      × ((k2.mutex mutex).nest ≡ (k.mutex mutex).nest)
      × ((k2.mutex mutex).owner_task ≡ k.current)
release-take fuel timeout mutex stray k ne here calm own low high = (
  taken mutex k,
  released mutex k,
  take-taken mutex k fuel timeout ne calm own,
  ground (arith, taken-mutex mutex k),
  release-released mutex k fuel stray ne here calm own low high,
  ground (arith, taken-mutex mutex k, released-mutex mutex k),
  ground (arith, taken-mutex mutex k, released-mutex mutex k),
)
