-- ===== src/Examples.antt =====
-- A kernel with two ready tasks, a waiting one, timers, objects and a mutex, on which the theorems
-- are applied: tasks 100 and 102 are ready at level 5, task 104 of level 3 waits at object 200, timers
-- 300 and 301 are due at the ticks 10 and 20, and task 100 runs and holds mutex 500.
mod Queues
mod Waiting
mod Timers
mod Buffers
mod Memory
mod Messages
mod Creation
mod Tasks
mod Events
mod Machines
mod Sleepers
mod Ports
use micro_rt_kernel.Prelude.{
  ℕ, ◌+◌, ◌^◌, ◌<◌, ◌≤◌, ◌≡◌, refl, ◌≢◌, inl, inr, Bool, true, false, not, List, [], ◌∷◌, arith,
  ◌==◌, if◌then◌else◌, Bool-cases, ==_iff, mem,
}
use micro_rt_kernel.Prelude.Bits.{test_bit, test_bit-pow}
use micro_rt_kernel.DList.{Links}
use micro_rt_kernel.DList.Ring.{IsRing}
use micro_rt_kernel.Kernel.{
  Kernel, Tcb, Timer, Mutex, ready, running, suspend, eok, null, ready_list, prio_levels,
}
use micro_rt_kernel.Sched.Queues.{QueuesOk, nonempty}
use micro_rt_kernel.Ipc.Wait.{WaitOk}

abbrev task_of : ℕ → Tcb
task_of prio = record {
  priority = prio;
  state = ready;
  init_tick = 10;
  remain_tick = 1;
  orig_prio = prio;
  last_error = eok;
  is_dynamic = false;
  event_set = 0;
  event_option = 0;
  event_recved = null;
  cleanup_handler = null;
}

abbrev timer_of : ℕ → ℕ → Bool → Timer
timer_of due init_tick on = record {
  init_tick = init_tick;
  timeout_tick = due;
  activated = on;
  periodic = false;
  soft = false;
}

abbrev sched_links : Links
sched_links = record {
  next = λ a.
      if a == 6
      then 100
      else if a == 100
      then 102
      else if a == 102
      then 6
      else if a == 200
      then 104
      else if a == 104
      then 200
      else a;
  prev = λ a.
      if a == 6
      then 102
      else if a == 102
      then 100
      else if a == 100
      then 6
      else if a == 200
      then 104
      else if a == 104
      then 200
      else a;
}

abbrev timer_links : Links
timer_links = record {
  next = λ a. if a == 1 then 300 else if a == 300 then 301 else if a == 301 then 1 else a;
  prev = λ a. if a == 1 then 301 else if a == 301 then 300 else if a == 300 then 1 else a;
}

-- A list with one member
abbrev pair_links : ℕ → ℕ → Links
pair_links head node = record {
  next = λ a. if a == head then node else if a == node then head else a;
  prev = λ a. if a == head then node else if a == node then head else a;
}

abbrev busy : Kernel
busy = record {
  sched = sched_links;
  timers = timer_links;
  objs = pair_links 1 400;
  held = pair_links 100 500;
  tcb = λ t. if t == 104 then task_of 3 else task_of 5;
  timer = λ t.
      if t == 300
      then timer_of 10 5 true
      else if t == 301
      then timer_of 20 15 true
      else if t == 302
      then timer_of 0 3 false
      else timer_of 0 50 false;
  mutex = λ m. record {
    value = 1;
    orig_prio = 5;
    nest = 2;
    owner_task = 100;
    flag = 0;
    is_dynamic = false;
  };
  ready_prio_bitmap = 32;
  current = 100;
  next = 100;
  lock_nest = 0;
  need_schedule = false;
  interrupt_nest = 0;
  started = true;
  tick = 15;
  pended = false;
}

abbrev queues : ℕ → List ℕ
queues p = if p == 5 then 100 ∷ 102 ∷ [] else []

busy-QueuesOk : QueuesOk busy queues
busy-QueuesOk = record {
  ring = λ p h. elim (Bool-cases (p == 5)) [
    | inl e ↦
        let five : p ≡ 5 = (==_iff p 5).0 e in
        rw five record {
          links = (refl, refl, (refl, refl, (refl, refl)));
          fresh = refl;
          distinct = (refl, (refl, tt));
        }
    | inr e ↦ rw e record { links = ground arith; fresh = refl; distinct = tt }
  ];
  prio = λ p t h m. ground arith;
  object = λ p t h m. ground arith;
  bits = λ p h. ground (arith, test_bit-pow 5 p);
  small = omega arith;
}

busy-WaitOk : WaitOk busy queues 200 (104 ∷ [])
busy-WaitOk = record {
  ring = record { links = (refl, refl, (refl, refl)); fresh = refl; distinct = (refl, tt) };
  head = omega arith;
  object = λ t m. ground arith;
  level = λ t m. ground arith;
  blocked = λ p t h m. ground arith;
  no_task = λ p h. ground arith;
}

idle-WaitOk : WaitOk busy queues 201 []
idle-WaitOk = record {
  ring = record { links = (refl, refl); fresh = refl; distinct = tt };
  head = omega arith;
  object = λ t m. ground arith;
  level = λ t m. ground arith;
  blocked = λ p t h m. ground arith;
  no_task = λ p h. ground arith;
}

timers-IsRing : IsRing busy.timers 1 (300 ∷ 301 ∷ [])
timers-IsRing = record {
  links = (refl, refl, (refl, refl, (refl, refl)));
  fresh = refl;
  distinct = (refl, (refl, tt));
}
