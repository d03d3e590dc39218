-- ===== src/Obj/Twice.antt =====
-- `mrtk_task_init` links the object of a task twice: `_mrtk_obj_init` puts it at the front of the
-- list of tasks, and the end of the function puts it at the back again.
use micro_rt_kernel.Prelude.{
  ℕ, ◌∙◌, suc, ◌≤◌, ◌<◌, ◌≡◌, refl, ◌≢◌, true, false, some, List, ◌∷◌, arith, ◌==◌, ltb, ◌||◌, not,
  mem, ==_refl,
}
use micro_rt_kernel.DList.{Links, insert_after, insert_before, len}
use micro_rt_kernel.DList.Seg
use micro_rt_kernel.DList.Ring.{IsRing}
use micro_rt_kernel.Kernel.{Kernel, eok, null, first_object, prio_levels, task_timer}
use micro_rt_kernel.Obj
use micro_rt_kernel.Obj.{obj_list, obj_init}
use micro_rt_kernel.Timer.{timer_init}
use micro_rt_kernel.Task.{task_init}

module _ (n m : ℕ) (l : Links) where
  after-next : (insert_after n m l).next n ≡ m
  unfolding insert_after
  after-next = ground (arith, ==_refl n)

  after-own : n ≢ m → (insert_after n m l).next m ≡ l.next n
  unfolding insert_after
  after-own ne = ground (arith, ==_refl m)

  after-other : (a : ℕ) → a ≢ n → a ≢ m → (insert_after n m l).next a ≡ l.next a
  unfolding insert_after
  after-other a h h' = ground arith

  after-prev : (a : ℕ) → n ≢ m → a ≢ m → a ≢ l.next n → (insert_after n m l).prev a ≡ l.prev a
  unfolding insert_after
  after-prev a ne h h' = ground (arith, ==_refl m)

-- The node is put at the front of the list at `head`, which begins with `x`; another node is put at
-- the front of another list; and the first node is put at the back.
module _ (l : Links) (head node other timer x : ℕ) (xs : List ℕ) (r : IsRing l head (x ∷ xs))
    (ne : node ≢ head) (out : mem node (x ∷ xs) ≡ false) where
  abbrev once : Links
  once = insert_after other timer (insert_after head node l)

  abbrev twice : Links
  twice = insert_before head node once

  twice-next :
      head ≢ other
      → node ≢ other
      → timer ≢ head
      → timer ≢ node
      → timer ≢ other
      → mem timer (x ∷ xs) ≡ false
      → mem other (x ∷ xs) ≡ false
      → l.next other ≢ head
      → (twice.next head ≡ node) × (twice.next node ≡ head)
  unfolding insert_before
  twice-next a1 a2 a3 a4 a5 out_timer out_other elsewhere =
      let last = Seg.prev-mem l x head head xs r.links.2 (ground (arith, ==_refl head)) in
      let back = Seg.next-prev l head head head (x ∷ xs) r.links (ground (arith, ==_refl head)) in
      let p : ℕ = l.prev head in
      let f1 : p ≢ head = ground (arith, r.fresh) in
      let f2 : p ≢ node = ground arith in
      let f3 : p ≢ timer = ground arith in
      let f4 : p ≢ other = ground arith in
      let f5 : head ≢ l.next head = ground (arith, r.fresh, r.links.0) in
      let l1 = insert_after head node l in
      let first : once.next head ≡ node =
        after-other other timer l1 head a1 (ground arith) ∙ after-next head node l in
      let there : l1.next other ≡ l.next other =
        after-other head node l other (ground arith) (ground arith) in
      let same : once.prev head ≡ p =
        after-prev other timer l1 head (ground arith) (ground arith) (ground arith)
        ∙ after-prev head node l head (ground arith) (ground arith) f5 in
      let end : once.next p ≡ head =
        after-other other timer l1 p f4 f3 ∙ after-other head node l p f1 f2 ∙ back in
      rw same (
        after-other p node once head (ground arith) (ground arith) ∙ first,
        after-own p node once f2 ∙ end,
      )

len-two :
    (l : Links) (head node fuel : ℕ)
    → node ≢ head
    → l.next head ≡ node
    → l.next node ≡ head
    → len (suc (suc fuel)) head l ≡ some 1
unfolding len
len-two l head node fuel ne e f = ground arith

-- A task is initialised while the list of tasks holds others: the task is not among them, no node of
-- that list is the task's timer or the head of the list of timers, and the latter does not lead to
-- the head of the former. The call succeeds, and the others are cut off: from the head of the list
-- one comes to the new task and back, so that `_mrtk_list_len` counts one task.
pub task_init-twice :
    (task priority tick fuel x : ℕ) (xs : List ℕ) (k : Kernel)
    → first_object ≤ task
    → priority < prio_levels
    → IsRing k.objs (obj_list Obj.task) (x ∷ xs)
    → mem task (x ∷ xs) ≡ false
    → mem (task_timer task) (x ∷ xs) ≡ false
    → mem (obj_list Obj.timer) (x ∷ xs) ≡ false
    → k.objs.next (obj_list Obj.timer) ≢ obj_list Obj.task
    → let r = task_init task true priority tick k in
      (r.0 ≡ eok)
      × (r.1.objs.next (obj_list Obj.task) ≡ task)
      × (r.1.objs.next task ≡ obj_list Obj.task)
      × (len (suc (suc fuel)) (obj_list Obj.task) r.1.objs ≡ some 1)
unfolding task_init obj_init timer_init
task_init-twice task priority tick fuel x xs k object bound ring out out_timer out_heads elsewhere =
    let valid : ((task == null) || not true || not (ltb priority prio_levels)) ≡ false =
      ground arith in
    let real : ((task_timer task == null) || not true || not true) ≡ false = ground arith in
    let l : Links = twice k.objs 1 task 8 (task_timer task) x xs ring (ground arith) out in
    let links : (l.next 1 ≡ task) × (l.next task ≡ 1) =
      twice-next k.objs 1 task 8 (task_timer task) x xs ring (ground arith) out (omega arith)
        (ground arith) (ground arith) (ground arith) (ground arith) out_timer out_heads elsewhere in
    let counted = len-two l 1 task fuel (ground arith) links.0 links.1 in
    rw (valid, real) (refl, links.0, links.1, counted)
