-- ===== src/Dynamic/Again.antt =====
-- What is created and deleted again leaves the heap as it was.
use mathlib.Core.Path.{subst}
use micro_rt_kernel.Prelude.{
  ℕ, zero, suc, ◌+◌, ◌^◌, ◌≤◌, ◌<◌, ◌≡◌, refl, sym, ap, ◌∙◌, ◌≢◌, Bool, true, false, not, ◌||◌,
  Option, none, some, List, arith, ◌==◌, ==_refl, ==_of_ne, length, Bool-cases, inl, inr,
  if◌then◌else◌,
}
use micro_rt_kernel.Kernel.{Kernel, Err, eok, edeleted, einval, null}
use micro_rt_kernel.Sched.{schedule_lock, schedule_unlock}
use micro_rt_kernel.MailBox.{is_eok}
use micro_rt_kernel.Ipc.{resume_all, resume_loop, ipc_obj_delete}
use micro_rt_kernel.Obj.{obj_delete}
use micro_rt_kernel.Sem
use micro_rt_kernel.Sem.{Sem}
use micro_rt_kernel.MemHeap.{Heap, header_size, free}
use micro_rt_kernel.MemHeap.Chunks.{Chunk}
use micro_rt_kernel.MemHeap.Malloc.{chosen}
use micro_rt_kernel.MemHeap.Search.{HeapOk}
use micro_rt_kernel.MemHeap.Refinement.{Granted, malloc-HeapOk, free-alloc}
use micro_rt_kernel.Dynamic.{create_one, sem_create, sem_delete, delete_one}
use micro_rt_kernel.Dynamic.Leak.{create_one-eq}

resume_loop-end :
    (fuel list : ℕ) (err : Err) (next : ℕ) (need : Bool) (k : Kernel)
    → 1 ≤ fuel
    → resume_loop fuel list err list next need k ≡ some (need, k)
unfolding resume_loop
resume_loop-end zero list err next need k le = absurd (omega arith)
resume_loop-end (suc fuel) list err next need k le = rw (==_refl list) refl

resume_all-empty :
    (fuel list : ℕ) (err : Err) (k : Kernel)
    → 1 ≤ fuel
    → k.sched.next list ≡ list
    → resume_all fuel list err k ≡ some (false, k)
unfolding resume_all
resume_all-empty fuel list err k le e =
    subst (λ x. resume_loop fuel list err x (k.sched.next x) false k ≡ some (false, k)) (sym e)
      (resume_loop-end fuel list err (k.sched.next list) false k le)

ipc_obj_delete-empty :
    (fuel obj : ℕ) (k : Kernel)
    → 1 ≤ fuel
    → k.sched.next obj ≡ obj
    → ipc_obj_delete fuel obj obj k ≡ some (false, obj_delete obj k)
unfolding ipc_obj_delete
ipc_obj_delete-empty fuel obj k le e = rw (resume_all-empty fuel obj edeleted k le e) refl

-- The deletion of an object that no task waits for.
delete_one-empty :
    (fuel obj : ℕ) (h : Heap) (k : Kernel)
    → 1 ≤ fuel
    → k.sched.next obj ≡ obj
    → delete_one fuel obj h k
      ≡ some (eok, (free obj h (obj_delete obj k)).0, (free obj h (obj_delete obj k)).1)
unfolding delete_one
delete_one-empty fuel obj h k le e = rw (ipc_obj_delete-empty fuel obj k le e) refl

module _ {A : Type 0} (init : ℕ → Kernel → Err × A × Kernel) where
  create_one-some :
      (fuel bytes obj : ℕ) (a : A) (h h' : Heap) (k k' : Kernel) (cs : List Chunk)
      → HeapOk h cs
      → bytes + 15 < 2 ^ 32
      → length cs + 2 ≤ fuel
      → create_one fuel bytes init h k ≡ some (some (obj, a), h', k')
      → (obj ≢ null)
        × (a ≡ (init obj (schedule_unlock (schedule_lock k))).1)
        × ((k2 : Kernel) → HeapOk (free obj h' k2).0 cs)
  create_one-some fuel bytes obj a h h' k k' cs ok small le e =
      back (chosen bytes cs) refl (malloc-HeapOk fuel bytes h k cs ok small le)
    where
      back :
          (found : Option ℕ)
          → chosen bytes cs ≡ found
          → Granted fuel bytes h k cs found
          → (obj ≢ null)
            × (a ≡ (init obj (schedule_unlock (schedule_lock k))).1)
            × ((k2 : Kernel) → HeapOk (free obj h' k2).0 cs)
      back none c m =
          let made =
            sym e
            ∙ create_one-eq init fuel bytes h k (null, h, schedule_unlock (schedule_lock k)) m in
          absurd (ground (arith, made))
      back (some t) c (g, m, fine, base) =
          let at = h.base + t + header_size in
          let k1 = schedule_unlock (schedule_lock k) in
          let made = sym e ∙ create_one-eq init fuel bytes h k (at, g, k1) m in
          let real : (at == null) ≡ false = ground arith in
          elim (Bool-cases (is_eok (init at k1).0)) [
            | inl f ↦
                let same : obj ≡ at = ground (arith, rw (real, f) at made) in
                let init' : a ≡ (init at k1).1 = ground (arith, rw (real, f) at made) in
                let heap : h' ≡ g = ground (arith, rw (real, f) at made) in
                let here : g.base + t + header_size ≡ at = ground (arith, base) in
                rw (same, init', heap)
                  (
                    (λ z. absurd (omega (arith, z))),
                    refl,
                    (λ k2.
                        subst (λ x. HeapOk (free x g k2).0 cs) here
                          (free-alloc bytes t g k2 cs ok.merged ok.sized c fine)),
                  )
            | inr f ↦ absurd (ground (arith, rw (real, f) at made))
          ]

sem_delete-delete_one :
    (fuel obj : ℕ) (s : Sem) (h : Heap) (k : Kernel)
    → obj ≢ null
    → s.is_dynamic ≡ true
    → sem_delete fuel obj s h k ≡ delete_one fuel obj h k
unfolding sem_delete
sem_delete-delete_one fuel obj s h k real dynamic =
    let known : (obj == null) ≡ false = ==_of_ne obj 0 real in cases known dynamic
  where
    cases :
        (obj == null) ≡ false
        → s.is_dynamic ≡ true
        → (if (obj == null) || not s.is_dynamic
            then some (einval, h, k)
            else delete_one fuel obj h k)
          ≡ delete_one fuel obj h k
    cases e f = cc

-- On a heap made of the chunks `cs`: a semaphore that was created, and that no task waits for in the
-- state `k2` of the kernel, is deleted with `MRTK_EOK`, and the heap is made of the same chunks again.
sem_delete-create :
    (fuel bytes obj value flag : ℕ) (blank s : Sem) (h h' : Heap) (k k' k2 : Kernel)
    (cs : List Chunk)
    → HeapOk h cs
    → bytes + 15 < 2 ^ 32
    → length cs + 2 ≤ fuel
    → sem_create fuel bytes true value flag blank h k ≡ some (some (obj, s), h', k')
    → k2.sched.next obj ≡ obj
    → (h2 : Heap) × (k3 : Kernel) × (sem_delete fuel obj s h' k2 ≡ some (eok, h2, k3))
      × HeapOk h2 cs
unfolding sem_create
sem_delete-create fuel bytes obj value flag blank s h h' k k' k2 cs ok small le e alone =
    let init : ℕ → Kernel → Err × Sem × Kernel = λ o k1.
      let r = Sem.init o true value flag blank k1 in (r.0, record r.1 { is_dynamic = true }, r.2) in
    let (real, made, freed) = create_one-some init fuel bytes obj s h h' k k' cs ok small le e in
    let dynamic : s.is_dynamic ≡ true = ap (λ (x : Sem). x.is_dynamic) made in
    (
      (free obj h' (obj_delete obj k2)).0,
      (free obj h' (obj_delete obj k2)).1,
      sem_delete-delete_one fuel obj s h' k2 real dynamic
          ∙ delete_one-empty fuel obj h' k2 (omega arith) alone,
      freed (obj_delete obj k2),
    )
