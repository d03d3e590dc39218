-- ===== src/MsgQueue/Interleave/Steps.antt =====
-- Every step keeps the queue in order.
use mathlib.Core.Path.{subst}
use micro_rt_kernel.Prelude.{
  ℕ, ◌≤◌, ◌≡◌, refl, sym, ap, ◌∙◌, ◌≢◌, false, List, [], ◌∷◌, ◌++◌, map, arith, ◌==◌, ==_refl,
  ==_of_ne, length, mem, ltb, if◌then◌else◌, Bool-cases, inl, inr,
}
use micro_rt_kernel.Kernel.{null, update}
use micro_rt_kernel.MemPool.Chain.{Chain, Chain-update}
use micro_rt_kernel.MsgQueue.{reserve, write, take, give}
use micro_rt_kernel.MsgQueue.Link.{EndsAt, EndsAt-rest}
use micro_rt_kernel.MsgQueue.Interleave.{
  vacant, linked, sending, receiving, is_outside, is_vacant, is_linked, State, QueueOk,
}
use micro_rt_kernel.MsgQueue.Interleave.Owners.{
  of-is_vacant, of-is_linked, kept, gained, lost, still_pooled, still_nowhere, still_held,
  map-update, is_held, append-assoc_one, linked-le, held-real, message_of,
}

EndsAt-null :
    (ls : List ℕ) (head tail : ℕ) (next : ℕ → ℕ)
    → Chain next head ls
    → EndsAt tail ls
    → EndsAt (if head == null then null else tail) ls
EndsAt-null [] head tail next c e = tt
EndsAt-null (x ∷ ls) head tail next (at, real, rest) e =
    let same : (if head == null then null else tail) ≡ tail = rw (at, ==_of_ne x 0 real) refl in
    subst (λ z. EndsAt z (x ∷ ls)) (sym same) e

module _ (pool : List ℕ) (s : State) (ls fs : List ℕ) where
  pub reserves-QueueOk :
      (b : ℕ)
      → QueueOk pool s ls (b ∷ fs)
      → QueueOk pool
          record s { queue = reserve s.queue; owner = update s.owner s.queue.free_msg sending }
          ls
          fs
  unfolding reserve
  reserves-QueueOk b ok =
      let (at, real, rest) = ok.vacant_chain in
      let old : s.owner b ≡ vacant =
        of-is_vacant (s.owner b) (sym (ok.vacant_owner b) ∙ ground (arith, ==_refl b)) in
      rw at record {
        linked_chain = ok.linked_chain;
        vacant_chain = rest;
        linked_once = ok.linked_once;
        vacant_once = ok.vacant_once.1;
        linked_owner = kept s.owner b vacant sending old is_linked ls ok.linked_owner refl;
        vacant_owner =
            lost s.owner b vacant sending old is_vacant fs ok.vacant_owner ok.vacant_once.0 refl;
        pooled = still_pooled s.owner b vacant sending old pool ok.pooled refl;
        nowhere = still_nowhere s.owner b vacant sending old ok.nowhere refl;
        last = ok.last;
        count = ok.count;
        sized = ok.sized;
        held = still_held s.owner b vacant sending old s.queue.body ok.held refl;
        order = ok.order;
      }

  pub writes-QueueOk :
      (size : ℕ) (buffer : ℕ → ℕ) (msg : ℕ)
      → QueueOk pool s ls fs
      → s.owner msg ≡ sending
      → QueueOk pool (record s { queue = write size buffer msg s.queue }) ls fs
  unfolding write
  writes-QueueOk size buffer msg ok old =
      let out : mem msg ls ≡ false = ok.linked_owner msg ∙ ap is_linked old in
      let new = λ (i : ℕ). if ltb i size then buffer i else s.queue.body msg i in
      record {
        linked_chain = ok.linked_chain;
        vacant_chain = ok.vacant_chain;
        linked_once = ok.linked_once;
        vacant_once = ok.vacant_once;
        linked_owner = ok.linked_owner;
        vacant_owner = ok.vacant_owner;
        pooled = ok.pooled;
        nowhere = ok.nowhere;
        last = ok.last;
        count = ok.count;
        sized = ok.sized;
        held = λ a message h. elim (Bool-cases (a == msg)) [
          | inl e ↦
              let same : a ≡ msg = ground arith in
              absurd (ground (arith, ap is_held (sym h ∙ ap s.owner same ∙ old)))
          | inr e ↦ rw e (ok.held a message h)
        ];
        order = rw (map-update s.queue.body msg new ls out) (ok.order);
      }

  pub takes-QueueOk :
      (b : ℕ)
      → QueueOk pool s (b ∷ ls) fs
      → QueueOk pool
          record s {
            queue = take s.queue;
            owner = update s.owner s.queue.head_msg (receiving (s.queue.body s.queue.head_msg));
            got = s.got ++ s.queue.body s.queue.head_msg ∷ [];
          }
          ls
          fs
  unfolding take
  takes-QueueOk b ok =
      let (at, real, rest) = ok.linked_chain in
      let new = receiving (s.queue.body b) in
      let old : s.owner b ≡ linked =
        of-is_linked (s.owner b) (sym (ok.linked_owner b) ∙ ground (arith, ==_refl b)) in
      let fits : length (b ∷ ls) ≤ length pool = linked-le pool s (b ∷ ls) fs ok in
      rw at record {
        linked_chain = rest;
        vacant_chain = ok.vacant_chain;
        linked_once = ok.linked_once.1;
        vacant_once = ok.vacant_once;
        linked_owner =
            lost s.owner b linked new old is_linked ls ok.linked_owner ok.linked_once.0 refl;
        vacant_owner = kept s.owner b linked new old is_vacant fs ok.vacant_owner refl;
        pooled = still_pooled s.owner b linked new old pool ok.pooled refl;
        nowhere = still_nowhere s.owner b linked new old ok.nowhere refl;
        last = EndsAt-rest s.queue.tail_msg b ls ok.last;
        count = omega (arith, ok.count, ok.sized, fits);
        sized = ok.sized;
        held = λ a message h. elim (Bool-cases (a == b)) [
          | inl e ↦
              let same : a ≡ b = ground arith in ap s.queue.body same ∙ ap message_of (rw e at h)
          | inr e ↦ ok.held a message (rw e at h)
        ];
        order = ok.order ∙ sym (append-assoc_one (s.queue.body b) s.got (map s.queue.body ls));
      }

  pub gives-QueueOk :
      (msg : ℕ) (message : ℕ → ℕ)
      → QueueOk pool s ls fs
      → s.owner msg ≡ receiving message
      → QueueOk pool
          (record s { queue = give msg s.queue; owner = update s.owner msg vacant })
          ls
          (msg ∷ fs)
  unfolding give
  gives-QueueOk msg message ok old =
      let out : mem msg ls ≡ false = ok.linked_owner msg ∙ ap is_linked old in
      let out' : mem msg fs ≡ false = ok.vacant_owner msg ∙ ap is_vacant old in
      let real : msg ≢ null = held-real pool s ls fs msg ok (ap is_outside old) in
      let next : update s.queue.next msg s.queue.free_msg msg ≡ s.queue.free_msg =
        ground (arith, ==_refl msg) in
      record {
        linked_chain =
            Chain-update s.queue.next s.queue.head_msg msg s.queue.free_msg ls out ok.linked_chain;
        vacant_chain = (
          refl,
          real,
          rw next (
              Chain-update s.queue.next s.queue.free_msg msg s.queue.free_msg fs out'
                ok.vacant_chain),
        );
        linked_once = ok.linked_once;
        vacant_once = (out', ok.vacant_once);
        linked_owner =
            kept s.owner msg (receiving message) vacant old is_linked ls ok.linked_owner refl;
        vacant_owner =
            gained s.owner msg (receiving message) vacant old is_vacant fs (msg ∷ fs)
              ok.vacant_owner (λ a. refl) refl;
        pooled = still_pooled s.owner msg (receiving message) vacant old pool ok.pooled refl;
        nowhere = still_nowhere s.owner msg (receiving message) vacant old ok.nowhere refl;
        last =
            EndsAt-null ls s.queue.head_msg s.queue.tail_msg s.queue.next ok.linked_chain ok.last;
        count = ok.count;
        sized = ok.sized;
        held = still_held s.owner msg (receiving message) vacant old s.queue.body ok.held refl;
        order = ok.order;
      }
