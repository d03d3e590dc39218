-- ===== src/MsgQueue/Interleave/Append.antt =====
-- Linking a block, on the two chains.
use mathlib.Core.Path.{subst}
use micro_rt_kernel.Prelude.{
  ℕ, suc, ◌+◌, ◌%◌, ◌^◌, ◌≤◌, ◌<◌, ◌≡◌, refl, sym, ap, ◌∙◌, ◌≢◌, true, false, List, [], ◌∷◌, ◌++◌,
  map, arith, ◌==◌, ==_refl, length, mem, Distinct, Bool-cases, inl, inr, mem-append,
  append-Distinct, length-append,
}
use micro_rt_kernel.Kernel.{null, update}
use micro_rt_kernel.MemPool.Chain.{Chain, Chain-update}
use micro_rt_kernel.MsgQueue.{Mq, link}
use micro_rt_kernel.MsgQueue.Link.{EndsAt, EndsAt-mem, EndsAt-append, Chain-append, length-mem}
use micro_rt_kernel.MsgQueue.Interleave.{
  linked, sending, is_outside, is_vacant, is_linked, State, QueueOk,
}
use micro_rt_kernel.MsgQueue.Interleave.Owners.{
  of-is_linked, kept, gained, still_pooled, still_nowhere, still_held, map-append, append-right,
  held-real,
}

link-fields :
    (msg : ℕ) (m : Mq)
    → ((link msg m).body ≡ m.body)
      × ((link msg m).free_msg ≡ m.free_msg)
      × ((link msg m).tail_msg ≡ msg)
      × ((link msg m).cur_msg_cnt ≡ (m.cur_msg_cnt + 1) % 2 ^ 16)
unfolding link
link-fields msg m = elim (Bool-cases ((m.cur_msg_cnt + 1) % 2 ^ 16 == 1)) [
  | inl e ↦ rw e (refl, refl, refl, refl)
  | inr e ↦ rw e (refl, refl, refl, refl)
]

link-many :
    (msg : ℕ) (m : Mq)
    → ((m.cur_msg_cnt + 1) % 2 ^ 16 == 1) ≡ false
    → ((link msg m).next ≡ update (update m.next m.tail_msg msg) msg null)
      × ((link msg m).head_msg ≡ m.head_msg)
unfolding link
link-many msg m e = rw e (refl, refl)

module _ (msg : ℕ) (m : Mq) (ls : List ℕ) (real : msg ≢ null) (count : m.cur_msg_cnt ≡ length ls)
    (sized : length ls + 1 < 2 ^ 16) where
  link-linked :
      (xs : List ℕ)
      → ls ≡ xs
      → Chain m.next m.head_msg xs
      → EndsAt m.tail_msg xs
      → Distinct xs
      → mem msg xs ≡ false
      → Chain (link msg m).next (link msg m).head_msg (xs ++ msg ∷ [])
  unfolding link
  link-linked [] e c t d out =
      let one : ((m.cur_msg_cnt + 1) % 2 ^ 16 == 1) ≡ true = rw (count, e) refl in
      rw one (refl, real, rw (==_refl msg) refl)
  link-linked (x ∷ xs) e c t d out =
      let many : ((m.cur_msg_cnt + 1) % 2 ^ 16 == 1) ≡ false = ground (arith, ap length e) in
      let (next, head) = link-many msg m many in
      subst (λ z. Chain z (link msg m).head_msg (x ∷ xs ++ msg ∷ [])) (sym next)
        (subst (λ z. Chain (update (update m.next m.tail_msg msg) msg null) z (x ∷ xs ++ msg ∷ []))
          (sym head) (Chain-append m.next m.head_msg m.tail_msg msg x xs c t d out real))

  link-vacant :
      (xs fs : List ℕ)
      → ls ≡ xs
      → Chain m.next m.free_msg fs
      → mem msg fs ≡ false
      → (m.cur_msg_cnt ≢ 0 → mem m.tail_msg fs ≡ false)
      → Chain (link msg m).next m.free_msg fs
  unfolding link
  link-vacant [] fs e c out out' =
      let one : ((m.cur_msg_cnt + 1) % 2 ^ 16 == 1) ≡ true = rw (count, e) refl in
      rw one (Chain-update m.next m.free_msg msg null fs out c)
  link-vacant (x ∷ xs) fs e c out out' =
      let many : ((m.cur_msg_cnt + 1) % 2 ^ 16 == 1) ≡ false = ground (arith, ap length e) in
      let apart : mem m.tail_msg fs ≡ false = out' (λ z. absurd (omega (arith, z, ap length e))) in
      rw many (
        Chain-update (update m.next m.tail_msg msg) m.free_msg msg null fs out
          (Chain-update m.next m.free_msg m.tail_msg msg fs apart c))

module _ (pool : List ℕ) (s : State) (ls fs : List ℕ) where
  tail-vacant : QueueOk pool s ls fs → s.queue.cur_msg_cnt ≢ 0 → mem s.queue.tail_msg fs ≡ false
  tail-vacant ok some_msg = inside ls refl
    where
      inside : (xs : List ℕ) → ls ≡ xs → mem s.queue.tail_msg fs ≡ false
      inside [] e = absurd (some_msg (ok.count ∙ ap length e))
      inside (x ∷ xs) e =
          let t =
            EndsAt-mem s.queue.tail_msg x xs (subst (λ z. EndsAt s.queue.tail_msg z) e ok.last) in
          let m : mem s.queue.tail_msg ls ≡ true = rw e t in
          ok.vacant_owner s.queue.tail_msg
          ∙ ap is_vacant
              (of-is_linked (s.owner s.queue.tail_msg) (sym (ok.linked_owner s.queue.tail_msg) ∙ m))

  pub links-QueueOk :
      (msg : ℕ)
      → QueueOk pool s ls fs
      → s.owner msg ≡ sending
      → QueueOk pool
          record s {
            queue = link msg s.queue;
            owner = update s.owner msg linked;
            sent = s.sent ++ s.queue.body msg ∷ [];
          }
          (ls ++ msg ∷ [])
          fs
  links-QueueOk msg ok old =
      let out : mem msg ls ≡ false = ok.linked_owner msg ∙ ap is_linked old in
      let out' : mem msg fs ≡ false = ok.vacant_owner msg ∙ ap is_vacant old in
      let real : msg ≢ null = held-real pool s ls fs msg ok (ap is_outside old) in
      let inside : (a : ℕ) → mem a (msg ∷ ls) ≡ true → is_outside (s.owner a) ≡ false = (λ a h.
        elim (Bool-cases (a == msg)) [
          | inl e ↦ let same : a ≡ msg = ground arith in ap is_outside (ap s.owner same ∙ old)
          | inr e ↦ ap is_outside (of-is_linked (s.owner a) (sym (ok.linked_owner a) ∙ rw e at h))
        ]) in
      let fits : suc (length ls) ≤ length pool =
        length-mem (msg ∷ ls) pool (out, ok.linked_once) (λ a h. ok.pooled a (inside a h)) in
      let count : (s.queue.cur_msg_cnt + 1) % 2 ^ 16 ≡ suc (length ls) =
        omega (arith, ok.count, ok.sized) in
      let small : length ls + 1 < 2 ^ 16 = omega (arith, ok.sized, fits) in
      let tail_out : s.queue.cur_msg_cnt ≢ 0 → mem s.queue.tail_msg fs ≡ false = tail-vacant ok in
      let (body, free, tail, cnt) = link-fields msg s.queue in
      record {
        linked_chain =
            link-linked msg s.queue ls real ok.count small ls refl ok.linked_chain ok.last
              ok.linked_once out;
        vacant_chain = rw free (
            link-vacant msg s.queue ls real ok.count small ls fs refl ok.vacant_chain out'
              tail_out);
        linked_once = append-Distinct ls msg ok.linked_once out;
        vacant_once = ok.vacant_once;
        linked_owner =
            gained s.owner msg sending linked old is_linked ls (ls ++ msg ∷ []) ok.linked_owner
              (λ a. ground (arith, mem-append a ls (msg ∷ []))) refl;
        vacant_owner = kept s.owner msg sending linked old is_vacant fs ok.vacant_owner refl;
        pooled = still_pooled s.owner msg sending linked old pool ok.pooled refl;
        nowhere = still_nowhere s.owner msg sending linked old ok.nowhere refl;
        last = subst (λ z. EndsAt z (ls ++ msg ∷ [])) (sym tail) (EndsAt-append msg ls);
        count = cnt ∙ count ∙ sym (length-append ls (msg ∷ []) ∙ omega arith);
        sized = ok.sized;
        held = rw body (still_held s.owner msg sending linked old s.queue.body ok.held refl);
        order =
            rw (body, map-append s.queue.body msg ls, ok.order)
              (append-right s.got (map s.queue.body ls) (s.queue.body msg ∷ []));
      }
