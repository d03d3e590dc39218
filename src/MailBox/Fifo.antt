-- ===== src/MailBox/Fifo.antt =====
-- The buffer of a mail box is a queue: mails come out in the order in which they went in.
use micro_rt_kernel.Prelude.{
  ℕ, suc, ◌+◌, ◌-◌, ◌%◌, ◌^◌, ◌≤◌, ◌<◌, ◌≡◌, refl, ap, ◌∙◌, ◌≢◌, inl, inr, true, some, List, [],
  ◌∷◌, ◌++◌, arith, ◌==◌, Bool-cases, ==_refl, ==_of_ne,
}
use micro_rt_kernel.Kernel.{Kernel, eok, null, update}
use micro_rt_kernel.Blocking.{returned}
use micro_rt_kernel.Cyclic.{wrap, window, mod-wrap, step, window-append, window-ext}
use micro_rt_kernel.MailBox.{Mb, suspend_sender, put, get, notify, send_wait, recv}

pub record IsValid (m : Mb) : Type 0 where
  pub positive : 0 < m.max_mail_cnt
  pub small : m.max_mail_cnt < 2 ^ 16
  pub bounded : m.cur_mail_cnt ≤ m.max_mail_cnt
  pub out : m.out_offset < m.max_mail_cnt
  pub in_place : m.in_offset ≡ step m.max_mail_cnt m.out_offset m.cur_mail_cnt

-- The mails stored, the oldest first.
abbrev pub contents : Mb → List ℕ
contents m = window m.msg_pool m.max_mail_cnt m.out_offset m.cur_mail_cnt

module _ (m : Mb) (v : IsValid m) where
  mod-16 :
      (x : ℕ) → x < m.max_mail_cnt → (x + 1) % m.max_mail_cnt % 2 ^ 16 ≡ wrap m.max_mail_cnt (x + 1)
  mod-16 x lt =
      let low : wrap m.max_mail_cnt (x + 1) % 2 ^ 16 ≡ wrap m.max_mail_cnt (x + 1) =
        ground (arith, v.small) in
      rw (mod-wrap m.max_mail_cnt (x + 1) (omega arith)) low

  module _ (mail : ℕ) (room : m.cur_mail_cnt < m.max_mail_cnt) where
    in-bound : m.in_offset < m.max_mail_cnt
    in-bound = ground (arith, v.in_place, v.out)

    put-count : (m.cur_mail_cnt + 1) % 2 ^ 16 ≡ m.cur_mail_cnt + 1
    put-count = ground (arith, v.small)

    put-IsValid : IsValid (put mail m)
    unfolding put
    put-IsValid = record {
      positive = v.positive;
      small = v.small;
      bounded = ground (arith, put-count);
      out = v.out;
      in_place = rw (mod-16 m.in_offset in-bound, put-count) (ground (arith, v.in_place, v.out));
    }

    put-contents : contents (put mail m) ≡ contents m ++ mail ∷ []
    unfolding put
    put-contents =
        let cell = update m.msg_pool m.in_offset mail in
        let front =
          window-ext m.max_mail_cnt cell m.msg_pool m.out_offset m.cur_mail_cnt v.out v.bounded
            (λ i h. ground (arith, v.in_place, v.out)) in
        rw
          (
            put-count,
            window-append m.max_mail_cnt cell m.out_offset m.cur_mail_cnt 1 v.out v.bounded,
            front,
            ← v.in_place,
            ==_refl m.in_offset,
          )
          refl

  module _ (some_mail : 0 < m.cur_mail_cnt) where
    get-count : (m.cur_mail_cnt + 2 ^ 16 - 1) % 2 ^ 16 ≡ m.cur_mail_cnt - 1
    get-count = ground (arith, v.small, v.bounded)

    get-IsValid : IsValid (get m).1
    unfolding get
    get-IsValid = record {
      positive = v.positive;
      small = v.small;
      bounded = rw get-count (ground (arith, v.bounded));
      out = rw (mod-16 m.out_offset v.out) (ground (arith, v.out));
      in_place =
          rw (mod-16 m.out_offset v.out, get-count, v.in_place) (ground (arith, v.out, v.bounded));
    }

    get-contents : contents m ≡ (get m).0 ∷ contents (get m).1
    unfolding get
    get-contents =
        let count : m.cur_mail_cnt ≡ suc (m.cur_mail_cnt - 1) = omega arith in
        ap (window m.msg_pool m.max_mail_cnt m.out_offset) count
        ∙ rw (mod-16 m.out_offset v.out, get-count) refl

module _ (fuel mb timeout : ℕ) (m : Mb) (k : Kernel) (v : IsValid m) (ne : mb ≢ null)
    (calm : k.interrupt_nest ≡ 0) where
  -- Outside interrupts, a well-formed mail box that is not full takes a mail behind the others,
  -- whatever the time limit is.
  pub send_wait-contents :
      (mail : ℕ)
      → m.cur_mail_cnt < m.max_mail_cnt
      → (m' : Mb) × (k' : Kernel) × (send_wait fuel mb (some mail) timeout m k
          ≡ some (returned eok, m', k'))
        × IsValid m'
        × (contents m' ≡ contents m ++ mail ∷ [])
  unfolding send_wait
  send_wait-contents mail room = (
    put mail m,
    notify mb k,
    rw (==_of_ne mb 0 ne, calm, ==_of_ne m.max_mail_cnt m.cur_mail_cnt (λ e. ground arith))
        (elim (Bool-cases (timeout == 0)) [ inl e ↦ rw e refl | inr e ↦ rw e refl ]),
    put-IsValid m v mail room,
    put-contents m v mail room,
  )

  -- Outside interrupts, a well-formed mail box that is not empty gives its oldest mail and keeps
  -- the others.
  pub recv-contents :
      0 < m.cur_mail_cnt
      → (m' : Mb) × (mail : ℕ) × (k' : Kernel) × (recv fuel mb true timeout m k
          ≡ some (returned eok, m', some mail, k'))
        × IsValid m'
        × (contents m ≡ mail ∷ contents m')
  unfolding recv
  recv-contents some_mail = (
    (get m).1,
    (get m).0,
    notify (suspend_sender mb) k,
    rw (==_of_ne mb 0 ne, calm, ==_of_ne m.cur_mail_cnt 0 (λ e. ground arith))
        (elim (Bool-cases (timeout == 0)) [ inl e ↦ rw e refl | inr e ↦ rw e refl ]),
    get-IsValid m v some_mail,
    get-contents m v some_mail,
  )
