-- ===== src/MsgQueue/Interleave/Owners.antt =====
-- A block that changes hands: what each of the two chains and the pool keep of it.
use micro_rt_kernel.Prelude.{
  ℕ, ◌≤◌, ◌≡◌, refl, sym, ap, ◌∙◌, ◌≢◌, Bool, true, false, ◌||◌, List, [], ◌∷◌, ◌++◌, map, arith,
  ◌==◌, length, mem, Bool-cases, inl, inr,
}
use micro_rt_kernel.Kernel.{null, update}
use micro_rt_kernel.MsgQueue.Link.{length-mem}
use micro_rt_kernel.MsgQueue.Interleave.{
  Owner, outside, vacant, linked, sending, receiving, is_outside, is_vacant, is_linked, State,
  QueueOk,
}

abbrev pub is_held : Owner → Bool
is_held (receiving message) = true
is_held o = false

pub of-is_vacant : (o : Owner) → is_vacant o ≡ true → o ≡ vacant
of-is_vacant vacant e = refl
of-is_vacant outside e = absurd (ground arith)
of-is_vacant linked e = absurd (ground arith)
of-is_vacant sending e = absurd (ground arith)
of-is_vacant (receiving m) e = absurd (ground arith)

pub of-is_linked : (o : Owner) → is_linked o ≡ true → o ≡ linked
of-is_linked linked e = refl
of-is_linked outside e = absurd (ground arith)
of-is_linked vacant e = absurd (ground arith)
of-is_linked sending e = absurd (ground arith)
of-is_linked (receiving m) e = absurd (ground arith)

-- A block changes hands.
module _ (owner : ℕ → Owner) (b : ℕ) (old new : Owner) (at : owner b ≡ old) where
  owner-same : (a : ℕ) → (a == b) ≡ true → owner a ≡ old
  owner-same a e = let same : a ≡ b = ground arith in ap owner same ∙ at

  pub kept :
      (f : Owner → Bool) (xs : List ℕ)
      → ((a : ℕ) → mem a xs ≡ f (owner a))
      → f new ≡ f old
      → (a : ℕ) → mem a xs ≡ f (update owner b new a)
  kept f xs all same a = elim (Bool-cases (a == b)) [
    | inl e ↦ rw e (all a ∙ ap f (owner-same a e) ∙ sym same)
    | inr e ↦ rw e (all a)
  ]

  pub gained :
      (f : Owner → Bool) (xs ys : List ℕ)
      → ((a : ℕ) → mem a xs ≡ f (owner a))
      → ((a : ℕ) → mem a ys ≡ ((a == b) || mem a xs))
      → f new ≡ true
      → (a : ℕ) → mem a ys ≡ f (update owner b new a)
  gained f xs ys all more is a = elim (Bool-cases (a == b)) [
    | inl e ↦ rw (more a, e) (sym is)
    | inr e ↦ rw (more a, e) (all a)
  ]

  pub lost :
      (f : Owner → Bool) (xs : List ℕ)
      → ((a : ℕ) → mem a (b ∷ xs) ≡ f (owner a))
      → mem b xs ≡ false
      → f new ≡ false
      → (a : ℕ) → mem a xs ≡ f (update owner b new a)
  lost f xs all out is a = elim (Bool-cases (a == b)) [
    | inl e ↦ let same : a ≡ b = ground arith in rw e (ap (λ z. mem z xs) same ∙ out ∙ sym is)
    | inr e ↦ rw e (rw e at (all a))
  ]

  pub still_pooled :
      (pool : List ℕ)
      → ((a : ℕ) → is_outside (owner a) ≡ false → mem a pool ≡ true)
      → is_outside old ≡ false
      → (a : ℕ) → is_outside (update owner b new a) ≡ false
      → mem a pool ≡ true
  still_pooled pool all in_it a = elim (Bool-cases (a == b)) [
    | inl e ↦ λ h. all a (ap is_outside (owner-same a e) ∙ in_it)
    | inr e ↦ λ h. all a (rw e at h)
  ]

  pub still_nowhere :
      owner null ≡ outside → is_outside old ≡ false → update owner b new null ≡ outside
  still_nowhere out in_it = elim (Bool-cases (null == b)) [
    | inl e ↦ absurd (ground (arith, ap is_outside (sym out ∙ owner-same null e)))
    | inr e ↦ rw e out
  ]

  pub still_held :
      (body : ℕ → ℕ → ℕ)
      → ((a : ℕ) (message : ℕ → ℕ) → owner a ≡ receiving message → body a ≡ message)
      → is_held new ≡ false
      → (a : ℕ) (message : ℕ → ℕ) → update owner b new a ≡ receiving message
      → body a ≡ message
  still_held body all not_held a message = elim (Bool-cases (a == b)) [
    | inl e ↦ λ h. absurd (ground (arith, ap is_held (rw e at h)))
    | inr e ↦ λ h. all a message (rw e at h)
  ]

pub map-update :
    {A : Type 0} (body : ℕ → A) (b : ℕ) (v : A) (xs : List ℕ)
    → mem b xs ≡ false
    → map (update body b v) xs ≡ map body xs
map-update body b v [] out = refl
map-update body b v (x ∷ xs) out =
    let same : update body b v x ≡ body x = ground arith in
    rw (same, map-update body b v xs (ground arith)) refl

pub map-append :
    {A : Type 0} (body : ℕ → A) (b : ℕ) (xs : List ℕ)
    → map body (xs ++ b ∷ []) ≡ map body xs ++ body b ∷ []
map-append body b [] = refl
map-append body b (x ∷ xs) = ap (λ l. body x ∷ l) (map-append body b xs)

pub append-assoc_one : {A : Type 0} (x : A) (xs ys : List A) → (xs ++ x ∷ []) ++ ys ≡ xs ++ x ∷ ys
append-assoc_one x [] ys = refl
append-assoc_one x (z ∷ xs) ys = ap (λ l. z ∷ l) (append-assoc_one x xs ys)

-- The queue is never longer than the pool.
pub linked-le :
    (pool : List ℕ) (s : State) (ls fs : List ℕ) → QueueOk pool s ls fs → length ls ≤ length pool
linked-le pool s ls fs ok =
    length-mem ls pool ok.linked_once
      (λ a h. ok.pooled a (ap is_outside (of-is_linked (s.owner a) (sym (ok.linked_owner a) ∙ h))))

-- A block that someone holds is not the null pointer.
pub held-real :
    (pool : List ℕ) (s : State) (ls fs : List ℕ) (b : ℕ)
    → QueueOk pool s ls fs
    → is_outside (s.owner b) ≡ false
    → b ≢ null
held-real pool s ls fs b ok h e =
    absurd (ground (arith, h, ap is_outside (ap s.owner e ∙ ok.nowhere)))

abbrev pub message_of : Owner → ℕ → ℕ
message_of (receiving message) = message
message_of o = λ i. 0

pub append-right : {A : Type 0} (xs ys zs : List A) → (xs ++ ys) ++ zs ≡ xs ++ (ys ++ zs)
append-right [] ys zs = refl
append-right (x ∷ xs) ys zs = ap (λ l. x ∷ l) (append-right xs ys zs)
