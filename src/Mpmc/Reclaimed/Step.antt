-- ===== src/Mpmc/Reclaimed/Step.antt =====
-- The steps of the queue, and the nodes that they hand to the epoch manager.
use cccloud.Prelude.{
  ℕ, ◌+◌, ◌≡◌, ◌≢◌, inl, inr, Bool, true, false, not, ◌&&◌, Option, none, some, arith,
  if◌then◌else◌, ◌==◌, refl, sym, ap, subst, Bool-cases,
}
use cccloud.Epoch.{Manager}
use cccloud.Epoch.Registry.{IsLinked}
use cccloud.Epoch.Accounts.{step-Accounts}
use cccloud.Epoch.History.{enters, leaves, retires, retires_once, balance}
use cccloud.Epoch.History as History
use cccloud.Mpmc.{
  Shared, Pc, enq_begin, enq_link, enq_swing, enq_help, deq_begin, deq_loop, deq_next, deq_help,
  deq_swap, deq_take, empty_begin, empty_tail, wins, is_null, step, after_next, after_head,
  finds_empty, enter, leave, retire, take, reset_payload, allocate, set_next, swing_tail,
}
use cccloud.Mpmc.Ghost.{Ghost, owns}
use cccloud.Mpmc.Pointers.{advance_tail}
use cccloud.Mpmc.Reclaimed.{claims, Settled}

-- Where a thread goes after its second load of `head`.
pub after_load-claims {ℓ} :
    (A : Type ℓ) (b : Bool) (h t : ℕ) (link : Option ℕ)
    → (claims (if b then after_head {A = A} h t link else deq_loop) ≡ none)
      × (owns (if b then after_head {A = A} h t link else deq_loop) ≡ none)
unfolding after_head
after_load-claims A false h t link = (refl, refl)
after_load-claims A true h t none = elim (Bool-cases (h == t)) [
  | inl e ↦ rw e (refl, refl)
  | inr e ↦ rw e (refl, refl)
]
after_load-claims A true h t (some x) = elim (Bool-cases (h == t)) [
  | inl e ↦ rw e (refl, refl)
  | inr e ↦ rw e (refl, refl)
]

module _ {ℓ} {A : Type ℓ} where
  pub claims_take : (p : Pc A) (h : ℕ) → claims p ≡ some h → (y : ℕ) × (p ≡ deq_take h y)
  claims_take (deq_take k y) h e = (y, ap (λ a. deq_take a y) (ground arith))
  claims_take p h e = absurd (cc)

  -- How often a step of a thread at `p` hands `a` to the manager.
  abbrev pub hands_over : Pc A → ℕ → ℕ
  hands_over (deq_take h x) a = if h == a then 1 else 0
  hands_over _ a = 0

  balance-enter :
      (i a : ℕ) (s : Shared A) → IsLinked s.ebr → balance a (enter i s).ebr ≡ balance a s.ebr
  unfolding enter History.step retires_once
  balance-enter i a s ok = omega (arith, (step-Accounts (enters i) s.ebr ok).books a)

  pub balance-leave :
      (i a : ℕ) (s : Shared A) → IsLinked s.ebr → balance a (leave i s).ebr ≡ balance a s.ebr
  unfolding leave History.step retires_once
  balance-leave i a s ok = omega (arith, (step-Accounts (leaves i) s.ebr ok).books a)

  pub balance-retire :
      (i h a : ℕ) (s : Shared A)
      → IsLinked s.ebr
      → balance a (leave i (retire i h s)).ebr ≡ balance a s.ebr + (if h == a then 1 else 0)
  unfolding leave retire History.step retires_once
  balance-retire i h a s ok =
      let retired = step-Accounts (retires i (some h)) s.ebr ok in
      omega (
        arith,
        retired.books a,
        (step-Accounts (leaves i) (History.step (retires i (some h)) s.ebr) retired.linked).books a,
      )

  balance-if :
      (b : Bool) (a n : ℕ) (s t : Shared A)
      → balance a s.ebr ≡ n
      → balance a t.ebr ≡ n
      → balance a (if b then s else t).ebr ≡ n
  balance-if true a n s t e f = e
  balance-if false a n s t e f = f

  balance-swing_tail :
      (spurious : Bool) (t x a : ℕ) (s : Shared A)
      → balance a (swing_tail spurious t x s).ebr ≡ balance a s.ebr
  unfolding swing_tail
  balance-swing_tail spurious t x a s = balance-if (wins spurious s.tail t) a _ _ s refl refl

  ebr-swing_tail :
      (spurious : Bool) (t x : ℕ) (s : Shared A) → (swing_tail spurious t x s).ebr ≡ s.ebr
  unfolding swing_tail
  ebr-swing_tail spurious t x s = elim (Bool-cases (wins spurious s.tail t)) [
    | inl e ↦ rw e refl
    | inr e ↦ rw e refl
  ]

  balance-take :
      (i h x a : ℕ) (o : Option A) (s : Shared A)
      → IsLinked s.ebr
      → o ≢ none
      → balance a (take i h x o s).0.ebr ≡ balance a s.ebr + (if h == a then 1 else 0)
  unfolding take reset_payload
  balance-take i h x a none s ok full = absurd (full refl)
  balance-take i h x a (some v) s ok full = balance-retire i h a (reset_payload x s) ok

  pub balance-step :
      (i a : ℕ) (spurious : Bool) (s : Shared A) (p : Pc A)
      → IsLinked s.ebr
      → ((h x : ℕ) → p ≡ deq_take h x → (s.nodes x).payload ≢ none)
      → balance a (step i spurious s p).0.ebr ≡ balance a s.ebr + hands_over p a
  unfolding step allocate set_next
  balance-step i a spurious s (enq_begin v) ok full =
      omega (arith, balance-enter i a (allocate v s) ok)
  balance-step i a spurious s (enq_link n t) ok full =
      elim (Bool-cases (not spurious && is_null (s.nodes t).next)) [
        | inl e ↦ rw e (omega arith)
        | inr e ↦ rw e (omega arith)
      ]
  balance-step i a spurious s (enq_swing n t) ok full = omega (
    arith,
    balance-leave i a (swing_tail spurious t n s)
        (subst IsLinked (sym (ebr-swing_tail spurious t n s)) ok),
    balance-swing_tail spurious t n a s,
  )
  balance-step i a spurious s (enq_help n t x) ok full =
      omega (arith, balance-swing_tail spurious t x a s)
  balance-step i a spurious s deq_begin ok full = omega (arith, balance-enter i a s ok)
  balance-step i a spurious s (deq_next h t link) ok full =
      balance-if (finds_empty s h t link) a _ (leave i s) s (omega (arith, balance-leave i a s ok))
        (omega arith)
  balance-step i a spurious s (deq_help t x) ok full =
      omega (arith, balance-swing_tail spurious t x a s)
  balance-step i a spurious s (deq_swap h x) ok full = elim (Bool-cases (wins spurious s.head h)) [
    | inl e ↦ rw e (omega arith)
    | inr e ↦ rw e (omega arith)
  ]
  balance-step i a spurious s (deq_take h x) ok full =
      balance-take i h x a (s.nodes x).payload s ok (full h x refl)
  balance-step i a spurious s empty_begin ok full = omega (arith, balance-enter i a s ok)
  balance-step i a spurious s (empty_tail h t) ok full = omega (arith, balance-leave i a s ok)
  balance-step i a spurious s _ ok full = omega arith

  pub after_next-owns :
      (s : Shared A) (n t : ℕ) (link : Option ℕ)
      → (claims (after_next s n t link) ≡ none) × (owns (after_next s n t link) ≡ some n)
  unfolding after_next
  after_next-owns s n t none = elim (Bool-cases (s.tail == t)) [
    | inl e ↦ rw e (refl, refl)
    | inr e ↦ rw e (refl, refl)
  ]
  after_next-owns s n t (some x) = elim (Bool-cases (s.tail == t)) [
    | inl e ↦ rw e (refl, refl)
    | inr e ↦ rw e (refl, refl)
  ]

  -- What the nodes and the manager say of each other.
  abbrev pub Keeps : Ghost A → Shared A → (ℕ → Pc A) → Type ℓ
  Keeps g s pc = Settled g.is_linked g.rank g.hd s.fresh pc (λ a. balance a s.ebr)

  pub Keeps-swing :
      (g : Ghost A) (s : Shared A) (pc : ℕ → Pc A) (spurious : Bool) (t x : ℕ) (m : Manager)
      → Settled g.is_linked g.rank g.hd s.fresh pc (λ a. balance a m)
      → Keeps
          (if wins spurious s.tail t then advance_tail g else g)
          (record (swing_tail spurious t x s) { ebr = m })
          pc
  unfolding swing_tail advance_tail
  Keeps-swing g s pc spurious t x m ok = elim (Bool-cases (wins spurious s.tail t)) [
    | inl e ↦ rw e ok
    | inr e ↦ rw e ok
  ]
