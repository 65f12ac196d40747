-- ===== src/Mpmc/Reclaimed.antt =====
-- What becomes of the nodes of the queue that `head` has passed: who is to retire them.
pub mod Step
pub mod Keeps
pub mod Once
use cccloud.Prelude.{
  ℕ, suc, ◌+◌, ◌≤◌, ◌<◌, ◌≡◌, ◌≢◌, ◌⊎◌, inl, inr, Bool, true, false, Option, none, some, update,
  arith, ℕ_discrete, sym, ap, subst, ◌∙◌, if◌then◌else◌, ◌==◌, ==_iff,
}
use cccloud.Mpmc.{Pc, deq_take}
use cccloud.Mpmc.Ghost.{owns}

module _ {ℓ} {A : Type ℓ} where
  -- The old head that a thread has passed and not yet retired.
  abbrev pub claims : Pc A → Option ℕ
  claims (deq_take h x) = some h
  claims _ = none

  -- `b a` is how often `a` was handed to the manager.
  pub record Settled (linked : ℕ → Bool) (rank : ℕ → ℕ) (hd fresh : ℕ) (pc : ℕ → Pc A) (b : ℕ → ℕ)
      : Type ℓ where
    pub kept : (a : ℕ) → (linked a ≡ true → hd ≤ rank a) → b a ≡ 0
    pub spent :
        (a : ℕ)
        → linked a ≡ true
        → rank a < hd
        → ((b a ≡ 1) × ((j : ℕ) → claims (pc j) ≢ some a))
          ⊎ ((b a ≡ 0) × ((j : ℕ) × (claims (pc j) ≡ some a)))
    pub owned : (a : ℕ) → a < fresh → linked a ≡ false → (j : ℕ) × (owns (pc j) ≡ some a)

  update_at : (pc : ℕ → Pc A) (i : ℕ) (p : Pc A) (f : Pc A → Option ℕ) → f (update pc i p i) ≡ f p
  update_at pc i p f = ground arith

  update_away :
      (pc : ℕ → Pc A) (i j : ℕ) (p : Pc A) (f : Pc A → Option ℕ)
      → i ≢ j
      → f (update pc i p j) ≡ f (pc j)
  update_away pc i j p f ne = ground arith

  -- A thread that stood at `p`, without `a`, is none of those with `a`; they stay.
  stays :
      (pc : ℕ → Pc A) (i : ℕ) (p' : Pc A) (f : Pc A → Option ℕ) (a j : ℕ)
      → f (pc i) ≢ some a
      → f (pc j) ≡ some a
      → f (update pc i p' j) ≡ some a
  stays pc i p' f a j not_here there = elim (ℕ_discrete i j) [
    | yes e ↦ absurd (not_here (subst (λ k. f (pc k) ≡ some a) (sym e) there))
    | no ne ↦ update_away pc i j p' f ne ∙ there
  ]

  none_new :
      (pc : ℕ → Pc A) (i : ℕ) (p' : Pc A) (f : Pc A → Option ℕ) (a j : ℕ)
      → f p' ≢ some a
      → (i ≢ j → f (pc j) ≢ some a)
      → f (update pc i p' j) ≢ some a
  none_new pc i p' f a j not_new others = λ h. elim (ℕ_discrete i j) [
    | yes e ↦
        not_new (sym (update_at pc i p' f) ∙ subst (λ k. f (update pc i p' k) ≡ some a) (sym e) h)
    | no ne ↦ others ne (sym (update_away pc i j p' f ne) ∙ h)
  ]

module _ {ℓ} {A : Type ℓ} {linked : ℕ → Bool} {rank : ℕ → ℕ} {hd fresh : ℕ} {pc : ℕ → Pc A}
    {b : ℕ → ℕ} (ok : Settled linked rank hd fresh pc b) (i : ℕ) where
  -- A step that claims nothing, retires nothing and keeps its node.
  pub quiet-Settled :
      (p' : Pc A) (b' : ℕ → ℕ)
      → claims (pc i) ≡ none
      → claims p' ≡ none
      → ((a : ℕ) → owns (pc i) ≡ some a → owns p' ≡ some a)
      → ((a : ℕ) → b' a ≡ b a)
      → Settled linked rank hd fresh (update pc i p') b'
  quiet-Settled p' b' before after keeps same = record {
    kept = λ a h. same a ∙ ok.kept a h;
    spent = λ a l r. elim (ok.spent a l r) [
      | inl (one, free) ↦
          inl (same a ∙ one, λ j. none_new pc i p' claims a j (λ h. cc) (λ ne. free j))
      | inr (zero_so_far, (j, there)) ↦
          inr (same a ∙ zero_so_far, (j, stays pc i p' claims a j (λ h. cc) there))
    ];
    owned = λ a f l.
        let (j, there) = ok.owned a f l in
        elim (ℕ_discrete i j) [
          | yes e ↦ (
            i,
            update_at pc i p' owns ∙ keeps a (subst (λ k. owns (pc k) ≡ some a) (sym e) there),
          )
          | no ne ↦ (j, update_away pc i j p' owns ne ∙ there)
        ];
  }

  -- A node is made.
  pub allocate-Settled :
      (p' : Pc A) (b' : ℕ → ℕ)
      → claims (pc i) ≡ none
      → claims p' ≡ none
      → owns (pc i) ≡ none
      → owns p' ≡ some fresh
      → ((a : ℕ) → b' a ≡ b a)
      → Settled linked rank hd (suc fresh) (update pc i p') b'
  allocate-Settled p' b' before after nothing_yet mine same =
      let still = quiet-Settled p' b' before after (λ a h. absurd (cc)) same in
      record {
        kept = still.kept;
        spent = still.spent;
        owned = λ a f l. elim (ℕ_discrete a fresh) [
          | yes e ↦ (i, update_at pc i p' owns ∙ (mine ∙ ap some (sym e)))
          | no ne ↦ still.owned a (omega (arith, f, ne)) l
        ];
      }

  -- The node `n` is linked at the end.
  pub link-Settled :
      (n size : ℕ) (p' : Pc A)
      → claims (pc i) ≡ none
      → claims p' ≡ none
      → owns (pc i) ≡ some n
      → linked n ≡ false
      → hd ≤ size
      → Settled (update linked n true) (update rank n size) hd fresh (update pc i p') b
  link-Settled n size p' before after mine new behind = record {
    kept = λ a h. ok.kept a (λ l. ground (arith, h));
    spent = λ a l r. elim (ℕ_discrete n a) [
      | yes e ↦ absurd (ground arith)
      | no ne ↦ elim (ok.spent a (ground arith) (ground arith)) [
        | inl (one, free) ↦ inl (one, λ j. none_new pc i p' claims a j (λ h. cc) (λ ne. free j))
        | inr (zero_so_far, (j, there)) ↦
            inr (zero_so_far, (j, stays pc i p' claims a j (λ h. cc) there))
      ]
    ];
    owned = λ a f l.
        let (j, there) = ok.owned a f (ground arith) in
        (j, stays pc i p' owns a j (λ h. ground arith) there);
  }

  -- `head` moves on from `h`.
  pub swap-Settled :
      (h x : ℕ)
      → claims (pc i) ≡ none
      → owns (pc i) ≡ none
      → linked h ≡ true
      → rank h ≡ hd
      → ((a : ℕ) → linked a ≡ true → rank a ≡ hd → a ≡ h)
      → Settled linked rank (suc hd) fresh (update pc i (deq_take h x)) b
  swap-Settled h x before nothing_owned l at_hd only = record {
    kept = λ a k. ok.kept a (λ m. omega (arith, k m));
    spent = λ a m r. elim (ℕ_discrete h a) [
      | yes e ↦ inr (
        ok.kept a (λ _. omega (arith, at_hd, ap rank e)),
        (i, update_at pc i (deq_take h x) claims ∙ ap some e),
      )
      | no ne ↦ elim (ok.spent a m (ground (arith, only a m))) [
        | inl (one, free) ↦ inl (
          one,
          λ j. none_new pc i (deq_take h x) claims a j (λ k. ground arith) (λ apart. free j),
        )
        | inr (zero_so_far, (j, there)) ↦
            inr (zero_so_far, (j, stays pc i (deq_take h x) claims a j (λ k. cc) there))
      ]
    ];
    owned = λ a f m.
        let (j, there) = ok.owned a f m in (j, stays pc i (deq_take h x) owns a j (λ k. cc) there);
  }

  -- The old head `h` is retired.
  pub retire-Settled :
      (h : ℕ) (p' : Pc A) (b' : ℕ → ℕ)
      → claims (pc i) ≡ some h
      → claims p' ≡ none
      → owns (pc i) ≡ none
      → linked h ≡ true
      → rank h < hd
      → ((j : ℕ) → claims (pc j) ≡ some h → i ≡ j)
      → ((a : ℕ) → b' a ≡ b a + (if h == a then 1 else 0))
      → Settled linked rank hd fresh (update pc i p') b'
  retire-Settled h p' b' before after nothing_owned l r alone adds = record {
    kept = λ a k. ground (arith, adds a, ok.kept a k, k);
    spent = λ a m s. elim (ℕ_discrete h a) [
      | yes e ↦ inl (
        ground (arith, adds a, not_yet, ap b e, e),
        λ j.
            none_new pc i p' claims a j (λ k. cc)
              (λ apart there. apart (alone j (there ∙ ap some (sym e)))),
      )
      | no ne ↦ elim (ok.spent a m s) [
        | inl (one, free) ↦
            inl (other a ne ∙ one, λ j. none_new pc i p' claims a j (λ k. cc) (λ apart. free j))
        | inr (zero_so_far, (j, there)) ↦
            inr (other a ne ∙ zero_so_far, (j, stays pc i p' claims a j (λ k. ground arith) there))
      ]
    ];
    owned = λ a f m. let (j, there) = ok.owned a f m in (j, stays pc i p' owns a j (λ k. cc) there);
  }
    where
      not_yet : b h ≡ 0
      not_yet = elim (ok.spent h l r) [
        | inl (one, free) ↦ absurd (free i before)
        | inr (zero_so_far, more) ↦ zero_so_far
      ]

      other : (a : ℕ) → h ≢ a → b' a ≡ b a
      other a ne = ground (arith, adds a)
