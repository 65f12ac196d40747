-- ===== src/Mpmc/Alone/Dequeue.antt =====
-- A dequeue that runs alone, from the top of its loop.
use cccloud.Prelude.{
  dec_lt, ==_iff, ℕ, suc, ◌≡◌, refl, sym, ap, ◌∙◌, subst, inl, inr, true, false, none, some, arith,
  if◌then◌else◌, if_true, if_false, ◌==◌, Bool-cases,
}
use cccloud.Mpmc.{
  Shared, Pc, deq_loop, deq_head, deq_tail, deq_next, deq_help, deq_swap, deq_take, deq_done,
  finds_empty, leave, step, after_head, wins, is_null,
}
use cccloud.Mpmc.Ghost.{Ghost, IsQueue}
use cccloud.Mpmc.Alone.{eq_self, alone, Ends, Ends-step, swing_tail_alone, take-Ends}

module _ {ℓ} {A : Type ℓ} where
  swap-Ends : (i x : ℕ) (s : Shared A) → Ends i s (deq_swap s.head x)
  unfolding step wins
  swap-Ends i x s = Ends-step i s (deq_swap s.head x) (
      subst (λ (c : Shared A × Pc A). Ends i c.0 c.1)
        (sym (
          if_true (s.head == s.head) (record s { head = x }, deq_take s.head x) (s, deq_loop)
            (eq_self s.head)))
        (take-Ends i s.head x (record s { head = x })))

  finds_empty-some : (s : Shared A) (h t x : ℕ) → finds_empty s h t (some x) ≡ false
  unfolding finds_empty is_null
  finds_empty-some s h t x = ground arith

  -- The first turn of a dequeue, up to what it does about `head` and `tail`.
  dequeue_turn :
      (i x : ℕ) (s : Shared A)
      → (s.nodes s.head).next ≡ some x
      → Ends i s (after_head s.head s.tail (some x))
      → Ends i s deq_loop
  unfolding step
  dequeue_turn i x s e h = Ends-step i s deq_loop (
      Ends-step i s (deq_head s.head) (
        Ends-step i s (deq_tail s.head s.tail) (
          subst (λ l. Ends i s (deq_next s.head s.tail l)) (sym e)
            (Ends-step i s (deq_next s.head s.tail (some x)) (
              subst
                (λ s'.
                  Ends i s'
                    (if s.head == s.head then after_head s.head s.tail (some x) else deq_loop))
                (sym (if_false _ (leave i s) s (finds_empty-some s s.head s.tail x)))
                (subst (Ends i s)
                  (sym (
                    if_true (s.head == s.head) (after_head s.head s.tail (some x)) deq_loop
                      (eq_self s.head)))
                  h))))))

  empty-Ends :
      (i : ℕ) (s : Shared A) → (s.nodes s.head).next ≡ none → s.head ≡ s.tail → Ends i s deq_loop
  unfolding step after_head alone
  empty-Ends i s e same = Ends-step i s deq_loop (
      Ends-step i s (deq_head s.head) (
        Ends-step i s (deq_tail s.head s.tail) (
          subst (λ l. Ends i s (deq_next s.head s.tail l)) (sym e)
            (Ends-step i s (deq_next s.head s.tail none) (
              subst (Ends i (if finds_empty s s.head s.tail none then leave i s else s))
                (sym (
                  if_true (s.head == s.head) (if s.head == s.tail then deq_done none else deq_loop)
                    deq_loop (eq_self s.head)
                  ∙ if_true (s.head == s.tail) (deq_done none) deq_loop
                      ((==_iff s.head s.tail).1 same)))
                (0, refl))))))

  -- `tail` is past `head`.
  ahead-Ends :
      (i x : ℕ) (s : Shared A)
      → (s.nodes s.head).next ≡ some x
      → (s.head == s.tail) ≡ false
      → Ends i s deq_loop
  unfolding after_head
  ahead-Ends i x s e ne = dequeue_turn i x s e (
      subst (Ends i s)
        (sym (if_false (s.head == s.tail) (deq_help s.tail x) (deq_swap s.head x) ne))
        (swap-Ends i x s))

  behind-Ends :
      (i x : ℕ) (s : Shared A)
      → (s.nodes s.head).next ≡ some x
      → (s.head == x) ≡ false
      → (s.head == s.tail) ≡ true
      → Ends i s deq_loop
  unfolding after_head step
  behind-Ends i x s e ne same = dequeue_turn i x s e (
      subst (Ends i s)
        (sym (if_true (s.head == s.tail) (deq_help s.tail x) (deq_swap s.head x) same))
        (Ends-step i s (deq_help s.tail x) (
          subst (λ s'. Ends i s' deq_loop) (sym (swing_tail_alone x s))
            (ahead-Ends i x (record s { tail = x }) e ne))))

  pub dequeue-Ends : {g : Ghost A} (i : ℕ) (s : Shared A) → IsQueue g s → Ends i s deq_loop
  dequeue-Ends {g} i s q = elim (dec_lt (suc g.hd) g.size) [
    | no at_end ↦
        empty-Ends i s (rw q.head_at (q.last g.hd (omega (arith, q.ordered, q.within))))
          (q.head_at ∙ (ap g.node_at (omega (arith, q.ordered, q.within)) ∙ sym q.tail_at))
    | yes more ↦
        let x = g.node_at (suc g.hd) in
        let e : (s.nodes s.head).next ≡ some x = rw q.head_at (q.links g.hd more) in
        let ne : (s.head == x) ≡ false =
          ground (arith, q.head_at, q.placed g.hd, q.placed (suc g.hd)) in
        elim (Bool-cases (s.head == s.tail)) [
          | inl same ↦ behind-Ends i x s e ne same
          | inr apart ↦ ahead-Ends i x s e apart
        ]
  ]
