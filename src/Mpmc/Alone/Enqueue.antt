-- ===== src/Mpmc/Alone/Enqueue.antt =====
-- An enqueue that runs alone, from the top of its loop.
use cccloud.Prelude.{
  ℕ, zero, suc, ◌+◌, ◌≡◌, refl, sym, subst, Option, none, some, arith, if_true, ◌==◌,
}
use cccloud.Mpmc.{
  Node, Shared, Pc, enq_loop, enq_tail, enq_next, enq_link, enq_help, step, after_next,
}
use cccloud.Mpmc.Ghost.{Ghost, IsQueue}
use cccloud.Mpmc.Alone.{eq_self, alone, Ends, Ends-step, swing_tail_alone}

module _ {ℓ} {A : Type ℓ} where
  -- `k` links lead from a node to the end.
  abbrev pub EndsIn : (ℕ → Node A) → ℕ → ℕ → Type 0
  EndsIn nodes a zero = (nodes a).next ≡ none
  EndsIn nodes a (suc k) = (b : ℕ) × ((nodes a).next ≡ some b) × EndsIn nodes b k

  pub node-EndsIn :
      {g : Ghost A} {s : Shared A} (k i : ℕ)
      → IsQueue g s
      → suc (i + k) ≡ g.size
      → EndsIn s.nodes (g.node_at i) k
  node-EndsIn zero i q e = q.last i (omega arith)
  node-EndsIn {g} (suc k) i q e =
      (g.node_at (suc i), q.links i (omega arith), node-EndsIn k (suc i) q (omega arith))

  -- After the second load of `tail`, which nobody has moved.
  abbrev helped : ℕ → Shared A → Option ℕ → Pc A
  helped n s none = enq_link n s.tail
  helped n s (some x) = enq_help n s.tail x

  Ends-after_next :
      (i n : ℕ) (link : Option ℕ) (s : Shared A)
      → Ends i s (helped n s link)
      → Ends i s (after_next s n s.tail link)
  unfolding after_next
  Ends-after_next i n none s h =
      subst (Ends i s)
        (sym (if_true (s.tail == s.tail) (enq_link n s.tail) (enq_loop n) (eq_self s.tail))) h
  Ends-after_next i n (some x) s h =
      subst (Ends i s)
        (sym (if_true (s.tail == s.tail) (enq_help n s.tail x) (enq_loop n) (eq_self s.tail))) h

  enq_link-Ends : (i n t : ℕ) (s : Shared A) → (s.nodes t).next ≡ none → Ends i s (enq_link n t)
  unfolding alone step
  enq_link-Ends i n t s e = (2, rw e refl)

  -- The first turn of the loop, up to what it does about `tail`.
  enqueue_turn :
      (i n : ℕ) (s : Shared A) → Ends i s (helped n s (s.nodes s.tail).next) → Ends i s (enq_loop n)
  unfolding step
  enqueue_turn i n s h = Ends-step i s (enq_loop n) (
      Ends-step i s (enq_tail n s.tail) (
        Ends-step i s (enq_next n s.tail (s.nodes s.tail).next)
          (Ends-after_next i n (s.nodes s.tail).next s h)))

  pub enqueue-Ends : (i k n : ℕ) (s : Shared A) → EndsIn s.nodes s.tail k → Ends i s (enq_loop n)
  unfolding step
  enqueue-Ends i zero n s e =
      enqueue_turn i n s
        (subst (λ l. Ends i s (helped n s l)) (sym e) (enq_link-Ends i n s.tail s e))
  enqueue-Ends i (suc k) n s (b, e, more) = enqueue_turn i n s (
      subst (λ l. Ends i s (helped n s l)) (sym e)
        (Ends-step i s (enq_help n s.tail b) (
          subst (λ s'. Ends i s' (enq_loop n)) (sym (swing_tail_alone b s))
            (enqueue-Ends i k n (record s { tail = b }) more))))
