-- ===== src/Mpmc/Alone.antt =====
-- Steps of one thread of the queue while no other moves.
pub mod Enqueue
pub mod Dequeue
use cccloud.Prelude.{
  update, ℕ_discrete, dec_lt, ==_iff, ℕ, zero, suc, ◌+◌, ◌-◌, ◌*◌, ◌^◌, ◌<◌, ◌≤◌, ◌≡◌, ◌≢◌, refl,
  sym, ap, ◌∙◌, subst, ◌⊎◌, inl, inr, Bool, true, false, not, ◌&&◌, ◌||◌, List, [], ◌∷◌, ◌++◌, map,
  Option, none, some, arith, length, length-append, if◌then◌else◌, if_true, if_false, ◌==◌, ltb,
  leb, Bool-cases, Option-cases, u64,
}
use cccloud.Mpmc.{
  Node, Shared, Pc, enq_begin, enq_loop, enq_tail, enq_next, enq_link, enq_swing, enq_help,
  enq_done, deq_begin, deq_loop, deq_head, deq_tail, deq_next, deq_help, deq_swap, deq_take,
  deq_done, finds_empty, leave, step, finished, take, swing_tail, after_next, after_head, wins,
  is_null,
}

pub eq_self : (a : ℕ) → (a == a) ≡ true
eq_self a = ground arith

module _ {ℓ} {A : Type ℓ} where
  -- `k` steps of thread `i`, none of which fails for no reason.
  unfoldable pub alone : ℕ → ℕ → Shared A → Pc A → Shared A × Pc A
  alone i zero s p = (s, p)
  alone i (suc k) s p = let (s', p') = step i false s p in alone i k s' p'

  -- Some number of steps ends the call.
  abbrev pub Ends : ℕ → Shared A → Pc A → Type 0
  Ends i s p = (k : ℕ) × (finished (alone i k s p).1 ≡ true)

  pub Ends-step :
      (i : ℕ) (s : Shared A) (p : Pc A)
      → Ends i (step i false s p).0 (step i false s p).1
      → Ends i s p
  unfolding alone
  Ends-step i s p (k, e) = (suc k, e)

  pub swing_tail_alone :
      (x : ℕ) (s : Shared A) → swing_tail false s.tail x s ≡ record s { tail = x }
  unfolding swing_tail wins
  swing_tail_alone x s = if_true (s.tail == s.tail) (record s { tail = x }) s (eq_self s.tail)

  pub take-Ends : (i h x : ℕ) (s : Shared A) → Ends i s (deq_take h x)
  unfolding alone step take
  take-Ends i h x s =
      (1, elim (Option-cases (s.nodes x).payload) [ inl e ↦ rw e refl | inr (v, e) ↦ rw e refl ])
