-- ===== src/Mpmc/Link.antt =====
-- A new node, and its link at the end, against the queue's invariant and what other threads know.
use cccloud.Prelude.{ℕ, suc, ◌≡◌, ◌≢◌, true, Option, none, some, update, arith}
use cccloud.Mpmc.{
  Shared, Pc, enq_begin, enq_tail, enq_next, enq_swing, enq_help, deq_next, deq_help, deq_swap,
  deq_take, allocate, set_next,
}
use cccloud.Mpmc.Ghost.{Ghost, IsQueue, IsFine, owns, Owned}

module _ {ℓ} {A : Type ℓ} where
  pub allocate-IsQueue :
      (g : Ghost A) (s : Shared A) (v : A) → IsQueue g s → IsQueue g (allocate v s)
  unfolding allocate
  allocate-IsQueue g s v q = record {
    ordered = q.ordered;
    within = q.within;
    head_at = q.head_at;
    tail_at = q.tail_at;
    placed = q.placed;
    ranked = λ a h. ground (arith, q.ranked a h);
    links = λ i h. ground (arith, q.placed i, q.ranked (g.node_at i), q.links i h);
    last = λ i h. ground (arith, q.placed i, q.ranked (g.node_at i), q.last i h);
    filled = λ i h k. ground (arith, q.placed i, q.ranked (g.node_at i), q.filled i h k);
    valued = q.valued;
  }

  pub allocate-IsFine :
      (g : Ghost A) (s : Shared A) (v : A) (p : Pc A)
      → IsQueue g s
      → IsFine g s p
      → IsFine g (allocate v s) p
  unfolding allocate
  allocate-IsFine g s v (enq_begin w) q f = f
  allocate-IsFine g s v (enq_tail n t) q f = ground (arith, q.ranked t)
  allocate-IsFine g s v (enq_next n t none) q f = ground (arith, q.ranked t)
  allocate-IsFine g s v (enq_next n t (some x)) q f = ground (arith, q.ranked t)
  allocate-IsFine g s v (enq_swing n t) q f = ground (arith, q.ranked t)
  allocate-IsFine g s v (enq_help n t x) q f = ground (arith, q.ranked t)
  allocate-IsFine g s v (deq_next h t none) q f = ground (arith, q.ranked h)
  allocate-IsFine g s v (deq_next h t (some x)) q f = ground (arith, q.ranked h)
  allocate-IsFine g s v (deq_help t x) q f = ground (arith, q.ranked t)
  allocate-IsFine g s v (deq_swap h x) q f = ground (arith, q.ranked h)
  allocate-IsFine g s v (deq_take h x) q f = ground (arith, q.ranked x, q.ranked h)
  allocate-IsFine g s v _ q f = ground arith

  -- The ghost after `n`, with its value, is linked at the end.
  unfoldable pub append : Ghost A → ℕ → Option A → Ghost A
  append g n v = record g {
    node_at = update g.node_at g.size n;
    rank = update g.rank n g.size;
    is_linked = update g.is_linked n true;
    value = update g.value g.size v;
    size = suc g.size;
  }

  pub link-IsQueue :
      (g : Ghost A) (s : Shared A) (n t : ℕ)
      → IsQueue g s
      → Owned g s n
      → g.is_linked t ≡ true
      → (s.nodes t).next ≡ none
      → IsQueue (append g n (s.nodes n).payload) (set_next t n s)
  unfolding append set_next
  link-IsQueue g s n t q o l e = record {
    ordered = q.ordered;
    within = omega (arith, q.within);
    head_at = ground (arith, q.head_at, q.ordered, q.within);
    tail_at = ground (arith, q.tail_at, q.within);
    placed = λ i h. ground (arith, q.placed i);
    ranked = λ a h. ground (arith, q.ranked a);
    links = λ i h.
        ground (arith, q.ranked t, q.placed i, q.links i, q.links (g.rank t), q.placed (g.rank t));
    last = λ i h. ground (arith, q.ranked t);
    filled = λ i h k. ground (arith, q.ranked t, q.placed i, q.filled i);
    valued = λ i h k. ground (arith, q.valued i);
  }

  -- Another thread's locals, when `n` is linked behind `t`.
  pub link-IsFine :
      (g : Ghost A) (s : Shared A) (n t : ℕ) (p : Pc A)
      → IsQueue g s
      → Owned g s n
      → g.is_linked t ≡ true
      → (s.nodes t).next ≡ none
      → owns p ≢ some n
      → IsFine g s p
      → IsFine (append g n (s.nodes n).payload) (set_next t n s) p
  unfolding append set_next
  link-IsFine g s n t (enq_begin w) q o l e d f = f
  link-IsFine g s n t (enq_next m u none) q o l e d f = ground arith
  link-IsFine g s n t (enq_next m u (some x)) q o l e d f = ground arith
  link-IsFine g s n t (deq_next h u none) q o l e d f = ground arith
  link-IsFine g s n t (deq_next h u (some x)) q o l e d f = ground arith
  link-IsFine g s n t (deq_take h x) q o l e d f = ground (arith, q.ranked x)
  link-IsFine g s n t _ q o l e d f = ground arith
