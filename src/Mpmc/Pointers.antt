-- ===== src/Mpmc/Pointers.antt =====
-- Moves of `tail` and `head`, and the emptying of a claimed node, keep the queue's invariant and
-- what other threads know.
use cccloud.Prelude.{dec_lt, ℕ, suc, ◌≤◌, ◌<◌, ◌≡◌, ◌≢◌, true, none, some, arith}
use cccloud.Mpmc.{Shared, Pc, enq_begin, enq_next, deq_tail, deq_next, deq_take, reset_payload}
use cccloud.Mpmc.Ghost.{Ghost, IsQueue, IsFine, takes}

module _ {ℓ} {A : Type ℓ} where
  -- The node after a linked one is linked, at the next position.
  pub next_is_linked :
      (g : Ghost A) (s : Shared A) (t x : ℕ)
      → IsQueue g s
      → g.is_linked t ≡ true
      → (s.nodes t).next ≡ some x
      → (g.is_linked x ≡ true)
        × (g.rank x ≡ suc (g.rank t))
        × (suc (g.rank t) < g.size)
        × (x ≡ g.node_at (suc (g.rank t)))
  next_is_linked g s t x q l e = elim (dec_lt (suc (g.rank t)) g.size) [
    | yes h ↦ ground (arith, q.ranked t l, q.links (g.rank t) h, q.placed (suc (g.rank t)) h)
    | no h ↦ absurd (ground (arith, q.ranked t l, q.last (g.rank t)))
  ]

  unfoldable pub advance_tail : Ghost A → Ghost A
  advance_tail g = record g { tl = suc g.tl }

  pub tail-IsQueue :
      (g : Ghost A) (s : Shared A) (x : ℕ)
      → IsQueue g s
      → (s.nodes s.tail).next ≡ some x
      → IsQueue (advance_tail g) (record s { tail = x })
  unfolding advance_tail
  tail-IsQueue g s x q e = record {
    ordered = omega (arith, q.ordered);
    within = found.2;
    head_at = q.head_at;
    tail_at = found.3;
    placed = q.placed;
    ranked = q.ranked;
    links = q.links;
    last = q.last;
    filled = q.filled;
    valued = q.valued;
  }
    where
      found :
          (g.is_linked x ≡ true)
          × (g.rank x ≡ suc g.tl)
          × (suc g.tl < g.size)
          × (x ≡ g.node_at (suc g.tl))
      found = ground (arith, q.tail_at, q.placed g.tl q.within, next_is_linked g s s.tail x q)

  pub tail-IsFine :
      (g : Ghost A) (s : Shared A) (x : ℕ) (p : Pc A)
      → IsFine g s p
      → IsFine (advance_tail g) (record s { tail = x }) p
  unfolding advance_tail
  tail-IsFine g s x (enq_begin w) f = f
  tail-IsFine g s x (enq_next m u none) f = f
  tail-IsFine g s x (enq_next m u (some y)) f = f
  tail-IsFine g s x (deq_tail h u) f = ground arith
  tail-IsFine g s x (deq_next h u none) f = ground arith
  tail-IsFine g s x (deq_next h u (some y)) f = ground arith
  tail-IsFine g s x _ f = ground arith

  unfoldable pub advance_head : Ghost A → Ghost A
  advance_head g = record g { hd = suc g.hd }

  pub head-IsQueue :
      (g : Ghost A) (s : Shared A) (x : ℕ)
      → IsQueue g s
      → (s.nodes s.head).next ≡ some x
      → g.hd < g.tl
      → IsQueue (advance_head g) (record s { head = x })
  unfolding advance_head
  head-IsQueue g s x q e behind = record {
    ordered = behind;
    within = q.within;
    head_at = found;
    tail_at = q.tail_at;
    placed = q.placed;
    ranked = q.ranked;
    links = q.links;
    last = q.last;
    filled = λ i h k. q.filled i (omega arith) k;
    valued = q.valued;
  }
    where
      found : x ≡ g.node_at (suc g.hd)
      found = ground (arith, q.head_at, q.within, q.placed g.hd, next_is_linked g s s.head x q)

  pub head-IsFine :
      (g : Ghost A) (s : Shared A) (x : ℕ) (p : Pc A)
      → IsFine g s p
      → IsFine (advance_head g) (record s { head = x }) p
  unfolding advance_head
  head-IsFine g s x (enq_begin w) f = f
  head-IsFine g s x (enq_next m u none) f = f
  head-IsFine g s x (enq_next m u (some y)) f = f
  head-IsFine g s x (deq_next h u none) f = ground arith
  head-IsFine g s x (deq_next h u (some y)) f = ground arith
  head-IsFine g s x _ f = ground arith

  pub reset-IsQueue :
      (g : Ghost A) (s : Shared A) (x : ℕ)
      → IsQueue g s
      → g.rank x ≤ g.hd
      → IsQueue g (reset_payload x s)
  unfolding reset_payload
  reset-IsQueue g s x q h = record {
    ordered = q.ordered;
    within = q.within;
    head_at = q.head_at;
    tail_at = q.tail_at;
    placed = q.placed;
    ranked = q.ranked;
    links = λ i k. ground (arith, q.links i k);
    last = λ i k. ground (arith, q.last i k);
    filled = λ i k l. ground (arith, q.filled i k l, q.placed i l);
    valued = q.valued;
  }

  -- Another thread's locals, when a claimed node is emptied.
  pub reset-IsFine :
      (g : Ghost A) (s : Shared A) (x : ℕ) (p : Pc A)
      → g.is_linked x ≡ true
      → takes p ≢ some x
      → IsFine g s p
      → IsFine g (reset_payload x s) p
  unfolding reset_payload
  reset-IsFine g s x (enq_begin w) l d f = f
  reset-IsFine g s x (enq_next m u none) l d f = ground arith
  reset-IsFine g s x (enq_next m u (some y)) l d f = ground arith
  reset-IsFine g s x (deq_next h u none) l d f = ground arith
  reset-IsFine g s x (deq_next h u (some y)) l d f = ground arith
  reset-IsFine g s x (deq_take h y) l d f = ground arith
  reset-IsFine g s x _ l d f = ground arith
