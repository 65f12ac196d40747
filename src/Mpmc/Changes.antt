-- ===== src/Mpmc/Changes.antt =====
-- The steps that change nodes, `head` or `tail`, and the invariant.
use cccloud.Prelude.{
  inr, inl, Bool-cases, if◌then◌else◌, Bool, ℕ, suc, ◌≤◌, ◌<◌, ◌≡◌, true, false, none, some, refl,
  arith,
}
use cccloud.Epoch.{Manager}
use cccloud.Mpmc.{
  wins, swing_tail, Shared, Pc, enq_begin, enq_loop, enq_tail, enq_next, enq_link, enq_swing,
  enq_help, deq_swap, deq_take, deq_done, allocate, set_next, reset_payload,
}
use cccloud.Mpmc.Ghost.{Ghost, IsQueue, IsFine, owns, takes, Owned, Inv}
use cccloud.Mpmc.Link.{allocate-IsQueue, allocate-IsFine, append, link-IsQueue, link-IsFine}
use cccloud.Mpmc.Pointers.{
  advance_tail, next_is_linked, advance_head, head-IsQueue, head-IsFine, reset-IsQueue,
  reset-IsFine,
}
use cccloud.Mpmc.Frame.{
  local, moved_tail, ebr-IsQueue, ebr-IsFine, Comes, IsFine-here, owned_alone, taken_alone,
  linked_head,
}

module _ {ℓ} {A : Type ℓ} where
  owns_old :
      (g : Ghost A) (s : Shared A) (p : Pc A) (n : ℕ) → IsFine g s p → owns p ≡ some n → n < s.fresh
  owns_old g s (enq_loop m) n f e = ground arith
  owns_old g s (enq_tail m t) n f e = ground arith
  owns_old g s (enq_next m t none) n f e = ground arith
  owns_old g s (enq_next m t (some x)) n f e = ground arith
  owns_old g s (enq_link m t) n f e = ground arith
  owns_old g s (enq_help m t x) n f e = ground arith
  owns_old g s _ n f e = absurd (cc)

  pub takes_old :
      (g : Ghost A) (s : Shared A) (p : Pc A) (x : ℕ)
      → IsFine g s p
      → takes p ≡ some x
      → g.rank x ≤ g.hd
  takes_old g s (deq_take h y) x f e = ground arith
  takes_old g s _ x f e = absurd (cc)

  unlinked_fresh : (g : Ghost A) (s : Shared A) → IsQueue g s → g.is_linked s.fresh ≡ false
  unlinked_fresh g s q = ground (arith, q.ranked s.fresh)

module _ {ℓ} {A : Type ℓ} {g : Ghost A} {s : Shared A} {pc : ℕ → Pc A} (inv : Inv g s pc)
    (i : ℕ) where
  pub begin_enqueue-Comes :
      (v : A) (m : Manager)
      → pc i ≡ enq_begin v
      → Comes inv i g (record (allocate v s) { ebr = m }) (enq_loop s.fresh)
  unfolding allocate
  begin_enqueue-Comes v m e = record {
    queue = ebr-IsQueue g (allocate v s) m (allocate-IsQueue g s v inv.queue);
    mine = ground (arith, unlinked_fresh g s inv.queue);
    others = λ j ne.
        ebr-IsFine g (allocate v s) m (pc j) (allocate-IsFine g s v (pc j) inv.queue (inv.fine j));
    own = λ n h j ne other. ground (arith, owns_old g s (pc j) n (inv.fine j) other);
    take = λ x h. absurd (cc);
  }

  pub link-Comes :
      (n t : ℕ)
      → pc i ≡ enq_link n t
      → (s.nodes t).next ≡ none
      → Comes inv i (append g n (s.nodes n).payload) (set_next t n s) (enq_swing n t)
  unfolding append set_next
  link-Comes n t e last = record {
    queue = link-IsQueue g s n t inv.queue owned fine.1 last;
    mine = ground (arith, fine);
    others = λ j ne.
        link-IsFine g s n t (pc j) inv.queue owned fine.1 last
          (owned_alone inv i (enq_link n t) e n refl j ne) (inv.fine j);
    own = λ m h. absurd (cc);
    take = λ x h. absurd (cc);
  }
    where
      fine : IsFine g s (enq_link n t)
      fine = IsFine-here inv i (enq_link n t) e

      owned : Owned g s n
      owned = fine.0

  pub swap-Comes :
      (h x : ℕ)
      → pc i ≡ deq_swap h x
      → s.head ≡ h
      → Comes inv i (advance_head g) (record s { head = x }) (deq_take h x)
  unfolding advance_head
  swap-Comes h x e at_head = record {
    queue = head-IsQueue g s x inv.queue (rw at_head fine.2) (omega (arith, rank_h, fine.1));
    mine = ground (arith, fine, found, rank_h, inv.queue.filled (suc g.hd));
    others = λ j ne. head-IsFine g s x (pc j) (inv.fine j);
    own = λ m h. absurd (cc);
    take =
        λ y f j ne other. ground (arith, takes_old g s (pc j) y (inv.fine j) other, found, rank_h);
  }
    where
      fine : IsFine g s (deq_swap h x)
      fine = IsFine-here inv i (deq_swap h x) e

      rank_h : g.rank h ≡ g.hd
      rank_h = ground (arith, linked_head inv i (deq_swap h x) e)

      found :
          (g.is_linked x ≡ true)
          × (g.rank x ≡ suc (g.rank h))
          × (suc (g.rank h) < g.size)
          × (x ≡ g.node_at (suc (g.rank h)))
      found = next_is_linked g s h x inv.queue fine.0.0 fine.2

  pub take-Comes :
      (h x : ℕ) (v : A) (m : Manager)
      → pc i ≡ deq_take h x
      → Comes inv i g (record (reset_payload x s) { ebr = m }) (deq_done (some v))
  take-Comes h x v m e = record {
    queue = ebr-IsQueue g (reset_payload x s) m (reset-IsQueue g s x inv.queue fine.2);
    mine = tt;
    others = λ j ne. ebr-IsFine g (reset_payload x s) m (pc j) (
        reset-IsFine g s x (pc j) fine.0 (taken_alone inv i (deq_take h x) e x refl j ne)
          (inv.fine j));
    own = λ m h. absurd (cc);
    take = λ x h. absurd (cc);
  }
    where
      fine : IsFine g s (deq_take h x)
      fine = IsFine-here inv i (deq_take h x) e

  -- A compare-exchange of `tail` from `t` to the node after it, won or lost.
  pub swing-Comes :
      (spurious : Bool) (t x : ℕ) (e : Manager) (p p' : Pc A)
      → pc i ≡ p
      → (s.nodes t).next ≡ some x
      → IsFine g s p'
      → ((n : ℕ) → owns p' ≡ some n → owns p ≡ some n)
      → takes p' ≡ none
      → Comes inv i
          (if wins spurious s.tail t then advance_tail g else g)
          (record (swing_tail spurious t x s) { ebr = e })
          p'
  unfolding swing_tail wins
  swing-Comes spurious t x e p p' at_p next f keep free =
      elim (Bool-cases (wins spurious s.tail t)) [
        | inl won ↦ rw won (moved_tail inv i p at_p e x p' (ground arith) f keep free)
        | inr lost ↦ rw lost (local inv i p at_p e p' f keep free)
      ]
