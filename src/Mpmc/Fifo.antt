-- ===== src/Mpmc/Fifo.antt =====
-- The order in which values enter and leave the queue.
use cccloud.Prelude.{
  ap₂, ℕ, zero, suc, ◌+◌, ◌-◌, ◌≤◌, ◌<◌, ◌≡◌, Bool, true, false, List, [], ◌++◌, Option, update,
  arith, if◌then◌else◌, not, ◌&&◌, sym, ap, ◌∙◌, Bool-cases, Option-cases, inl, inr,
}
use mathlib.Core.List.{append-nil}
use cccloud.Mpmc.{Shared, Pc, enq_link, enq_swing, enq_help, deq_help, deq_swap, wins, is_null}
use cccloud.Mpmc.Ghost.{Ghost, IsFine, Inv}
use cccloud.Mpmc.Pointers.{advance_head, advance_tail, next_is_linked}
use cccloud.Mpmc.Link.{append}
use cccloud.Mpmc.Frame.{follow, IsFine-here, linked_head}
use cccloud.Mpmc.Invariant.{equal_of_won}
use cccloud.Mpmc.Trace.{Event, event, linked_event, claimed_event, Holds, at_end, and_then}
use cccloud.Mpmc.Books.{
  cons?, slice, slice-snoc, slice-update, enqueued-append, dequeued-append, Books, enqueued-linked,
  dequeued-linked, enqueued-claimed, dequeued-claimed,
}

module _ {ℓ} {A : Type ℓ} {g : Ghost A} {s : Shared A} {pc : ℕ → Pc A} (inv : Inv g s pc)
    (i : ℕ) where
  Books-nothing : (es : List (Event A)) → Books g es → Books g (es ++ [])
  Books-nothing es b = rw (append-nil es) b

  Books-tail :
      (es : List (Event A)) (won : Bool)
      → Books g es
      → Books (if won then advance_tail g else g) (es ++ [])
  unfolding advance_tail
  Books-tail es true b = record {
    came = rw (append-nil es) b.came;
    went = rw (append-nil es) b.went;
  }
  Books-tail es false b = rw (append-nil es) b

  Books-link :
      (es : List (Event A)) (n : ℕ)
      → Books g es
      → Books (append g n (s.nodes n).payload) (es ++ linked_event (s.nodes n).payload)
  unfolding append
  Books-link es n b = record {
    came =
        enqueued-append es _
        ∙ (ap₂ ◌++◌ (b.came ∙ sym (slice-update g.value 1 (g.size - 1) g.size o (omega arith)))
              (enqueued-linked o ∙ ap (λ u. cons? u []) at_size)
            ∙ (sym (slice-snoc value' 1 (g.size - 1)) ∙ ap (slice value' 1) (omega arith)));
    went =
        dequeued-append es _
        ∙ (ap₂ ◌++◌ b.went (dequeued-linked o)
            ∙ (append-nil _ ∙ sym (slice-update g.value 1 g.hd g.size o (omega arith))));
  }
    where
      o : Option A
      o = (s.nodes n).payload

      value' : ℕ → Option A
      value' = update g.value g.size o

      at_size : o ≡ value' (1 + (g.size - 1))
      at_size = ground arith

  Books-claim :
      (es : List (Event A)) (h x : ℕ)
      → pc i ≡ deq_swap h x
      → s.head ≡ h
      → Books g es
      → Books (advance_head g) (es ++ claimed_event i (s.nodes x).payload)
  unfolding advance_head
  Books-claim es h x e at_head b = record {
    came = enqueued-append es _ ∙ (ap₂ ◌++◌ b.came (enqueued-claimed i o) ∙ append-nil _);
    went =
        dequeued-append es _
        ∙ (ap₂ ◌++◌ b.went (dequeued-claimed i o ∙ ap (λ u. cons? u []) next_value)
            ∙ sym (slice-snoc g.value 1 g.hd));
  }
    where
      o : Option A
      o = (s.nodes x).payload

      fine : IsFine g s (deq_swap h x)
      fine = IsFine-here inv i (deq_swap h x) e

      found :
          (g.is_linked x ≡ true)
          × (g.rank x ≡ suc (g.rank h))
          × (suc (g.rank h) < g.size)
          × (x ≡ g.node_at (suc (g.rank h)))
      found = next_is_linked g s h x inv.queue fine.0.0 fine.2

      next_value : o ≡ g.value (1 + g.hd)
      next_value =
          ground (arith, found, linked_head inv i (deq_swap h x) e, inv.queue.filled (suc g.hd))

  pub Books-step :
      (es : List (Event A)) (spurious : Bool) (p : Pc A)
      → pc i ≡ p
      → Books g es
      → Books (follow spurious g s p) (es ++ event i spurious s p)
  unfolding follow event
  Books-step es spurious (enq_link n t) e b =
      elim (Bool-cases (not spurious && is_null (s.nodes t).next)) [
        | inl won ↦ rw won (Books-link es n b)
        | inr lost ↦ rw lost (Books-nothing es b)
      ]
  Books-step es spurious (deq_swap h x) e b = elim (Bool-cases (wins spurious s.head h)) [
    | inl won ↦ rw won (Books-claim es h x e (equal_of_won spurious s.head h won) b)
    | inr lost ↦ rw lost (Books-nothing es b)
  ]
  Books-step es spurious (enq_swing n t) e b = Books-tail es (wins spurious s.tail t) b
  Books-step es spurious (enq_help n t x) e b = Books-tail es (wins spurious s.tail t) b
  Books-step es spurious (deq_help t x) e b = Books-tail es (wins spurious s.tail t) b
  Books-step es spurious _ e b = Books-nothing es b

  -- The nodes after a position hold the values after it.
  pub Holds-from :
      (k a : ℕ)
      → g.hd ≤ a
      → suc (a + k) ≡ g.size
      → Holds s.nodes (g.node_at a) (slice g.value (suc a) k)
  unfolding slice
  Holds-from zero a h e = at_end (inv.queue.last a (omega arith))
  Holds-from (suc k) a h e = elim (Option-cases (g.value (suc a))) [
    | inl f ↦ absurd (inv.queue.valued (suc a) (omega arith) (omega arith) f)
    | inr (v, f) ↦ rw f (
        and_then (inv.queue.links a (omega arith))
          (inv.queue.filled (suc a) (omega arith) (omega arith) ∙ f)
          (Holds-from k (suc a) (omega arith) (omega arith)))
  ]
