-- ===== src/Mpmc/Progress.antt =====
-- A thread of the queue that runs alone, from wherever the others have stopped.
use cccloud.Prelude.{
  update, dec_lt, ℕ, zero, suc, ◌-◌, ◌<◌, ◌≡◌, refl, sym, subst, true, false, List, none, some,
  arith,
}
use cccloud.Mpmc.{
  Shared, Pc, enq_begin, enq_loop, enq_tail, enq_next, enq_link, enq_swing, enq_help, enq_done,
  deq_begin, deq_loop, deq_head, deq_tail, deq_next, deq_help, deq_swap, deq_take, deq_done,
  empty_begin, empty_loop, empty_head, empty_tail, empty_done, step, finished, after_next,
  after_head,
}
use cccloud.Mpmc.Ghost.{Ghost, Inv}
use cccloud.Mpmc.Frame.{follow}
use cccloud.Mpmc.Invariant.{step-Inv}
use cccloud.Mpmc.Trace.{System, Event, Reach}
use cccloud.Mpmc.Linearizable.{Reach-Sound}
use cccloud.Mpmc.Alone.{alone, Ends, Ends-step, take-Ends}
use cccloud.Mpmc.Alone.Enqueue.{EndsIn, node-EndsIn, enqueue-Ends}
use cccloud.Mpmc.Alone.Dequeue.{dequeue-Ends}

module _ {ℓ} {A : Type ℓ} where
  -- The steps to a place from which the call is finished or starts a turn of its loop.
  distance : Pc A → ℕ
  distance (enq_begin v) = 1
  distance (enq_tail n t) = 3
  distance (enq_next n t link) = 2
  distance (enq_link n t) = 1
  distance (enq_help n t x) = 1
  distance deq_begin = 1
  distance (deq_head h) = 4
  distance (deq_tail h t) = 3
  distance (deq_next h t link) = 2
  distance (deq_help t x) = 1
  distance (deq_swap h x) = 1
  distance empty_begin = 4
  distance empty_loop = 3
  distance (empty_head h) = 2
  distance (empty_tail h t) = 1
  distance _ = 0

  distance_falls :
      (i : ℕ) (s : Shared A) (p : Pc A)
      → 0 < distance p
      → distance (step i false s p).1 < distance p
  unfolding distance step after_next after_head
  distance_falls i s (enq_next n t none) h = ground arith
  distance_falls i s (enq_next n t (some x)) h = ground arith
  distance_falls i s (deq_next h t none) pos = ground arith
  distance_falls i s (deq_next h t (some x)) pos = ground arith
  distance_falls i s p h = ground arith

  -- A thread at `p` among others, in a sound state.
  record Good (i : ℕ) (s : Shared A) (p : Pc A) : Type ℓ where
    ghost : Ghost A
    pc : ℕ → Pc A
    here : pc i ≡ p
    inv : Inv ghost s pc

  update_here : (pc : ℕ → Pc A) (i : ℕ) (p : Pc A) → update pc i p i ≡ p
  update_here pc i p = ground arith

  Good-step :
      (i : ℕ) (s : Shared A) (p : Pc A)
      → Good i s p
      → Good i (step i false s p).0 (step i false s p).1
  Good-step i s p w =
      subst (λ q. Good i (step i false s q).0 (step i false s q).1) w.here
        (record {
          ghost = follow false w.ghost s (w.pc i);
          pc = update w.pc i (step i false s (w.pc i)).1;
          here = update_here w.pc i (step i false s (w.pc i)).1;
          inv = step-Inv w.inv i false;
        })

  settled-Ends : (i : ℕ) (s : Shared A) (p : Pc A) → Good i s p → distance p ≡ 0 → Ends i s p
  unfolding distance alone step
  settled-Ends i s (enq_loop n) w e = enqueue-Ends i (w.ghost.size - 1 - w.ghost.tl) n s (
      subst (λ a. EndsIn s.nodes a (w.ghost.size - 1 - w.ghost.tl)) (sym w.inv.queue.tail_at)
        (node-EndsIn (w.ghost.size - 1 - w.ghost.tl) w.ghost.tl w.inv.queue
          (omega (arith, w.inv.queue.within))))
  settled-Ends i s (enq_swing n t) w e = (1, refl)
  settled-Ends i s enq_done w e = (0, refl)
  settled-Ends i s deq_loop w e = dequeue-Ends i s w.inv.queue
  settled-Ends i s (deq_take h x) w e = take-Ends i h x s
  settled-Ends i s (deq_done o) w e = (0, refl)
  settled-Ends i s (empty_done b) w e = (0, refl)
  settled-Ends i s p w e = absurd (omega (arith, e))

  Good-Ends : (d i : ℕ) (s : Shared A) (p : Pc A) → Good i s p → distance p < d → Ends i s p
  Good-Ends zero i s p w h = absurd (omega arith)
  Good-Ends (suc d) i s p w h = elim (dec_lt 0 (distance p)) [
    | no settled ↦ settled-Ends i s p w (omega arith)
    | yes pos ↦ Ends-step i s p (
        Good-Ends d i (step i false s p).0 (step i false s p).1 (Good-step i s p w)
          (omega (arith, h, distance_falls i s p pos)))
  ]

  -- No thread can be blocked by others: from every reachable state, with the others stopped
  -- wherever they are, a thread that runs alone finishes its call in a finite number of steps, if no
  -- compare-exchange fails for no reason.
  pub thread_alone_finishes :
      {s : System A} {es : List (Event A)}
      → Reach s es
      → (i : ℕ) → (k : ℕ) × (finished (alone i k s.shared (s.pc i)).1 ≡ true)
  thread_alone_finishes {s} r i =
      Good-Ends (suc (distance (s.pc i))) i s.shared (s.pc i)
        (record {
          ghost = (Reach-Sound r).ghost;
          pc = s.pc;
          here = refl;
          inv = (Reach-Sound r).inv;
        })
        (omega arith)
