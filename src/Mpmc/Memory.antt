-- ===== src/Mpmc/Memory.antt =====
-- The nodes that the threads of the queue touch, and whether they are there.
use cccloud.Prelude.{
  ℕ, ◌<◌, ◌≡◌, Bool, true, false, List, [], Option, none, some, arith, if◌then◌else◌, not, ◌&&◌,
  ◌∙◌, Bool-cases, inl, inr,
}
use cccloud.Epoch.{Manager}
use cccloud.Epoch.Registry.{IsLinked}
use cccloud.Epoch.Accounts.{step-Accounts}
use cccloud.Epoch.Conservation.{init-IsLinked, init_start}
use cccloud.Epoch.History.{Call, enters, leaves, retires}
use cccloud.Epoch.History as History
use cccloud.Epoch.Safety.{IsQueueCall, step-Keeps}
use cccloud.Mpmc.{
  Shared, Pc, enq_begin, enq_tail, enq_link, enq_swing, enq_help, deq_begin, deq_tail, deq_next,
  deq_help, deq_swap, deq_take, empty_begin, empty_tail, init, wins, is_null, step, take, allocate,
  set_next, reset_payload, swing_tail, enter, leave, retire, finds_empty,
}
use cccloud.Mpmc.Ghost.{Ghost, IsQueue, IsFine}
use cccloud.Mpmc.Trace.{
  System, Event, begin_enqueue, begin_dequeue, begin_empty, move, Reach, begin, later,
}
use cccloud.Mpmc.Linearizable.{Reach-Sound}

-- The epoch manager of a queue that lives: nothing deleted, the epoch where it started.
pub record IsQuiet (m : Manager) : Type 0 where
  pub linked : IsLinked m
  epoch : m.global_epoch ≡ 0
  pub freed : m.freed ≡ []

call-IsQuiet : (c : Call) (m : Manager) → IsQueueCall c → IsQuiet m → IsQuiet (History.step c m)
call-IsQuiet c m q ok =
    let keeps = step-Keeps c m q ok.linked (omega (arith, ok.epoch)) in
    record {
      linked = (step-Accounts c m ok.linked).linked;
      epoch = keeps.epoch ∙ ok.epoch;
      freed = keeps.freed ∙ ok.freed;
    }

module _ {ℓ} {A : Type ℓ} where
  enter-IsQuiet : (i : ℕ) (s : Shared A) → IsQuiet s.ebr → IsQuiet (enter i s).ebr
  unfolding enter History.step
  enter-IsQuiet i s ok = call-IsQuiet (enters i) s.ebr tt ok

  leave-IsQuiet : (i : ℕ) (s : Shared A) → IsQuiet s.ebr → IsQuiet (leave i s).ebr
  unfolding leave History.step
  leave-IsQuiet i s ok = call-IsQuiet (leaves i) s.ebr tt ok

  retire-IsQuiet : (i h : ℕ) (s : Shared A) → IsQuiet s.ebr → IsQuiet (retire i h s).ebr
  unfolding retire History.step
  retire-IsQuiet i h s ok = call-IsQuiet (retires i (some h)) s.ebr tt ok

  if-IsQuiet :
      (b : Bool) (s t : Shared A) → IsQuiet s.ebr → IsQuiet t.ebr → IsQuiet (if b then s else t).ebr
  if-IsQuiet true s t f g = f
  if-IsQuiet false s t f g = g

  swing_tail-IsQuiet :
      (spurious : Bool) (t x : ℕ) (s : Shared A)
      → IsQuiet s.ebr
      → IsQuiet (swing_tail spurious t x s).ebr
  unfolding swing_tail
  swing_tail-IsQuiet spurious t x s ok = if-IsQuiet (wins spurious s.tail t) _ s ok ok

  take-IsQuiet :
      (i h x : ℕ) (o : Option A) (s : Shared A) → IsQuiet s.ebr → IsQuiet (take i h x o s).0.ebr
  unfolding take reset_payload
  take-IsQuiet i h x none s ok = leave-IsQuiet i s ok
  take-IsQuiet i h x (some v) s ok =
      leave-IsQuiet i (retire i h (reset_payload x s)) (retire-IsQuiet i h (reset_payload x s) ok)

  step-IsQuiet :
      (i : ℕ) (spurious : Bool) (s : Shared A) (p : Pc A)
      → IsQuiet s.ebr
      → IsQuiet (step i spurious s p).0.ebr
  unfolding step allocate set_next
  step-IsQuiet i spurious s (enq_begin v) ok = enter-IsQuiet i (allocate v s) ok
  step-IsQuiet i spurious s (enq_link n t) ok =
      elim (Bool-cases (not spurious && is_null (s.nodes t).next)) [
        | inl e ↦ rw e ok
        | inr e ↦ rw e ok
      ]
  step-IsQuiet i spurious s (enq_swing n t) ok =
      leave-IsQuiet i (swing_tail spurious t n s) (swing_tail-IsQuiet spurious t n s ok)
  step-IsQuiet i spurious s (enq_help n t x) ok = swing_tail-IsQuiet spurious t x s ok
  step-IsQuiet i spurious s deq_begin ok = enter-IsQuiet i s ok
  step-IsQuiet i spurious s (deq_next h t link) ok =
      if-IsQuiet (finds_empty s h t link) (leave i s) s (leave-IsQuiet i s ok) ok
  step-IsQuiet i spurious s (deq_help t x) ok = swing_tail-IsQuiet spurious t x s ok
  step-IsQuiet i spurious s (deq_swap h x) ok = elim (Bool-cases (wins spurious s.head h)) [
    | inl e ↦ rw e ok
    | inr e ↦ rw e ok
  ]
  step-IsQuiet i spurious s (deq_take h x) ok = take-IsQuiet i h x (s.nodes x).payload s ok
  step-IsQuiet i spurious s empty_begin ok = enter-IsQuiet i s ok
  step-IsQuiet i spurious s (empty_tail h t) ok = leave-IsQuiet i s ok
  step-IsQuiet i spurious s _ ok = ok

  pub Reach-IsQuiet : {s : System A} {es : List (Event A)} → Reach s es → IsQuiet s.shared.ebr
  unfolding init
  Reach-IsQuiet begin = record {
    linked = init-IsLinked;
    epoch = init_start.0;
    freed = init_start.1;
  }
  Reach-IsQuiet (later r (begin_enqueue i v f)) = Reach-IsQuiet r
  Reach-IsQuiet (later r (begin_dequeue i f)) = Reach-IsQuiet r
  Reach-IsQuiet (later r (begin_empty i f)) = Reach-IsQuiet r
  Reach-IsQuiet (later {s} r (move i spurious)) =
      step-IsQuiet i spurious s.shared (s.pc i) (Reach-IsQuiet r)

  -- The node that a thread is about to read or write through a pointer.
  unfoldable pub touches : Pc A → Option ℕ
  touches (enq_tail n t) = some t
  touches (enq_link n t) = some t
  touches (deq_tail h t) = some h
  touches (deq_take h x) = some x
  touches (empty_tail h t) = some h
  touches _ = none

  touched_is_allocated :
      (g : Ghost A) (s : Shared A) (p : Pc A) (a : ℕ)
      → IsQueue g s
      → IsFine g s p
      → touches p ≡ some a
      → a < s.fresh
  unfolding touches
  touched_is_allocated g s (enq_tail n t) a q f e = ground (arith, q.ranked t)
  touched_is_allocated g s (enq_link n t) a q f e = ground (arith, q.ranked t)
  touched_is_allocated g s (deq_tail h t) a q f e = ground (arith, q.ranked h)
  touched_is_allocated g s (deq_take h x) a q f e = ground (arith, q.ranked x)
  touched_is_allocated g s (empty_tail h t) a q f e = ground (arith, q.ranked h)
  touched_is_allocated g s _ a q f e = absurd (cc)

  -- In every reachable state no node has been deleted, and every pointer that a thread is about
  -- to follow leads to a node that was allocated.
  pub touched_nodes_are_live :
      {s : System A} {es : List (Event A)}
      → Reach s es
      → (s.shared.ebr.freed ≡ []) × ((i a : ℕ) → touches (s.pc i) ≡ some a → a < s.shared.fresh)
  touched_nodes_are_live {s} r = (
    (Reach-IsQuiet r).freed,
    λ i a e.
        touched_is_allocated (Reach-Sound r).ghost s.shared (s.pc i) a (Reach-Sound r).inv.queue
          ((Reach-Sound r).inv.fine i) e,
  )
