-- ===== src/Mpmc/Calls.antt =====
-- Calls of the queue that threads make one after the other, each from its start to its end.
pub mod Ended
pub mod Idle
pub mod Refines
use cccloud.Prelude.{
  false, Bool, ap₂, ℕ, ◌≡◌, ◌≢◌, refl, sym, ap, ◌∙◌, subst, true, List, [], ◌∷◌, ◌++◌, Option, none,
  some, arith, update, ℕ_discrete,
}
use mathlib.Core.List.{append-nil, append_assoc, append_cancel_left}
use cccloud.Mpmc.{Node, Shared, Pc, enq_begin, enq_done, deq_begin, empty_begin, deq_done, finished}
use cccloud.Mpmc.Trace.{
  System, Event, linked, claimed, begin_enqueue, begin_dequeue, Reach, begin, later, start,
  enqueued, dequeued, Holds, at_end, and_then,
}
use cccloud.Mpmc.Books.{
  enqueued-append, dequeued-append, enqueued-linked, dequeued-linked, enqueued-claimed,
  dequeued-claimed,
}
use cccloud.Mpmc.Linearizable.{fifo}
use cccloud.Mpmc.Solo.{solo, solo_events, Reach-solo, solo_finishes, pc-solo_ne}
use cccloud.Mpmc.Solo.Enqueue.{Enqueues, solo-Enqueues}
use cccloud.Mpmc.Solo.Dequeue.{Dequeues, solo-Dequeues}

module _ {ℓ} {A : Type ℓ} where
  -- Thread `i` begins a call.
  abbrev pub calling : ℕ → Pc A → System A → System A
  calling i p s = record s { pc = update s.pc i p }

  -- `enqueue` by thread `i`, with the number of its steps as fuel.
  pub enqueue : ℕ → ℕ → A → System A → System A
  enqueue fuel i v s = solo i fuel (calling i (enq_begin v) s)

  -- `dequeue` by thread `i`: the result is the value in `deq_done`.
  pub dequeue : ℕ → ℕ → System A → System A
  dequeue fuel i s = solo i fuel (calling i deq_begin s)

  -- `empty` by thread `i`: the answer is the value in `empty_done`.
  pub empty : ℕ → ℕ → System A → System A
  empty fuel i s = solo i fuel (calling i empty_begin s)

  -- A reachable state in which no call is under way, and the values that the queue holds.
  pub record IsIdle (s : System A) (vs : List A) : Type ℓ where
    pub events : List (Event A)
    pub reach : Reach s events
    pub order : enqueued events ≡ dequeued events ++ vs
    pub done : (j : ℕ) → finished (s.pc j) ≡ true
