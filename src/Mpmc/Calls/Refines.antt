-- ===== src/Mpmc/Calls/Refines.antt =====
-- tools/EBRQueue.hpp, `MPMCQueue<T> : public BaseQueue<T>`: the queue behind the interface.
use cccloud.Prelude.{ℕ, ◌≡◌, refl, ap, List, [], ◌∷◌, ◌++◌, Option, none, Bool, false}
use cccloud.Mpmc.{Pc, deq_done, empty_done}
use cccloud.Mpmc.Trace.{System, start}
use cccloud.Queue.{BaseQueue, head?, tail, is_nil}
use cccloud.Queue.Client.{Op, Reply, run, run-list_run, list_run}
use cccloud.Mpmc.Calls.{enqueue, dequeue, empty, IsIdle}
use cccloud.Mpmc.Calls.Idle.{
  enqueue_ends, dequeue_ends, enqueue-IsIdle, dequeue-IsIdle, start-IsIdle, empty_ends,
  empty-IsIdle,
}

-- The value that `dequeue` hands to its caller; `none` is the result false.
unfoldable pub result {ℓ} : {A : Type ℓ} → Pc A → Option A
result (deq_done o) = o
result p = none

-- The answer of `empty`.
unfoldable pub answer {ℓ} : {A : Type ℓ} → Pc A → Bool
answer (empty_done b) = b
answer p = false

-- A queue between two calls.
pub record Idle (A : Type 0) : Type 0 where
  pub system : System A
  pub held : List A
  pub idle : IsIdle system held

module _ {A : Type 0} where
  unfoldable pub enqueue_idle : ℕ → A → Idle A → Idle A
  enqueue_idle i v s =
      let (k, ends) = enqueue_ends s.idle i v in
      record {
        system = enqueue k i v s.system;
        held = s.held ++ (v ∷ []);
        idle = (enqueue-IsIdle s.idle i v k ends).1;
      }

  dequeue_idle : ℕ → Idle A → Idle A × Option A
  unfolding result
  dequeue_idle i s =
      let (k, ends) = dequeue_ends s.idle i in
      (
        record {
          system = dequeue k i s.system;
          held = tail s.held;
          idle = (dequeue-IsIdle s.idle i k ends).1;
        },
        result ((dequeue k i s.system).pc i),
      )

  result-dequeue_idle : (i : ℕ) (s : Idle A) → (dequeue_idle i s).1 ≡ head? s.held
  unfolding dequeue_idle result
  result-dequeue_idle i s =
      let (k, ends) = dequeue_ends s.idle i in ap result (dequeue-IsIdle s.idle i k ends).0

  empty_idle : ℕ → Idle A → Idle A × Bool
  unfolding answer
  empty_idle i s =
      let (k, ends) = empty_ends s.idle i in
      (
        record {
          system = empty k i s.system;
          held = s.held;
          idle = (empty-IsIdle s.idle i k ends).1;
        },
        answer ((empty k i s.system).pc i),
      )

  result-empty_idle : (i : ℕ) (s : Idle A) → (empty_idle i s).1 ≡ is_nil s.held
  unfolding empty_idle answer
  result-empty_idle i s =
      let (k, ends) = empty_ends s.idle i in ap answer (empty-IsIdle s.idle i k ends).0

  -- `MPMCQueue` keeps the promise of `BaseQueue`.
  unfoldable pub mpmc_queue : BaseQueue A
  unfolding enqueue_idle dequeue_idle empty_idle result-dequeue_idle result-empty_idle
  mpmc_queue = record {
    State = Idle A;
    values = λ s. s.held;
    enqueue = enqueue_idle;
    dequeue = dequeue_idle;
    empty = empty_idle;
    values-enqueue = λ i v s. refl;
    result-dequeue = result-dequeue_idle;
    values-dequeue = λ i s. refl;
    result-empty = result-empty_idle;
    values-empty = λ i s. refl;
  }

  unfoldable pub idle_start : Idle A
  idle_start = record { system = start; held = []; idle = start-IsIdle }

  -- The answers to calls made one after the other.
  unfoldable pub answers : Idle A → List (Op A) → List (Reply A)
  unfolding mpmc_queue
  answers s ops = run mpmc_queue s ops

  -- From any moment at which no call is under way, calls made one after the other, each by any
  -- thread and run to its end, in which no weak compare-exchange fails for no reason, all come to their
  -- end and answer as a list whose end takes and whose start gives.
  pub calls_refine : (s : Idle A) (ops : List (Op A)) → answers s ops ≡ list_run s.held ops
  unfolding mpmc_queue answers
  calls_refine s ops = run-list_run mpmc_queue s ops
