-- ===== src/Ring/Threads/Safety.antt =====
-- Indices in range under every interleaving, and the calls against those of `Ring`.
use cccloud.Prelude.{ℕ, ◌<◌, ◌≡◌, arith, length-set}
use cccloud.Ring.{Ring, try_enqueue, try_dequeue}
use cccloud.Ring.Valid.{IsValid, next_index-lt}
use cccloud.Ring.Threads.{
  Pc, put_start, put_tail, put_swap, put_write, put_done, get_start, get_head, get_swap, get_read,
  got_done, step, steps, System, Step, begin_put, begin_get, move, Reach, here, later,
}

-- The index that a thread holds lies within `capacity`.
abbrev pub HoldsIndex {ℓ} : {A : Type ℓ} → ℕ → Pc A → Type 0
HoldsIndex c (put_tail v t) = t < c
HoldsIndex c (put_swap v t) = t < c
HoldsIndex c (put_write v t) = t < c
HoldsIndex c (get_head h) = h < c
HoldsIndex c (get_swap h) = h < c
HoldsIndex c (get_read h) = h < c
HoldsIndex c _ = Unit

module _ {ℓ} {A : Type ℓ} where
  pub record IsSafe (s : System A) : Type ℓ where
    pub ring : IsValid s.ring
    pub locals : (i : ℕ) → HoldsIndex s.ring.capacity (s.pc i)

  step-IsValid :
      (blank : A) (r : Ring A) (p : Pc A)
      → IsValid r
      → HoldsIndex r.capacity p
      → IsValid (step blank r p).0
        × HoldsIndex r.capacity (step blank r p).1
        × ((step blank r p).0.capacity ≡ r.capacity)
  unfolding step
  step-IsValid blank r (put_start v) ok h = ground arith
  step-IsValid blank r (put_swap v t) ok h = ground (arith, next_index-lt r.capacity t)
  step-IsValid blank r (get_swap t) ok h = ground (arith, next_index-lt r.capacity t)
  step-IsValid blank r (put_write v t) ok h = ground (arith, length-set r.buffer t v)
  step-IsValid blank r _ ok h = ground arith

  -- Every atomic step of every thread keeps all indices in range, shared and local.
  pub Step-IsSafe : {blank : A} {s t : System A} → Step blank s t → IsSafe s → IsSafe t
  Step-IsSafe (begin_put i v f) ok = record {
    ring = ok.ring;
    locals = λ j. ground (arith, ok.locals j);
  }
  Step-IsSafe (begin_get i f) ok = record {
    ring = ok.ring;
    locals = λ j. ground (arith, ok.locals j);
  }
  Step-IsSafe {blank} {s} (move i) ok =
      let (valid, mine, same) = step-IsValid blank s.ring (s.pc i) ok.ring (ok.locals i) in
      record { ring = valid; locals = λ j. ground (arith, ok.locals j) }

  -- However the threads interleave, a ring whose indices lie in range stays so, and so do the
  -- indices that the threads have loaded.
  pub Reach-IsSafe : {blank : A} {s t : System A} → Reach blank s t → IsSafe s → IsSafe t
  Reach-IsSafe here ok = ok
  Reach-IsSafe (later r st) ok = Step-IsSafe st (Reach-IsSafe r ok)

  steps-try_enqueue :
      (blank : A) (r : Ring A) (v : A)
      → steps blank 4 r (put_start v) ≡ (let (r', b) = try_enqueue r v in (r', put_done b))
  unfolding steps step try_enqueue
  steps-try_enqueue blank r v = ground arith

  steps-try_dequeue :
      (blank : A) (r : Ring A)
      → steps blank 4 r get_start ≡ (let (r', o) = try_dequeue blank r in (r', got_done o))
  unfolding steps step try_dequeue
  steps-try_dequeue blank r = ground arith

  -- Four steps of a thread that nobody interrupts do what `try_enqueue` and `try_dequeue` say, at
  -- every ring.
  pub steps_lem :
      (blank : A) (r : Ring A) (v : A)
      → (steps blank 4 r (put_start v) ≡ (let (r', b) = try_enqueue r v in (r', put_done b)))
        × (steps blank 4 r get_start ≡ (let (r', o) = try_dequeue blank r in (r', got_done o)))
  steps_lem blank r v = (steps-try_enqueue blank r v, steps-try_dequeue blank r)
