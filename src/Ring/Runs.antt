-- ===== src/Ring/Runs.antt =====
-- Sequences of calls on one ring, and the calls that spin.
use mathlib.Core.Option as Opt
use cccloud.Prelude.{
  ℕ_discrete, ◌↔◌, ◌<◌, inl, inr, ℕ, zero, suc, ◌+◌, ◌≡◌, refl, true, false, List, [], ◌∷◌, ◌++◌,
  none, some, arith, length, if◌then◌else◌, ltb, Bool-cases, Option-cases,
}
use cccloud.Ring.{next_index, Ring, try_enqueue, try_dequeue, is_empty, size, enqueue, dequeue}
use cccloud.Ring.Valid.{IsValid, try_enqueue-IsValid, try_dequeue-IsValid}
use cccloud.Ring.Queue.{
  Op, put, get, ask_empty, ask_size, Reply, stored, got, emptiness, count, queue_put, queue_get,
  queue_empty, queue_run,
}
use cccloud.Ring.Refine.{
  used-advance_tail, used_of_full, contents, length-contents, used_of_empty, size-used,
  used-advance_tail, try_enqueue_refines, try_dequeue_refines,
}

module _ {ℓ} {A : Type ℓ} where
  -- The calls of a client in order.
  unfoldable pub run : A → Ring A → List (Op A) → List (Reply A)
  run blank r [] = []
  run blank r (put v ∷ ops) = let (r', b) = try_enqueue r v in stored b ∷ run blank r' ops
  run blank r (get ∷ ops) = let (r', o) = try_dequeue blank r in got o ∷ run blank r' ops
  run blank r (ask_empty ∷ ops) = emptiness (is_empty r) ∷ run blank r ops
  run blank r (ask_size ∷ ops) = count (size r) ∷ run blank r ops

  capacity-try_enqueue : (r : Ring A) (v : A) → (try_enqueue r v).0.capacity ≡ r.capacity
  unfolding try_enqueue
  capacity-try_enqueue r v = ground arith

  capacity-try_dequeue : (blank : A) (r : Ring A) → (try_dequeue blank r).0.capacity ≡ r.capacity
  unfolding try_dequeue
  capacity-try_dequeue blank r = ground arith

  is_empty-eq : (blank : A) {r : Ring A} → IsValid r → is_empty r ≡ queue_empty (contents blank r)
  unfolding is_empty queue_empty
  is_empty-eq blank {r} ok = ground (arith, used_of_empty ok, length-contents blank r)

  size-eq : (blank : A) {r : Ring A} → IsValid r → size r ≡ length (contents blank r)
  size-eq blank {r} ok = omega (arith, size-used ok, length-contents blank r)

  -- On a valid ring `size` is below the capacity, is what the full test of `try_enqueue` compares, and
  -- is zero where `empty` holds and nowhere else.
  pub size-Bounds :
      (blank v : A) {r : Ring A}
      → IsValid r
      → (size r < r.capacity)
        × ((is_empty r ≡ true) ↔ (size r ≡ 0))
        × (((try_enqueue r v).1 ≡ false) ↔ (suc (size r) ≡ r.capacity))
  unfolding is_empty try_enqueue
  size-Bounds blank v {r} ok = elim (ℕ_discrete (next_index r.capacity r.tail) r.head) [
    | yes e ↦ ground (arith, size-used ok, used_of_empty ok, used_of_full ok e)
    | no e ↦ ground (arith, size-used ok, used_of_empty ok, used-advance_tail ok e r.buffer)
  ]

  -- No sequence of calls by one thread tells a valid ring from the queue of its contents.
  pub run_refines :
      (blank : A) (ops : List (Op A)) {r : Ring A}
      → IsValid r
      → run blank r ops ≡ queue_run r.capacity (contents blank r) ops
  unfolding run queue_run
  run_refines blank [] ok = refl
  run_refines blank (put v ∷ ops) {r} ok = rw (
    run_refines blank ops (try_enqueue-IsValid v ok),
    ← try_enqueue_refines blank v ok,
    capacity-try_enqueue r v,
  )
  run_refines blank (get ∷ ops) {r} ok = rw (
    run_refines blank ops (try_dequeue-IsValid blank ok),
    ← try_dequeue_refines blank ok,
    capacity-try_dequeue blank r,
  )
  run_refines blank (ask_empty ∷ ops) ok = rw (run_refines blank ops ok, is_empty-eq blank ok)
  run_refines blank (ask_size ∷ ops) ok = rw (run_refines blank ops ok, size-eq blank ok)

  try_enqueue-false : (r : Ring A) (v : A) → (try_enqueue r v).1 ≡ false → (try_enqueue r v).0 ≡ r
  unfolding try_enqueue
  try_enqueue-false r v e = ground arith

  try_dequeue-none :
      (blank : A) (r : Ring A) → (try_dequeue blank r).1 ≡ none → (try_dequeue blank r).0 ≡ r
  unfolding try_dequeue
  try_dequeue-none blank r e = ground arith

  enqueue_of_stored :
      (fuel : ℕ) (r : Ring A) (v : A)
      → (try_enqueue r v).1 ≡ true
      → enqueue (suc fuel) r v ≡ some (try_enqueue r v).0
  unfolding enqueue
  enqueue_of_stored fuel r v e = rw e

  enqueue_of_refused :
      (fuel : ℕ) (r : Ring A) (v : A) → (try_enqueue r v).1 ≡ false → enqueue fuel r v ≡ none
  unfolding enqueue
  enqueue_of_refused zero r v e = refl
  enqueue_of_refused (suc fuel) r v e =
      rw (e, try_enqueue-false r v e) (enqueue_of_refused fuel r v e)

  -- A call is decided at its first attempt: `enqueue`, with no other thread running.
  enqueue_lem :
      (blank : A) (fuel : ℕ) {r : Ring A} (v : A)
      → IsValid r
      → Opt.map (contents blank) (enqueue (suc fuel) r v) ≡ (
          if ltb (length (contents blank r) + 1) r.capacity
          then some (contents blank r ++ (v ∷ []))
          else none)
  unfolding queue_put
  enqueue_lem blank fuel {r} v ok = elim (Bool-cases (try_enqueue r v).1) [
    | inl e ↦ rw (enqueue_of_stored fuel r v e) (ground (arith, e, try_enqueue_refines blank v ok))
    | inr e ↦
        rw (enqueue_of_refused (suc fuel) r v e) (ground (arith, e, try_enqueue_refines blank v ok))
  ]

  dequeue_of_got :
      (blank : A) (fuel : ℕ) (r : Ring A) (v : A)
      → (try_dequeue blank r).1 ≡ some v
      → dequeue blank (suc fuel) r ≡ some ((try_dequeue blank r).0, v)
  unfolding dequeue
  dequeue_of_got blank fuel r v e = rw (e, dequeue)

  dequeue_of_none :
      (blank : A) (fuel : ℕ) (r : Ring A)
      → (try_dequeue blank r).1 ≡ none
      → dequeue blank fuel r ≡ none
  unfolding dequeue
  dequeue_of_none blank zero r e = refl
  dequeue_of_none blank (suc fuel) r e =
      rw (e, dequeue, try_dequeue-none blank r e) (dequeue_of_none blank fuel r e)

  dequeue_lem :
      (blank : A) (fuel : ℕ) {r : Ring A}
      → IsValid r
      → Opt.map {B = List A × A} (λ p. (contents blank p.0, p.1)) (dequeue blank (suc fuel) r)
        ≡ (let (q, o) = queue_get (contents blank r) in Opt.map {B = List A × A} (λ v. (q, v)) o)
  dequeue_lem blank fuel {r} ok = elim (Option-cases (try_dequeue blank r).1) [
    | inl e ↦ rw (dequeue_of_none blank (suc fuel) r e, ← try_dequeue_refines blank ok, e)
    | inr (v, e) ↦ rw (dequeue_of_got blank fuel r v e, ← try_dequeue_refines blank ok, e)
  ]

  -- With no other thread running: `enqueue` returns at its first attempt with the value at the end if
  -- a slot is free, and spins through any number of attempts if none is; `dequeue` returns the oldest
  -- value at its first attempt, and spins through any number of attempts on an empty ring.
  pub spinning_lem :
      (blank : A) (fuel : ℕ) {r : Ring A} (v : A)
      → IsValid r
      → (Opt.map (contents blank) (enqueue (suc fuel) r v) ≡ (
          if ltb (length (contents blank r) + 1) r.capacity
          then some (contents blank r ++ (v ∷ []))
          else none))
        × (Opt.map {B = List A × A} (λ p. (contents blank p.0, p.1)) (dequeue blank (suc fuel) r)
            ≡ (let (q, o) = queue_get (contents blank r) in
                Opt.map {B = List A × A} (λ v. (q, v)) o))
  spinning_lem blank fuel v ok = (enqueue_lem blank fuel v ok, dequeue_lem blank fuel ok)
