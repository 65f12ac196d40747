-- ===== src/Ring/Valid.antt =====
-- The representation invariant of `LockFreeMPMCQueue`: indices in range, no `size_t` sum wraps.
use cccloud.Prelude.{
  ℕ, ◌+◌, ◌%◌, ◌^◌, ◌≤◌, ◌<◌, ◌≡◌, ap, arith, length, length-set, length-replicate,
}
use cccloud.Ring.{Ring, next_index, init, try_enqueue, try_dequeue}

-- A vector holds at most half the address space, so `max_capacity` is no restriction.
abbrev pub max_capacity : ℕ
max_capacity = 2 ^ 63

module _ {ℓ} {A : Type ℓ} where
  pub record IsValid (r : Ring A) : Type ℓ where
    pub storage : length r.buffer ≡ r.capacity
    pub nonzero : 0 < r.capacity
    pub small : r.capacity ≤ max_capacity
    pub head_in : r.head < r.capacity
    pub tail_in : r.tail < r.capacity

pub next_index-lt : (c i : ℕ) → 0 < c → next_index c i < c
unfolding next_index
next_index-lt c i h = grind arith

-- The increment does not wrap in `size_t`.
pub next_index-eq : (c i : ℕ) → c ≤ max_capacity → i < c → next_index c i ≡ (i + 1) % c
unfolding next_index
next_index-eq c i small h = ap (λ k. k % c) (omega arith)

module _ {ℓ} {A : Type ℓ} where
  pub init-IsValid : (blank : A) (c : ℕ) → 0 < c → c ≤ max_capacity → IsValid (init blank c)
  unfolding init
  init-IsValid blank c pos small = ground (arith, length-replicate c blank)

  pub try_enqueue-IsValid : {r : Ring A} (v : A) → IsValid r → IsValid (try_enqueue r v).0
  unfolding try_enqueue
  try_enqueue-IsValid {r} v ok =
      ground (arith, next_index-lt r.capacity r.tail, length-set r.buffer r.tail v)

  pub try_dequeue-IsValid : (blank : A) {r : Ring A} → IsValid r → IsValid (try_dequeue blank r).0
  unfolding try_dequeue
  try_dequeue-IsValid blank {r} ok = ground (arith, next_index-lt r.capacity r.head)
