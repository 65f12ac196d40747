-- ===== src/Ring.antt =====
-- tools/RingBuffer.hpp: `LockFreeMPMCQueue<T>`, as run by one thread at a time.
-- `Ring/Threads` has the same calls one atomic access at a time.
pub mod Valid
pub mod Queue
pub mod Refine
pub mod Runs
pub mod Threads
mod Tests
use cccloud.Prelude.{
  ℕ, zero, suc, ◌+◌, ◌-◌, ◌%◌, ◌^◌, Bool, true, false, List, [], ◌∷◌, Option, none, some, get_or,
  set, replicate, if◌then◌else◌, ◌==◌, u64,
}

-- The member variables; `capacity_` is const. Values of `T` are only moved.
pub record Ring {ℓ} (A : Type ℓ) : Type ℓ where
  pub capacity : ℕ
  pub buffer : List A
  pub head : ℕ
  pub tail : ℕ

-- `compare_exchange_strong(expected, desired)`: whether it won, and the cell afterwards.
unfoldable pub compare_exchange : ℕ → ℕ → ℕ → Bool × ℕ
compare_exchange cell expected desired = if cell == expected then (true, desired) else (false, cell)

-- `(i + 1) % capacity_` in `size_t`.
unfoldable pub next_index : ℕ → ℕ → ℕ
next_index capacity i = u64 (i + 1) % capacity

module _ {ℓ} {A : Type ℓ} where
  -- The constructor; `blank` is the value-initialised `T()` that fills the vector.
  pub init : A → ℕ → Ring A
  init blank capacity = record {
    capacity = capacity;
    buffer = replicate capacity blank;
    head = 0;
    tail = 0;
  }

  pub try_enqueue : Ring A → A → Ring A × Bool
  unfolding compare_exchange
  try_enqueue r value =
      let next_tail = next_index r.capacity r.tail in
      if next_tail == r.head
      then (r, false)
      else (let (won, tail') = compare_exchange r.tail r.tail next_tail in
          if won
          then (record r { tail = tail'; buffer = set r.buffer r.tail value }, true)
          else (r, false))

  -- `blank` stands for what a read beyond the buffer would give.
  pub try_dequeue : A → Ring A → Ring A × Option A
  unfolding compare_exchange
  try_dequeue blank r =
      if r.head == r.tail
      then (r, none)
      else (let (won, head') = compare_exchange r.head r.head (next_index r.capacity r.head) in
          if won
          then (record r { head = head' }, some (get_or r.buffer r.head blank))
          else (r, none))

  pub is_empty : Ring A → Bool
  is_empty r = r.head == r.tail

  -- `(tail - head + capacity_) % capacity_`: both operations wrap in `size_t`.
  pub size : Ring A → ℕ
  size r = u64 (u64 (r.tail + 2 ^ 64 - r.head) + r.capacity) % r.capacity

  -- The spinning calls, with the number of attempts as fuel; `none` is a thread that still spins.
  pub enqueue : ℕ → Ring A → A → Option (Ring A)
  enqueue zero r value = none
  enqueue (suc fuel) r value =
      let (r', done) = try_enqueue r value in
      let rest = enqueue fuel r' value in if done then some r' else rest

  pub dequeue : A → ℕ → Ring A → Option (Ring A × A)
  dequeue blank zero r = none
  dequeue blank (suc fuel) r =
      let (r', got) = try_dequeue blank r in
      elim got [ some value ↦ some (r', value) | none ↦ dequeue blank fuel r' ]
