-- ===== src/Mpmc.antt =====
-- tools/EBRQueue.hpp, `MPMCQueue<T>`: the Michael-Scott queue, one shared access at a time, with
-- any number of threads.
pub mod Trace
pub mod Ghost
pub mod Link
pub mod Pointers
pub mod Frame
pub mod Changes
pub mod Invariant
pub mod Books
pub mod Fifo
pub mod Linearizable
pub mod Memory
pub mod Alone
pub mod Progress
pub mod Solo
pub mod Reclaimed
pub mod Calls
pub mod Destroy
mod Tests
use cccloud.Prelude.{
  ℕ, suc, Bool, true, false, not, ◌&&◌, Option, none, some, if◌then◌else◌, ◌==◌, update,
}
use cccloud.Epoch.{Manager}
use cccloud.Epoch as Epoch

-- `Node`; a null `next` is `none`.
pub record Node {ℓ} (A : Type ℓ) : Type ℓ where
  pub payload : Option A
  pub next : Option ℕ

-- The queue, the nodes by address, the next free address, and the epoch manager. An address is
-- not used twice.
pub record Shared {ℓ} (A : Type ℓ) : Type ℓ where
  pub nodes : ℕ → Node A
  pub fresh : ℕ
  pub head : ℕ
  pub tail : ℕ
  pub ebr : Manager

-- Where a thread stands, with the locals that are live there: `n` is `new_node`, `t` is
-- `current_tail`, `h` is `current_head`, `x` or `link` is `next_node`.
pub data Pc {ℓ} (A : Type ℓ) : Type ℓ where
  enq_begin : A → Pc A  -- before the allocation and `enter`
  enq_loop : (n : ℕ) → Pc A  -- before the first load of `tail`
  enq_tail : (n t : ℕ) → Pc A  -- before the load of `current_tail->next`
  enq_next : (n t : ℕ) → (link : Option ℕ) → Pc A  -- before the second load of `tail`
  enq_link : (n t : ℕ) → Pc A  -- before the compare-exchange of `current_tail->next`
  enq_swing : (n t : ℕ) → Pc A  -- linked, before the compare-exchange of `tail`
  enq_help : (n t x : ℕ) → Pc A  -- before moving a `tail` that lags
  enq_done : Pc A
  deq_begin : Pc A  -- before `enter`
  deq_loop : Pc A  -- before the first load of `head`
  deq_head : (h : ℕ) → Pc A  -- before the load of `tail`
  deq_tail : (h t : ℕ) → Pc A  -- before the load of `current_head->next`
  deq_next : (h t : ℕ) → (link : Option ℕ) → Pc A  -- before the second load of `head`
  deq_help : (t x : ℕ) → Pc A  -- before moving a `tail` that lags
  deq_swap : (h x : ℕ) → Pc A  -- before the compare-exchange of `head`
  deq_take : (h x : ℕ) → Pc A  -- `head` moved, before the data is moved out
  deq_done : Option A → Pc A
  empty_begin : Pc A  -- before `enter`
  empty_loop : Pc A  -- before the load of `head`
  empty_head : (h : ℕ) → Pc A  -- before the load of `tail`
  empty_tail : (h t : ℕ) → Pc A  -- before the load of `current_head->next`
  empty_done : Bool → Pc A

-- Whether a compare-exchange wins; a weak one may also fail for no reason (`spurious`).
unfoldable pub wins : Bool → ℕ → ℕ → Bool
wins spurious cell expected = not spurious && cell == expected

unfoldable pub is_null : Option ℕ → Bool
is_null none = true
is_null (some x) = false

module _ {ℓ} {A : Type ℓ} where
  empty_node : Node A
  empty_node = record { payload = none; next = none }

  -- The constructor: a dummy node at address 0.
  pub init : Shared A
  unfolding empty_node
  init = record { nodes = λ _. empty_node; fresh = 1; head = 0; tail = 0; ebr = Epoch.init }

  pub allocate : A → Shared A → Shared A
  allocate v s = record s {
    nodes = update s.nodes s.fresh (record { payload = some v; next = none });
    fresh = suc s.fresh;
  }

  pub set_next : ℕ → ℕ → Shared A → Shared A
  set_next t n s = record s {
    nodes = update s.nodes t (record { payload = (s.nodes t).payload; next = some n });
  }

  pub reset_payload : ℕ → Shared A → Shared A
  reset_payload x s = record s {
    nodes = update s.nodes x (record { payload = none; next = (s.nodes x).next });
  }

  pub swing_tail : Bool → ℕ → ℕ → Shared A → Shared A
  unfolding wins
  swing_tail spurious t x s = if wins spurious s.tail t then record s { tail = x } else s

  pub enter : ℕ → Shared A → Shared A
  enter i s = record s { ebr = Epoch.enter i s.ebr }

  pub leave : ℕ → Shared A → Shared A
  leave i s = record s { ebr = Epoch.leave i s.ebr }

  pub retire : ℕ → ℕ → Shared A → Shared A
  retire i h s = record s { ebr = Epoch.retire i (some h) s.ebr }

  -- After the second load of `tail`: a tail that has moved sends the thread round again, as does
  -- one that it has to help.
  pub after_next : Shared A → ℕ → ℕ → Option ℕ → Pc A
  after_next s n t none = if s.tail == t then enq_link n t else enq_loop n
  after_next s n t (some x) = if s.tail == t then enq_help n t x else enq_loop n

  -- After the second load of `head`, where this has not moved.
  pub after_head : ℕ → ℕ → Option ℕ → Pc A
  after_head h t none = if h == t then deq_done none else deq_loop
  after_head h t (some x) = if h == t then deq_help t x else deq_swap h x

  -- The thread that finds the queue empty leaves.
  pub finds_empty : Shared A → ℕ → ℕ → Option ℕ → Bool
  unfolding is_null
  finds_empty s h t link = s.head == h && (h == t && is_null link)

  -- The data is moved out, the old head retired.
  take : ℕ → ℕ → ℕ → Option A → Shared A → Shared A × Pc A
  unfolding leave retire reset_payload
  take i h x none s = (leave i s, deq_done none)
  take i h x (some v) s = (leave i (retire i h (reset_payload x s)), deq_done (some v))

  -- One shared access of thread `i`, with the local work after it.
  pub step : ℕ → Bool → Shared A → Pc A → Shared A × Pc A
  unfolding wins is_null
  step i spurious s (enq_begin v) = (enter i (allocate v s), enq_loop s.fresh)
  step i spurious s (enq_loop n) = (s, enq_tail n s.tail)
  step i spurious s (enq_tail n t) = (s, enq_next n t (s.nodes t).next)
  step i spurious s (enq_next n t link) = (s, after_next s n t link)
  step i spurious s (enq_link n t) =
      if not spurious && is_null (s.nodes t).next
      then (set_next t n s, enq_swing n t)
      else (s, enq_loop n)
  step i spurious s (enq_swing n t) = (leave i (swing_tail spurious t n s), enq_done)
  step i spurious s (enq_help n t x) = (swing_tail spurious t x s, enq_loop n)
  step i spurious s enq_done = (s, enq_done)
  step i spurious s deq_begin = (enter i s, deq_loop)
  step i spurious s deq_loop = (s, deq_head s.head)
  step i spurious s (deq_head h) = (s, deq_tail h s.tail)
  step i spurious s (deq_tail h t) = (s, deq_next h t (s.nodes h).next)
  step i spurious s (deq_next h t link) = (
    if finds_empty s h t link then leave i s else s,
    if s.head == h then after_head h t link else deq_loop,
  )
  step i spurious s (deq_help t x) = (swing_tail spurious t x s, deq_loop)
  step i spurious s (deq_swap h x) =
      if wins spurious s.head h then (record s { head = x }, deq_take h x) else (s, deq_loop)
  step i spurious s (deq_take h x) = take i h x (s.nodes x).payload s
  step i spurious s (deq_done o) = (s, deq_done o)
  step i spurious s empty_begin = (enter i s, empty_loop)
  step i spurious s empty_loop = (s, empty_head s.head)
  step i spurious s (empty_head h) = (s, empty_tail h s.tail)
  step i spurious s (empty_tail h t) = (leave i s, empty_done (h == t && is_null (s.nodes h).next))
  step i spurious s (empty_done b) = (s, empty_done b)

  -- `empty()`, as a snapshot.
  pub is_empty : Shared A → Bool
  unfolding is_null
  is_empty s = s.head == s.tail && is_null (s.nodes s.head).next

  abbrev pub finished : Pc A → Bool
  finished enq_done = true
  finished (deq_done o) = true
  finished (empty_done b) = true
  finished _ = false
