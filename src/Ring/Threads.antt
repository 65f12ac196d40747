-- ===== src/Ring/Threads.antt =====
-- `try_enqueue` and `try_dequeue` one atomic access at a time, and threads that interleave.
pub mod Safety
pub mod Races
use cccloud.Prelude.{
  update, ℕ, zero, suc, ◌≡◌, Bool, true, false, List, [], ◌∷◌, Option, none, some, get_or, set,
  if◌then◌else◌, ◌==◌, ℕ_discrete,
}
use cccloud.Ring.{Ring, compare_exchange, next_index}

-- Where a thread stands, with the locals that are live there. `put_done` and `got_done` hold the
-- results of the call that ended there.
pub data Pc {ℓ} (A : Type ℓ) : Type ℓ where
  put_start : A → Pc A  -- before the load of `tail_`
  put_tail : A → ℕ → Pc A  -- `current_tail` loaded, before the load of `head_`
  put_swap : A → ℕ → Pc A  -- the ring looked not full, before the compare-exchange
  put_write : A → ℕ → Pc A  -- the index is taken, before the write of the slot
  put_done : Bool → Pc A
  get_start : Pc A  -- before the load of `head_`
  get_head : ℕ → Pc A  -- `current_head` loaded, before the load of `tail_`
  get_swap : ℕ → Pc A  -- the ring looked not empty, before the compare-exchange
  get_read : ℕ → Pc A  -- the index is taken, before the read of the slot
  got_done : Option A → Pc A

module _ {ℓ} {A : Type ℓ} where
  -- One shared access of a thread with the local work that follows it.
  unfoldable pub step : A → Ring A → Pc A → Ring A × Pc A
  unfolding compare_exchange
  step blank r (put_start v) = (r, put_tail v r.tail)
  step blank r (put_tail v t) =
      (r, if next_index r.capacity t == r.head then put_done false else put_swap v t)
  step blank r (put_swap v t) =
      let (won, tail') = compare_exchange r.tail t (next_index r.capacity t) in
      (record r { tail = tail' }, if won then put_write v t else put_done false)
  step blank r (put_write v t) = (record r { buffer = set r.buffer t v }, put_done true)
  step blank r (put_done b) = (r, put_done b)
  step blank r get_start = (r, get_head r.head)
  step blank r (get_head h) = (r, if h == r.tail then got_done none else get_swap h)
  step blank r (get_swap h) =
      let (won, head') = compare_exchange r.head h (next_index r.capacity h) in
      (record r { head = head' }, if won then get_read h else got_done none)
  step blank r (get_read h) = (r, got_done (some (get_or r.buffer h blank)))
  step blank r (got_done o) = (r, got_done o)

  -- `n` steps of one thread with no other in between.
  unfoldable pub steps : A → ℕ → Ring A → Pc A → Ring A × Pc A
  steps blank zero r p = (r, p)
  steps blank (suc n) r p = let (r', p') = step blank r p in steps blank n r' p'

-- Threads over one ring. A thread that has finished a call may begin another.
pub record System {ℓ} (A : Type ℓ) : Type ℓ where
  pub ring : Ring A
  pub pc : ℕ → Pc A

abbrev pub finished {ℓ} : {A : Type ℓ} → Pc A → Bool
finished (put_done b) = true
finished (got_done o) = true
finished _ = false

pub data Step {ℓ} {A : Type ℓ} (blank : A) (s : System A) : System A → Type ℓ where
  begin_put :
      (i : ℕ) (v : A)
      → finished (s.pc i) ≡ true
      → Step blank s (record s { pc = update s.pc i (put_start v) })
  begin_get :
      (i : ℕ) → finished (s.pc i) ≡ true → Step blank s (record s { pc = update s.pc i get_start })
  move :
      (i : ℕ)
      → Step blank s (record {
        ring = (step blank s.ring (s.pc i)).0;
        pc = update s.pc i (step blank s.ring (s.pc i)).1;
      })

pub data Reach {ℓ} {A : Type ℓ} (blank : A) (s : System A) : System A → Type ℓ where
  here : Reach blank s s
  later : {t u : System A} → Reach blank s t → Step blank t u → Reach blank s u
