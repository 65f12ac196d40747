-- ===== src/Ring/Queue.antt =====
-- The bounded FIFO queue that `LockFreeMPMCQueue` promises, and what a client asks of it.
use cccloud.Prelude.{
  ℕ, ◌+◌, Bool, true, false, List, [], ◌∷◌, ◌++◌, Option, none, some, length, if◌then◌else◌, ltb,
}

-- What a client asks of a queue, and what it is told.
pub data Op {ℓ} (A : Type ℓ) : Type ℓ where
  put : A → Op A
  get : Op A
  ask_empty : Op A
  ask_size : Op A

pub data Reply {ℓ} (A : Type ℓ) : Type ℓ where
  stored : Bool → Reply A
  got : Option A → Reply A
  emptiness : Bool → Reply A
  count : ℕ → Reply A

module _ {ℓ} {A : Type ℓ} where
  -- The queue that the calls promise: values in order, one slot short of the capacity.
  unfoldable pub queue_put : ℕ → List A → A → List A × Bool
  queue_put c q v = if ltb (length q + 1) c then (q ++ (v ∷ []), true) else (q, false)

  unfoldable pub queue_get : List A → List A × Option A
  queue_get [] = ([], none)
  queue_get (v ∷ q) = (q, some v)

  unfoldable pub queue_empty : List A → Bool
  queue_empty [] = true
  queue_empty (v ∷ q) = false

  unfoldable pub queue_run : ℕ → List A → List (Op A) → List (Reply A)
  queue_run c q [] = []
  queue_run c q (put v ∷ ops) = let (q', b) = queue_put c q v in stored b ∷ queue_run c q' ops
  queue_run c q (get ∷ ops) = let (q', o) = queue_get q in got o ∷ queue_run c q' ops
  queue_run c q (ask_empty ∷ ops) = emptiness (queue_empty q) ∷ queue_run c q ops
  queue_run c q (ask_size ∷ ops) = count (length q) ∷ queue_run c q ops
