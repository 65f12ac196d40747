-- ===== src/Queue.antt =====
-- tools/BaseQueue.hpp: what a queue of the logger promises.
pub mod Client
use cccloud.Prelude.{ℕ, ◌≡◌, Bool, true, false, List, [], ◌∷◌, ◌++◌, Option, none, some}

module _ {ℓ} {A : Type ℓ} where
  abbrev pub head? : List A → Option A
  head? [] = none
  head? (v ∷ vs) = some v

  abbrev pub tail : List A → List A
  tail [] = []
  tail (v ∷ vs) = vs

  abbrev pub is_nil : List A → Bool
  is_nil [] = true
  is_nil (v ∷ vs) = false

-- The three methods, each called by a thread while no other call is under way; `values` is what the
-- queue holds. `dequeue` gives the value that it writes to its argument, or `none` where it is false.
pub record BaseQueue (A : Type 0) : Type 1 where
  pub State : Type 0
  pub values : State → List A
  pub enqueue : ℕ → A → State → State
  pub dequeue : ℕ → State → State × Option A
  pub empty : ℕ → State → State × Bool
  pub values-enqueue : (i : ℕ) (v : A) (s : State) → values (enqueue i v s) ≡ values s ++ (v ∷ [])
  pub result-dequeue : (i : ℕ) (s : State) → (dequeue i s).1 ≡ head? (values s)
  pub values-dequeue : (i : ℕ) (s : State) → values (dequeue i s).0 ≡ tail (values s)
  pub result-empty : (i : ℕ) (s : State) → (empty i s).1 ≡ is_nil (values s)
  pub values-empty : (i : ℕ) (s : State) → values (empty i s).0 ≡ values s
