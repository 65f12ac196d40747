-- ===== src/Queue/Client.antt =====
-- A client of a queue that makes one call after the other.
use cccloud.Prelude.{ℕ, ◌≡◌, refl, ap, ap₂, ◌∙◌, Bool, List, [], ◌∷◌, ◌++◌, Option}
use cccloud.Queue.{BaseQueue, head?, tail, is_nil}

pub data Op (A : Type 0) : Type 0 where
  put : ℕ → A → Op A
  get : ℕ → Op A
  ask_empty : ℕ → Op A

pub data Reply (A : Type 0) : Type 0 where
  stored : Reply A
  got : Option A → Reply A
  emptiness : Bool → Reply A

module _ {A : Type 0} where
  -- The specification: a list whose end takes and whose start gives, without a bound.
  unfoldable pub list_run : List A → List (Op A) → List (Reply A)
  list_run vs [] = []
  list_run vs (put i v ∷ ops) = stored ∷ list_run (vs ++ (v ∷ [])) ops
  list_run vs (get i ∷ ops) = got (head? vs) ∷ list_run (tail vs) ops
  list_run vs (ask_empty i ∷ ops) = emptiness (is_nil vs) ∷ list_run vs ops

module _ {A : Type 0} (q : BaseQueue A) where
  pub run : q.State → List (Op A) → List (Reply A)
  run s [] = []
  run s (put i v ∷ ops) = stored ∷ run (q.enqueue i v s) ops
  run s (get i ∷ ops) = let (s', o) = q.dequeue i s in got o ∷ run s' ops
  run s (ask_empty i ∷ ops) = let (s', b) = q.empty i s in emptiness b ∷ run s' ops

  -- No client tells two queues that keep the promise apart.
  pub run-list_run : (s : q.State) (ops : List (Op A)) → run s ops ≡ list_run (q.values s) ops
  unfolding run list_run
  run-list_run s [] = refl
  run-list_run s (put i v ∷ ops) =
      ap (λ rs. stored ∷ rs)
        (run-list_run (q.enqueue i v s) ops ∙ ap (λ vs. list_run vs ops) (q.values-enqueue i v s))
  run-list_run s (get i ∷ ops) =
      ap₂ (λ o rs. got o ∷ rs) (q.result-dequeue i s)
        (run-list_run (q.dequeue i s).0 ops ∙ ap (λ vs. list_run vs ops) (q.values-dequeue i s))
  run-list_run s (ask_empty i ∷ ops) =
      ap₂ (λ b rs. emptiness b ∷ rs) (q.result-empty i s)
        (run-list_run (q.empty i s).0 ops ∙ ap (λ vs. list_run vs ops) (q.values-empty i s))
