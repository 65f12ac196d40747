-- ===== src/Mpmc/Trace.antt =====
-- The threads of a queue, interleaved, and what becomes visible of their calls.
use cccloud.Prelude.{
  ℕ, ◌≡◌, Bool, true, List, [], ◌∷◌, ◌++◌, Option, none, some, not, ◌&&◌, if◌then◌else◌, update,
}
use cccloud.Mpmc.{
  Node, Shared, Pc, enq_begin, enq_link, deq_begin, deq_swap, empty_begin, wins, is_null, init,
  step, finished,
}

pub record System {ℓ} (A : Type ℓ) : Type ℓ where
  pub shared : Shared A
  pub pc : ℕ → Pc A

-- `linked v`: a node with value `v` was linked. `claimed i v`: thread `i` moved `head` onto the
-- node with value `v`.
pub data Event {ℓ} (A : Type ℓ) : Type ℓ where
  linked : A → Event A
  claimed : ℕ → A → Event A

module _ {ℓ} {A : Type ℓ} where
  abbrev pub linked_event : Option A → List (Event A)
  linked_event none = []
  linked_event (some v) = linked v ∷ []

  abbrev pub claimed_event : ℕ → Option A → List (Event A)
  claimed_event i none = []
  claimed_event i (some v) = claimed i v ∷ []

  -- The event of a step: a compare-exchange that wins on a `next`, or on `head`.
  unfoldable pub event : ℕ → Bool → Shared A → Pc A → List (Event A)
  event i spurious s (enq_link n t) =
      if not spurious && is_null (s.nodes t).next then linked_event (s.nodes n).payload else []
  event i spurious s (deq_swap h x) =
      if wins spurious s.head h then claimed_event i (s.nodes x).payload else []
  event i spurious s _ = []

  -- The values enqueued so far, in the order of their links.
  unfoldable pub enqueued : List (Event A) → List A
  enqueued [] = []
  enqueued (linked v ∷ es) = v ∷ enqueued es
  enqueued (claimed i v ∷ es) = enqueued es

  -- The values dequeued so far, in the order of their claims.
  unfoldable pub dequeued : List (Event A) → List A
  dequeued [] = []
  dequeued (linked v ∷ es) = dequeued es
  dequeued (claimed i v ∷ es) = v ∷ dequeued es

  -- One step of one thread; an idle thread may begin a call. `spurious` is the environment's choice.
  pub data Step (s : System A) : System A → List (Event A) → Type ℓ where
    begin_enqueue :
        (i : ℕ) (v : A)
        → finished (s.pc i) ≡ true
        → Step s (record s { pc = update s.pc i (enq_begin v) }) []
    begin_dequeue :
        (i : ℕ) → finished (s.pc i) ≡ true → Step s (record s { pc = update s.pc i deq_begin }) []
    begin_empty :
        (i : ℕ) → finished (s.pc i) ≡ true → Step s (record s { pc = update s.pc i empty_begin }) []
    move :
        (i : ℕ) (spurious : Bool)
        → Step s
            (record {
              shared = (step i spurious s.shared (s.pc i)).0;
              pc = update s.pc i (step i spurious s.shared (s.pc i)).1;
            })
            (event i spurious s.shared (s.pc i))

  -- The start: a new queue, and no call under way.
  abbrev pub start : System A
  start = record { shared = init; pc = λ _. Pc.enq_done }

  -- The states that threads can reach from the start, with what became visible on the way.
  pub data Reach : System A → List (Event A) → Type ℓ where
    begin : Reach start []
    later :
        {s t : System A} {es fs : List (Event A)} → Reach s es → Step s t fs → Reach t (es ++ fs)

-- The values held by the nodes after a node, along `next`.
pub data Holds {ℓ} {A : Type ℓ} (nodes : ℕ → Node A) : ℕ → List A → Type ℓ where
  at_end : {a : ℕ} → (nodes a).next ≡ none → Holds nodes a []
  and_then :
      {a b : ℕ} {v : A} {vs : List A}
      → (nodes a).next ≡ some b
      → (nodes b).payload ≡ some v
      → Holds nodes b vs
      → Holds nodes a (v ∷ vs)
