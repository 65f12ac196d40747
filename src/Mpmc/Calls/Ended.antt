-- ===== src/Mpmc/Calls/Ended.antt =====
-- What a call that has come to its end has made visible.
use cccloud.Prelude.{
  ap₂, ℕ, ◌≡◌, ◌≢◌, refl, sym, ap, ◌∙◌, subst, true, List, [], ◌∷◌, ◌++◌, Option, none, some, arith,
  update, ℕ_discrete,
}
use mathlib.Core.List.{append-nil, append_assoc, append_cancel_left}
use cccloud.Mpmc.{Node, Shared, Pc, enq_done, deq_done, empty_done, finished, is_empty}
use cccloud.Mpmc.Trace.{System, Event, linked, claimed, enqueued, dequeued, Holds, at_end, and_then}
use cccloud.Mpmc.Books.{
  enqueued-append, dequeued-append, enqueued-linked, dequeued-linked, enqueued-claimed,
  dequeued-claimed,
}
use cccloud.Mpmc.Linearizable.{fifo}
use cccloud.Mpmc.Solo.{solo, pc-solo_ne}
use cccloud.Mpmc.Solo.Enqueue.{Enqueues}
use cccloud.Mpmc.Solo.Dequeue.{Dequeues}
use cccloud.Mpmc.Solo.Empty.{Asks}
use cccloud.Mpmc.Calls.{calling, IsIdle}

module _ {ℓ} {A : Type ℓ} where
  pub update_self : (pc : ℕ → Pc A) (i : ℕ) (p : Pc A) → update pc i p i ≡ p
  update_self pc i p = ground arith

  update_ne : (pc : ℕ → Pc A) (i j : ℕ) (p : Pc A) → i ≢ j → update pc i p j ≡ pc j
  update_ne pc i j p ne = ground arith

  -- After a call that has come to its end all threads are done.
  pub all_done :
      (i k : ℕ) (p : Pc A) (s : System A)
      → ((j : ℕ) → finished (s.pc j) ≡ true)
      → finished ((solo i k (calling i p s)).pc i) ≡ true
      → (j : ℕ) → finished ((solo i k (calling i p s)).pc j) ≡ true
  all_done i k p s done mine j = elim (ℕ_discrete i j) [
    | yes e ↦ subst (λ j. finished ((solo i k (calling i p s)).pc j) ≡ true) e mine
    | no ne ↦ ap finished (pc-solo_ne i j k (calling i p s) ne ∙ update_ne s.pc i j p ne) ∙ done j
  ]

  -- What a finished enqueue has made visible.
  pub enqueue_ended :
      (v : A) (s : Shared A) (p : Pc A) (fs : List (Event A))
      → finished p ≡ true
      → Enqueues v s p fs
      → (p ≡ enq_done) × (fs ≡ linked v ∷ [])
  enqueue_ended v s enq_done fs f e = (refl, e)
  enqueue_ended v s (deq_done o) fs f (bad, u) = absurd bad
  enqueue_ended v s (empty_done b) fs f (bad, u) = absurd bad
  enqueue_ended v s p fs f e = absurd (cc)

  pub dequeue_ended :
      (i : ℕ) (s : Shared A) (p : Pc A) (fs : List (Event A))
      → finished p ≡ true
      → Dequeues i s p fs
      → (o : Option A) × (p ≡ deq_done o) × Dequeues i s (deq_done o) fs
  dequeue_ended i s (deq_done o) fs f e = (o, refl, e)
  dequeue_ended i s enq_done fs f (bad, u) = absurd bad
  dequeue_ended i s (empty_done b) fs f (bad, u) = absurd bad
  dequeue_ended i s p fs f e = absurd (cc)

  pub empty_ended :
      (s : Shared A) (p : Pc A) (fs : List (Event A))
      → finished p ≡ true
      → Asks s p fs
      → (p ≡ empty_done (is_empty s)) × (fs ≡ [])
  empty_ended s (empty_done b) fs f (e, answer) = (ap empty_done answer, e)
  empty_ended s enq_done fs f bad = absurd bad.0
  empty_ended s (deq_done o) fs f bad = absurd bad.0
  empty_ended s p fs f e = absurd (cc)

  pub order-linked :
      (es : List (Event A)) (v : A) (vs : List A)
      → enqueued es ≡ dequeued es ++ vs
      → enqueued (es ++ (linked v ∷ [])) ≡ dequeued (es ++ (linked v ∷ [])) ++ (vs ++ (v ∷ []))
  order-linked es v vs e =
      enqueued-append es (linked v ∷ [])
      ∙ ap₂ ◌++◌ e (enqueued-linked (some v))
      ∙ append_assoc (dequeued es) vs (v ∷ [])
      ∙ sym (
          ap (λ d. d ++ (vs ++ (v ∷ [])))
            (dequeued-append es (linked v ∷ [])
              ∙ ap (λ d. dequeued es ++ d) (dequeued-linked (some v))
              ∙ append-nil (dequeued es)))

  pub order-claimed :
      (es : List (Event A)) (i : ℕ) (v : A) (vs ws : List A)
      → enqueued es ≡ dequeued es ++ vs
      → enqueued (es ++ (claimed i v ∷ [])) ≡ dequeued (es ++ (claimed i v ∷ [])) ++ ws
      → vs ≡ v ∷ ws
  order-claimed es i v vs ws e f = append_cancel_left (dequeued es) vs (v ∷ ws) (
      sym e
      ∙ sym (
          enqueued-append es (claimed i v ∷ [])
          ∙ ap (λ d. enqueued es ++ d) (enqueued-claimed i (some v))
          ∙ append-nil (enqueued es))
      ∙ f
      ∙ ap (λ d. d ++ ws)
          (dequeued-append es (claimed i v ∷ [])
            ∙ ap (λ d. dequeued es ++ d) (dequeued-claimed i (some v)))
      ∙ append_assoc (dequeued es) (v ∷ []) ws)

  -- The queue's nodes hold its values.
  pub Holds-IsIdle :
      {s : System A} {vs : List A} → IsIdle s vs → Holds s.shared.nodes s.shared.head vs
  Holds-IsIdle {s} {vs} idle =
      let (ws, holds, order) = fifo idle.reach in
      subst (Holds s.shared.nodes s.shared.head)
        (append_cancel_left (dequeued idle.events) ws vs (sym order ∙ idle.order)) holds

  pub empty_of_null :
      {nodes : ℕ → Node A} {a : ℕ} {vs : List A}
      → Holds nodes a vs
      → (nodes a).next ≡ none
      → vs ≡ []
  empty_of_null (at_end e) null = refl
  empty_of_null (and_then e v h) null = absurd (cc (e, null))
