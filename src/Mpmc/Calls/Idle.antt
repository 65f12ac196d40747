-- ===== src/Mpmc/Calls/Idle.antt =====
-- Whole calls, from one moment at which no call is under way to the next.
use cccloud.Mpmc.Ghost.{Ghost, IsQueue}
use cccloud.Prelude.{
  and_false, arith, suc, ==_iff, dec_lt, ◌==◌, Bool-cases, inl, inr, ℕ, ◌≡◌, refl, sym, ap, ◌∙◌,
  subst, true, List, [], ◌∷◌, ◌++◌, Option, none, some,
}
use mathlib.Core.List.{append-nil}
use cccloud.Mpmc.{
  Shared, Node, is_empty, is_null, enq_begin, enq_done, deq_begin, deq_done, empty_begin,
  empty_done, finished,
}
use cccloud.Mpmc.Trace.{
  Holds, at_end, and_then, System, Event, linked, claimed, begin_enqueue, begin_dequeue,
  begin_empty, Reach, begin, later, start, enqueued, dequeued,
}
use cccloud.Mpmc.Linearizable.{Reach-Sound, fifo}
use cccloud.Mpmc.Solo.{solo, solo_events, Reach-solo, solo_finishes}
use cccloud.Mpmc.Solo.Enqueue.{Enqueues, solo-Enqueues}
use cccloud.Mpmc.Solo.Empty.{Asks, solo-Asks}
use cccloud.Mpmc.Solo.Dequeue.{Dequeues, solo-Dequeues}
use cccloud.Queue.{head?, tail, is_nil}
use cccloud.Mpmc.Calls.{calling, enqueue, dequeue, empty, IsIdle}
use cccloud.Mpmc.Calls.Ended.{
  update_self, all_done, enqueue_ended, dequeue_ended, empty_ended, order-linked, order-claimed,
  Holds-IsIdle, empty_of_null,
}

module _ {ℓ} {A : Type ℓ} where
  -- A call that begins while no other is under way comes to its end.
  pub enqueue_ends :
      {s : System A} {vs : List A}
      → IsIdle s vs
      → (i : ℕ) (v : A) → (k : ℕ) × (finished ((enqueue k i v s).pc i) ≡ true)
  unfolding enqueue
  enqueue_ends idle i v = solo_finishes (later idle.reach (begin_enqueue i v (idle.done i))) i

  pub dequeue_ends :
      {s : System A} {vs : List A}
      → IsIdle s vs
      → (i : ℕ) → (k : ℕ) × (finished ((dequeue k i s).pc i) ≡ true)
  unfolding dequeue
  dequeue_ends idle i = solo_finishes (later idle.reach (begin_dequeue i (idle.done i))) i

  pub empty_ends :
      {s : System A} {vs : List A}
      → IsIdle s vs
      → (i : ℕ) → (k : ℕ) × (finished ((empty k i s).pc i) ≡ true)
  unfolding empty
  empty_ends idle i = solo_finishes (later idle.reach (begin_empty i (idle.done i))) i

  -- A call of `enqueue` that has ended, while no other was under way, has put its value at the end.
  pub enqueue-IsIdle :
      {s : System A} {vs : List A}
      → IsIdle s vs
      → (i : ℕ) (v : A) (k : ℕ) → finished ((enqueue k i v s).pc i) ≡ true
      → ((enqueue k i v s).pc i ≡ enq_done) × IsIdle (enqueue k i v s) (vs ++ (v ∷ []))
  unfolding enqueue
  enqueue-IsIdle {s} {vs} idle i v k ends =
      let began = later idle.reach (begin_enqueue i v (idle.done i)) in
      let (there, seen) =
        enqueue_ended v (solo i k (calling i (enq_begin v) s)).shared
          ((solo i k (calling i (enq_begin v) s)).pc i)
          (solo_events i k (calling i (enq_begin v) s)) ends
          (solo-Enqueues v i k (calling i (enq_begin v) s) (idle.events ++ []) began (
            subst (λ p. Enqueues v s.shared p []) (sym (update_self s.pc i (enq_begin v)))
              (refl, refl))) in
      (
        there,
        record {
          events = idle.events ++ (linked v ∷ []);
          reach =
              subst (Reach (solo i k (calling i (enq_begin v) s)))
                (ap (λ es. es ++ solo_events i k (calling i (enq_begin v) s))
                    (append-nil idle.events)
                  ∙ ap (λ fs. idle.events ++ fs) seen)
                (Reach-solo i k began);
          order = order-linked idle.events v vs idle.order;
          done = all_done i k (enq_begin v) s idle.done ends;
        },
      )

  -- The result of a dequeue, by what became visible.
  record Left (i : ℕ) (s t : System A) (vs : List A) (o : Option A) : Type ℓ where
    result : o ≡ head? vs
    idle : IsIdle t (tail vs)

  dequeue-Left :
      {s t : System A} {vs : List A} (i : ℕ) (o : Option A) (fs : List (Event A))
      → (idle : IsIdle s vs) → Reach t (idle.events ++ fs)
      → ((j : ℕ) → finished (t.pc j) ≡ true)
      → Dequeues i t.shared (deq_done o) fs
      → Left i s t vs o
  dequeue-Left {s} {t} {vs} i none fs idle r done (e, null) =
      let still : IsIdle t vs = record {
        events = idle.events;
        reach = subst (Reach t) (ap (λ fs. idle.events ++ fs) e ∙ append-nil idle.events) r;
        order = idle.order;
        done = done;
      } in
      let nothing : vs ≡ [] = empty_of_null (Holds-IsIdle still) null in
      record {
        result = sym (ap head? nothing);
        idle = subst (IsIdle t) (nothing ∙ sym (ap tail nothing)) still;
      }
  dequeue-Left {s} {t} {vs} i (some v) fs idle r done e =
      let came = subst (Reach t) (ap (λ fs. idle.events ++ fs) e) r in
      let (ws, holds, order) = fifo came in
      let first : vs ≡ v ∷ ws = order-claimed idle.events i v vs ws idle.order order in
      record {
        result = sym (ap head? first);
        idle = record {
          events = idle.events ++ (claimed i v ∷ []);
          reach = came;
          order =
              order
              ∙ ap (λ us. dequeued (idle.events ++ (claimed i v ∷ [])) ++ us) (sym (ap tail first));
          done = done;
        };
      }

  -- So a call of `dequeue` has taken the first value, or reports that there is none.
  pub dequeue-IsIdle :
      {s : System A} {vs : List A}
      → IsIdle s vs
      → (i k : ℕ) → finished ((dequeue k i s).pc i) ≡ true
      → ((dequeue k i s).pc i ≡ deq_done (head? vs)) × IsIdle (dequeue k i s) (tail vs)
  unfolding dequeue
  dequeue-IsIdle {s} {vs} idle i k ends =
      let began = later idle.reach (begin_dequeue i (idle.done i)) in
      let (o, there, seen) =
        dequeue_ended i (solo i k (calling i deq_begin s)).shared
          ((solo i k (calling i deq_begin s)).pc i) (solo_events i k (calling i deq_begin s)) ends
          (solo-Dequeues i k (calling i deq_begin s) (idle.events ++ []) began
            (subst (λ p. Dequeues i s.shared p []) (sym (update_self s.pc i deq_begin)) refl)) in
      let left =
        dequeue-Left i o (solo_events i k (calling i deq_begin s)) idle
          (subst (Reach (solo i k (calling i deq_begin s)))
            (ap (λ es. es ++ solo_events i k (calling i deq_begin s)) (append-nil idle.events))
            (Reach-solo i k began))
          (all_done i k deq_begin s idle.done ends) seen in
      (there ∙ ap deq_done left.result, left.idle)

  -- A queue at its start.
  pub start-IsIdle : IsIdle (start {A = A}) []
  unfolding enqueued dequeued
  start-IsIdle = record { events = []; reach = begin; order = refl; done = λ j. refl }

  is_null-Holds :
      {nodes : ℕ → Node A} {a : ℕ} {vs : List A}
      → Holds nodes a vs
      → is_null (nodes a).next ≡ is_nil vs
  unfolding is_null
  is_null-Holds (at_end e) = rw e refl
  is_null-Holds (and_then e v h) = rw e refl

  -- Where no node follows `head`, `tail` is at it.
  tail_at_head :
      (g : Ghost A) (s : Shared A) → IsQueue g s → (s.nodes s.head).next ≡ none → s.head ≡ s.tail
  tail_at_head g s q null = elim (dec_lt (suc g.hd) g.size) [
    | yes more ↦ absurd (cc (ap (λ a. (s.nodes a).next) q.head_at, q.links g.hd more, null))
    | no last ↦ q.head_at ∙ ap g.node_at (omega (arith, q.ordered, q.within, last)) ∙ sym q.tail_at
  ]

  next_of_nil :
      {nodes : ℕ → Node A} {a : ℕ} {vs : List A}
      → Holds nodes a vs
      → is_nil vs ≡ true
      → (nodes a).next ≡ none
  next_of_nil (at_end e) h = e
  next_of_nil (and_then e v r) h = absurd (cc h)

  -- `empty`, while no call is under way.
  pub is_empty-IsIdle : {s : System A} {vs : List A} → IsIdle s vs → is_empty s.shared ≡ is_nil vs
  unfolding is_empty
  is_empty-IsIdle {s} {vs} idle = elim (Bool-cases (is_nil vs)) [
    | inr some_held ↦
        rw (is_null-Holds (Holds-IsIdle idle), some_held)
          (and_false (s.shared.head == s.shared.tail))
    | inl none_held ↦
        rw (is_null-Holds (Holds-IsIdle idle), none_held)
          (rw
            ((==_iff s.shared.head s.shared.tail).1 (
              tail_at_head (Reach-Sound idle.reach).ghost s.shared
                (Reach-Sound idle.reach).inv.queue (next_of_nil (Holds-IsIdle idle) none_held)))
            refl)
  ]

  -- So a call of `empty` that has ended, while no other was under way, says whether the queue holds
  -- nothing, and leaves what it holds.
  pub empty-IsIdle :
      {s : System A} {vs : List A}
      → IsIdle s vs
      → (i k : ℕ) → finished ((empty k i s).pc i) ≡ true
      → ((empty k i s).pc i ≡ empty_done (is_nil vs)) × IsIdle (empty k i s) vs
  unfolding empty
  empty-IsIdle {s} {vs} idle i k ends =
      let began = later idle.reach (begin_empty i (idle.done i)) in
      let (there, seen) =
        empty_ended (solo i k (calling i empty_begin s)).shared
          ((solo i k (calling i empty_begin s)).pc i) (solo_events i k (calling i empty_begin s))
          ends
          (solo-Asks i k (calling i empty_begin s) (idle.events ++ []) began
            (subst (λ p. Asks s.shared p []) (sym (update_self s.pc i empty_begin)) refl)) in
      let still : IsIdle (solo i k (calling i empty_begin s)) vs = record {
        events = idle.events;
        reach =
            subst (Reach (solo i k (calling i empty_begin s)))
              (ap (λ es. es ++ solo_events i k (calling i empty_begin s)) (append-nil idle.events)
                ∙ ap (λ fs. idle.events ++ fs) seen
                ∙ append-nil idle.events)
              (Reach-solo i k began);
        order = idle.order;
        done = all_done i k empty_begin s idle.done ends;
      } in
      (there ∙ ap empty_done (is_empty-IsIdle still), still)
