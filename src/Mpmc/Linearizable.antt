-- ===== src/Mpmc/Linearizable.antt =====
-- Reachable states of a queue: order, delivery, and emptiness.
use cccloud.Prelude.{
  dec_lt, ℕ, suc, ◌+◌, ◌-◌, ◌≤◌, ◌≡◌, Bool, true, List, [], ◌++◌, none, some, refl, arith, ◌==◌,
  ◌&&◌, Option, false, Bool, subst, sym, ap, ap₂, ◌∙◌,
}
use mathlib.Core.List.{append-nil}
use cccloud.Mpmc.{
  is_null, Pc, empty_done, empty_tail, Shared, enq_begin, deq_begin, deq_tail, deq_take, deq_done,
  empty_begin, init, step, take, empty_node,
}
use cccloud.Mpmc.Ghost.{WasHead, Ghost, IsQueue, Inv}
use cccloud.Mpmc.Frame.{follow, IsFine-here}
use cccloud.Mpmc.Invariant.{step-Inv, begin-Inv, claimed_value}
use cccloud.Mpmc.Trace.{
  System, Event, Step, begin_enqueue, begin_dequeue, begin_empty, move, Reach, begin, later, start,
  enqueued, dequeued, Holds,
}
use cccloud.Mpmc.Books.{slice, slice-split, Books}
use cccloud.Mpmc.Fifo.{Books-step, Holds-from}

null_of_answer : (b : Bool) (o : Option ℕ) → (b && is_null o) ≡ true → o ≡ none
unfolding is_null
null_of_answer b none e = refl
null_of_answer true (some x) e = absurd (cc)
null_of_answer false (some x) e = absurd (cc)

module _ {ℓ} {A : Type ℓ} where
  abbrev pub start_ghost : Ghost A
  start_ghost = record {
    node_at = λ _. 0;
    rank = λ _. 0;
    is_linked = λ a. a == 0;
    value = λ _. none;
    size = 1;
    hd = 0;
    tl = 0;
  }

  pub start-Inv : Inv start_ghost (start {A = A}).shared (start {A = A}).pc
  unfolding init empty_node
  start-Inv = record {
    queue = record {
      ordered = omega arith;
      within = omega arith;
      head_at = refl;
      tail_at = refl;
      placed = λ i h. (refl, omega arith);
      ranked = λ a h. ground arith;
      links = λ i h. absurd (omega arith);
      last = λ i h. refl;
      filled = λ i h k. refl;
      valued = λ i h k. absurd (omega arith);
    };
    fine = λ j. tt;
    owners = λ j k n a b. absurd (cc);
    takers = λ j k n a b. absurd (cc);
  }

  pub record Sound (s : System A) (es : List (Event A)) : Type ℓ where
    pub ghost : Ghost A
    pub inv : Inv ghost s.shared s.pc
    pub books : Books ghost es

  start-Sound : Sound (start {A = A}) []
  unfolding enqueued dequeued slice
  start-Sound = record {
    ghost = start_ghost;
    inv = start-Inv;
    books = record { came = refl; went = refl };
  }

  Step-Sound :
      {s t : System A} {es fs : List (Event A)} → Step s t fs → Sound s es → Sound t (es ++ fs)
  Step-Sound {es} (begin_enqueue i v f) ok = record {
    ghost = ok.ghost;
    inv = begin-Inv ok.inv i (enq_begin v) tt refl refl;
    books = rw (append-nil es) ok.books;
  }
  Step-Sound {es} (begin_dequeue i f) ok = record {
    ghost = ok.ghost;
    inv = begin-Inv ok.inv i deq_begin tt refl refl;
    books = rw (append-nil es) ok.books;
  }
  Step-Sound {es} (begin_empty i f) ok = record {
    ghost = ok.ghost;
    inv = begin-Inv ok.inv i empty_begin tt refl refl;
    books = rw (append-nil es) ok.books;
  }
  Step-Sound {s} {es} (move i spurious) ok = record {
    ghost = follow spurious ok.ghost s.shared (s.pc i);
    inv = step-Inv ok.inv i spurious;
    books = Books-step ok.inv i es spurious (s.pc i) refl ok.books;
  }

  pub Reach-Sound : {s : System A} {es : List (Event A)} → Reach s es → Sound s es
  Reach-Sound begin = start-Sound
  Reach-Sound (later r st) = Step-Sound st (Reach-Sound r)

  -- What the invariant says of the memory, with `k` values after `head`.
  held :
      {g : Ghost A} {s : System A} {es : List (Event A)} (k : ℕ)
      → Inv g s.shared s.pc
      → Books g es
      → suc (g.hd + k) ≡ g.size
      → Holds s.shared.nodes s.shared.head (slice g.value (suc g.hd) k)
        × (enqueued es ≡ dequeued es ++ slice g.value (suc g.hd) k)
  held {g} {s} {es} k inv books e = (
    subst (λ a. Holds s.shared.nodes a (slice g.value (suc g.hd) k)) (sym inv.queue.head_at)
        (Holds-from inv 0 k g.hd (omega arith) e),
    books.came
        ∙ (ap (slice g.value 1) (omega arith)
            ∙ (slice-split g.value 1 g.hd k
                ∙ ap₂ ◌++◌ (sym books.went) (ap (λ i. slice g.value i k) (omega arith)))),
  )

  -- The last node that was linked has no successor, and only that one.
  pub null_is_last :
      {g : Ghost A} {s : Shared A} (h : ℕ)
      → IsQueue g s
      → g.is_linked h ≡ true
      → g.rank h ≤ g.hd
      → (s.nodes h).next ≡ none
      → suc (g.hd + 0) ≡ g.size
  null_is_last {g} {s} h q l behind null = elim (dec_lt (suc (g.rank h)) g.size) [
    | yes more ↦ absurd (ground (arith, q.ranked h l, q.links (g.rank h) more))
    | no last ↦ omega (arith, q.ordered, q.within)
  ]

  -- The queue is first in, first out, however the threads interleave: at every moment the values
  -- enqueued so far, in the order of their links, are those dequeued so far, in the order of their
  -- claims, followed by those that the nodes after `head` hold now.
  pub fifo :
      {s : System A} {es : List (Event A)}
      → Reach s es
      → (vs : List A) × Holds s.shared.nodes s.shared.head vs × (enqueued es ≡ dequeued es ++ vs)
  fifo {s} {es} r =
      let ok = Reach-Sound r in
      let k = ok.ghost.size - 1 - ok.ghost.hd in
      let (here, order) =
        held {s = s} {es = es} k ok.inv ok.books
          (omega (arith, ok.inv.queue.ordered, ok.inv.queue.within)) in
      (slice ok.ghost.value (suc ok.ghost.hd) k, here, order)

  -- A thread that has moved `head` finds the value of the node it claimed, and `dequeue` returns
  -- that value, whatever the other threads have done in between.
  pub claim_delivers :
      {s : System A} {es : List (Event A)}
      → Reach s es
      → (i h x : ℕ) (spurious : Bool) → s.pc i ≡ deq_take h x
      → (v : A) × ((s.shared.nodes x).payload ≡ some v)
        × ((step i spurious s.shared (s.pc i)).1 ≡ deq_done (some v))
  unfolding step take
  claim_delivers {s} r i h x spurious e =
      let (v, f, _) = claimed_value (Reach-Sound r).inv i h x e in (v, f, rw e (rw (f, take)))

  sees_empty :
      {s : System A} {es : List (Event A)} (ok : Sound s es) (h : ℕ)
      → WasHead ok.ghost h
      → (s.shared.nodes h).next ≡ none
      → Holds s.shared.nodes s.shared.head [] × (enqueued es ≡ dequeued es)
  sees_empty {s} {es} ok h (l, behind) null =
      let (here, order) =
        held {s = s} {es = es} 0 ok.inv ok.books (null_is_last h ok.inv.queue l behind null) in
      (unfold slice in here, order ∙ (unfold slice in append-nil _))

  -- A thread that loads a null `next` behind the head that it has loaded does so at a moment at
  -- which the queue is empty: all that was enqueued has been dequeued.
  pub null_load_sees_empty :
      {s : System A} {es : List (Event A)}
      → Reach s es
      → (i h t : ℕ) → s.pc i ≡ deq_tail h t
      → (s.shared.nodes h).next ≡ none
      → Holds s.shared.nodes s.shared.head [] × (enqueued es ≡ dequeued es)
  null_load_sees_empty {s} r i h t e null =
      let ok = Reach-Sound r in sees_empty ok h (IsFine-here ok.inv i (deq_tail h t) e).0 null

  -- A call of `empty` that answers true has made its last load at a moment at which the queue was
  -- empty, whatever the other threads do.
  pub true_answer_sees_empty :
      {s : System A} {es : List (Event A)}
      → Reach s es
      → (i h t : ℕ) (spurious : Bool) → s.pc i ≡ empty_tail h t
      → (step i spurious s.shared (s.pc i)).1 ≡ empty_done true
      → Holds s.shared.nodes s.shared.head [] × (enqueued es ≡ dequeued es)
  unfolding step
  true_answer_sees_empty {s} r i h t spurious e answer =
      let ok = Reach-Sound r in
      let yes : empty_done ((h == t) && is_null (s.shared.nodes h).next) ≡ empty_done true =
        rw e at answer in
      sees_empty ok h (IsFine-here ok.inv i (empty_tail h t) e).0
        (null_of_answer (h == t) (s.shared.nodes h).next (ap answered yes))
    where
      answered : Pc A → Bool
      answered (empty_done b) = b
      answered p = true
