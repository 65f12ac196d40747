-- ===== src/Mpmc/Reclaimed/Keeps.antt =====
-- The nodes of a reachable state: those that wait for their link, those that the queue holds, and
-- those that `head` has passed.
use cccloud.Prelude.{
  ℕ, ◌+◌, ◌≡◌, ◌≢◌, inl, inr, Bool, true, not, ◌&&◌, List, none, some, update, arith, ◌==◌, refl,
  sym, ap, ◌∙◌, Bool-cases,
}
use cccloud.Mpmc.{init}
use cccloud.Epoch.Registry.{IsLinked}
use cccloud.Epoch.History.{balance}
use cccloud.Mpmc.{
  finished, Shared, Pc, enq_begin, enq_loop, enq_tail, enq_next, enq_link, enq_swing, enq_help,
  enq_done, deq_begin, deq_loop, deq_head, deq_tail, deq_next, deq_help, deq_swap, deq_take,
  deq_done, empty_begin, empty_loop, empty_head, empty_tail, empty_done, wins, is_null, step,
  finds_empty, enter, leave, take, reset_payload, allocate, set_next,
}
use cccloud.Mpmc.Ghost.{Ghost, IsFine, owns, takes, Inv}
use cccloud.Mpmc.Pointers.{advance_head, next_is_linked}
use cccloud.Mpmc.Link.{append}
use cccloud.Mpmc.Frame.{follow, IsFine-here, linked_head}
use cccloud.Mpmc.Invariant.{claimed_value, equal_of_won}
use cccloud.Mpmc.Reclaimed.{
  claims, Settled, quiet-Settled, allocate-Settled, link-Settled, swap-Settled, retire-Settled,
}
use cccloud.Mpmc.Reclaimed.Step.{
  Keeps, Keeps-swing, balance-step, hands_over, after_next-owns, balance-leave, balance-retire,
  claims_take, after_load-claims,
}
use cccloud.Mpmc.Trace.{
  System, Event, begin_enqueue, begin_dequeue, begin_empty, move, Reach, begin, later, start,
}
use cccloud.Mpmc.Linearizable.{start_ghost, start-Inv}
use cccloud.Mpmc.Memory.{Reach-IsQuiet}
use cccloud.Mpmc.Invariant.{begin-Inv, step-Inv}
use cccloud.Epoch.Conservation.{balance-init}

module _ {ℓ} {A : Type ℓ} {g : Ghost A} {s : Shared A} {pc : ℕ → Pc A} (inv : Inv g s pc)
    (linked : IsLinked s.ebr) (ok : Keeps g s pc) (i : ℕ) where
  full_when_taken :
      (p : Pc A) → pc i ≡ p → (h x : ℕ) → p ≡ deq_take h x → (s.nodes x).payload ≢ none
  full_when_taken p e h x f gone =
      let (v, full, _) = claimed_value inv i h x (e ∙ f) in absurd (cc (full, gone))

  module _ (spurious : Bool) (p : Pc A) (at_p : pc i ≡ p) where
    s' : Shared A
    s' = (step i spurious s p).0

    adds : (a : ℕ) → balance a s'.ebr ≡ balance a s.ebr + hands_over p a
    unfolding s'
    adds a = balance-step i a spurious s p linked (full_when_taken p at_p)

    quiet :
        (p' : Pc A)
        → claims p ≡ none
        → claims p' ≡ none
        → ((a : ℕ) → owns p ≡ some a → owns p' ≡ some a)
        → ((a : ℕ) → hands_over p a ≡ 0)
        → Settled g.is_linked g.rank g.hd s.fresh (update pc i p') (λ a. balance a s'.ebr)
    quiet p' free free' keeps none_over =
        quiet-Settled ok i p' (λ a. balance a s'.ebr) (ap claims at_p ∙ free) free'
          (λ a h. keeps a (sym (ap owns at_p) ∙ h)) (λ a. omega (arith, adds a, none_over a))

  still :
      (p : Pc A)
      → pc i ≡ p
      → (p' : Pc A) → claims p ≡ none
      → claims p' ≡ none
      → ((a : ℕ) → owns p ≡ some a → owns p' ≡ some a)
      → Keeps g s (update pc i p')
  still p e p' free free' keeps =
      quiet-Settled ok i p' _ (ap claims e ∙ free) free' (λ a h. keeps a (sym (ap owns e) ∙ h))
        (λ a. refl)

  link-Keeps :
      (n t : ℕ)
      → pc i ≡ enq_link n t
      → Keeps (append g n (s.nodes n).payload) (set_next t n s) (update pc i (enq_swing n t))
  unfolding append set_next
  link-Keeps n t e =
      link-Settled ok i n g.size (enq_swing n t) (ap claims e) refl (ap owns e)
        (IsFine-here inv i (enq_link n t) e).0.0
        (omega (arith, inv.queue.ordered, inv.queue.within))

  swap-Keeps :
      (h x : ℕ)
      → pc i ≡ deq_swap h x
      → s.head ≡ h
      → Keeps (advance_head g) (record s { head = x }) (update pc i (deq_take h x))
  unfolding advance_head
  swap-Keeps h x e at_head =
      swap-Settled ok i h x (ap claims e) (ap owns e) (IsFine-here inv i (deq_swap h x) e).0.0
        (ap g.rank (sym at_head) ∙ (linked_head inv i (deq_swap h x) e).1)
        (λ a l k. ground (arith, inv.queue.ranked a, inv.queue.head_at))

  take-Keeps :
      (h x : ℕ) (v : A)
      → pc i ≡ deq_take h x
      → Keeps g (take i h x (some v) s).0 (update pc i (take i h x (some v) s).1)
  unfolding take
  take-Keeps h x v e =
      let fine = IsFine-here inv i (deq_take h x) e in
      retire-Settled ok i h (deq_done (some v)) _ (ap claims e) refl (ap owns e) fine.4
        (omega (arith, (next_is_linked g s h x inv.queue fine.4 fine.5).1, fine.2)) alone
        (λ a. balance-retire i h a (reset_payload x s) linked)
    where
      alone : (j : ℕ) → claims (pc j) ≡ some h → i ≡ j
      alone j there =
          let (y, f) = claims_take (pc j) h there in
          let at_x = (IsFine-here inv i (deq_take h x) e).5 in
          let at_y = (IsFine-here inv j (deq_take h y) f).5 in
          inv.takers i j x (ap takes e) (ap takes f ∙ (sym at_y ∙ at_x))

  pub Keeps-step :
      (spurious : Bool) (p : Pc A)
      → pc i ≡ p
      → Keeps (follow spurious g s p) (step i spurious s p).0 (update pc i (step i spurious s p).1)
  unfolding step follow enter leave s' allocate
  Keeps-step spurious (enq_loop n) e = quiet spurious _ e _ refl refl (λ a h. h) (λ a. refl)
  Keeps-step spurious (enq_tail n t) e = quiet spurious _ e _ refl refl (λ a h. h) (λ a. refl)
  Keeps-step spurious (enq_next n t link) e =
      let (free, mine) = after_next-owns s n t link in
      quiet spurious _ e _ refl free (λ a h. mine ∙ h) (λ a. refl)
  Keeps-step spurious (enq_swing n t) e =
      Keeps-swing g s _ spurious t n _
        (quiet spurious _ e enq_done refl refl (λ a h. absurd (cc)) (λ a. refl))
  Keeps-step spurious (enq_help n t x) e =
      Keeps-swing g s _ spurious t x _
        (quiet spurious _ e (enq_loop n) refl refl (λ a h. h) (λ a. refl))
  Keeps-step spurious enq_done e = quiet spurious _ e _ refl refl (λ a h. h) (λ a. refl)
  Keeps-step spurious deq_begin e = quiet spurious _ e _ refl refl (λ a h. h) (λ a. refl)
  Keeps-step spurious deq_loop e = quiet spurious _ e _ refl refl (λ a h. h) (λ a. refl)
  Keeps-step spurious (deq_head h) e = quiet spurious _ e _ refl refl (λ a h. h) (λ a. refl)
  Keeps-step spurious (deq_tail h t) e = quiet spurious _ e _ refl refl (λ a h. h) (λ a. refl)
  Keeps-step spurious (deq_help t x) e =
      Keeps-swing g s _ spurious t x _
        (quiet spurious _ e deq_loop refl refl (λ a h. h) (λ a. refl))
  Keeps-step spurious (deq_done o) e = quiet spurious _ e _ refl refl (λ a h. h) (λ a. refl)
  Keeps-step spurious empty_begin e = quiet spurious _ e _ refl refl (λ a h. h) (λ a. refl)
  Keeps-step spurious empty_loop e = quiet spurious _ e _ refl refl (λ a h. h) (λ a. refl)
  Keeps-step spurious (empty_head h) e = quiet spurious _ e _ refl refl (λ a h. h) (λ a. refl)
  Keeps-step spurious (empty_tail h t) e = quiet spurious _ e _ refl refl (λ a h. h) (λ a. refl)
  Keeps-step spurious (empty_done b) e = quiet spurious _ e _ refl refl (λ a h. h) (λ a. refl)
  Keeps-step spurious (enq_begin v) e =
      allocate-Settled ok i (enq_loop s.fresh) _ (ap claims e) refl (ap owns e) refl
        (λ a. omega (arith, adds spurious (enq_begin v) e a))
  Keeps-step spurious (enq_link n t) e =
      elim (Bool-cases (not spurious && is_null (s.nodes t).next)) [
        | inl won ↦ rw won (link-Keeps n t e)
        | inr lost ↦ rw lost (still (enq_link n t) e (enq_loop n) refl refl (λ a h. h))
      ]
  Keeps-step spurious (deq_next h t link) e =
      let (free, owns_none) = after_load-claims A (s.head == h) h t link in
      elim (Bool-cases (finds_empty s h t link)) [
        | inl over ↦ rw over (
            quiet-Settled ok i _ _ (ap claims e) free (λ a k. absurd (cc (ap owns e, k)))
              (λ a. balance-leave i a s linked))
        | inr more ↦ rw more (still (deq_next h t link) e _ refl free (λ a k. absurd (cc)))
      ]
  Keeps-step spurious (deq_swap h x) e = elim (Bool-cases (wins spurious s.head h)) [
    | inl won ↦ rw won (swap-Keeps h x e (equal_of_won spurious s.head h won))
    | inr lost ↦ rw lost (still (deq_swap h x) e deq_loop refl refl (λ a k. k))
  ]
  Keeps-step spurious (deq_take h x) e =
      let (v, f, _) = claimed_value inv i h x e in rw f (take-Keeps h x v e)

module _ {ℓ} {A : Type ℓ} where
  -- A reachable state, with what the nodes and the manager say of each other.
  pub record Kept (s : System A) : Type ℓ where
    pub ghost : Ghost A
    pub inv : Inv ghost s.shared s.pc
    pub keeps : Keeps ghost s.shared s.pc

  pub finished_has_none : (p : Pc A) → finished p ≡ true → (claims p ≡ none) × (owns p ≡ none)
  finished_has_none enq_done e = (refl, refl)
  finished_has_none (deq_done o) e = (refl, refl)
  finished_has_none (empty_done b) e = (refl, refl)
  finished_has_none p e = absurd (cc)

  Kept-begin :
      (s : System A) (k : Kept s) (i : ℕ) (p : Pc A)
      → finished (s.pc i) ≡ true
      → IsFine k.ghost s.shared p
      → claims p ≡ none
      → owns p ≡ none
      → takes p ≡ none
      → Kept (record s { pc = update s.pc i p })
  Kept-begin s k i p f fine free no_node idle =
      let (free_before, no_node_before) = finished_has_none (s.pc i) f in
      record {
        ghost = k.ghost;
        inv = begin-Inv k.inv i p fine no_node idle;
        keeps =
            quiet-Settled k.keeps i p _ free_before free (λ a h. absurd (cc (no_node_before, h)))
              (λ a. refl);
      }

  Kept-start : Kept (start {A = A})
  unfolding init
  Kept-start = record {
    ghost = start_ghost;
    inv = start-Inv;
    keeps = record {
      kept = λ a h. balance-init a;
      spent = λ a l h. absurd (omega arith);
      owned = λ a h l. absurd (ground arith);
    };
  }

  pub Reach-Kept : {s : System A} {es : List (Event A)} → Reach s es → Kept s
  Reach-Kept begin = Kept-start
  Reach-Kept (later {s} r (begin_enqueue i v f)) =
      Kept-begin s (Reach-Kept r) i (enq_begin v) f tt refl refl refl
  Reach-Kept (later {s} r (begin_dequeue i f)) =
      Kept-begin s (Reach-Kept r) i deq_begin f tt refl refl refl
  Reach-Kept (later {s} r (begin_empty i f)) =
      Kept-begin s (Reach-Kept r) i empty_begin f tt refl refl refl
  Reach-Kept (later {s} r (move i spurious)) =
      let k = Reach-Kept r in
      record {
        ghost = follow spurious k.ghost s.shared (s.pc i);
        inv = step-Inv k.inv i spurious;
        keeps = Keeps-step k.inv (Reach-IsQuiet r).linked k.keeps i spurious (s.pc i) refl;
      }
