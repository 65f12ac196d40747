-- ===== src/Mpmc/Solo/Dequeue.antt =====
-- A thread that dequeues alone: its result is the value that it claimed.
use cccloud.Prelude.{
  sym, ℕ, ◌≡◌, ◌≢◌, refl, ◌∙◌, subst, inl, inr, false, List, [], ◌∷◌, ◌++◌, Option, none, some,
  if◌then◌else◌, ◌==◌, ==_iff, ◌&&◌, Bool-cases,
}
use mathlib.Core.List.{append-nil}
use cccloud.Mpmc.{
  Shared, Pc, deq_begin, deq_loop, deq_head, deq_tail, deq_next, deq_help, deq_swap, deq_take,
  deq_done, finds_empty, leave, step, take, after_head, wins, is_null,
}
use cccloud.Mpmc.Invariant.{claimed_value}
use cccloud.Mpmc.Linearizable.{Reach-Sound}
use cccloud.Mpmc.Solo.{moved, solo, solo_events, solo_keeps, pc-moved}
use cccloud.Mpmc.Trace.{Reach, System, Reach, System, Event, claimed, event, claimed_event}

module _ {ℓ} {A : Type ℓ} where
  -- A thread at `p` in a dequeue of its own, and what has become visible since it began.
  abbrev pub Dequeues : ℕ → Shared A → Pc A → List (Event A) → Type ℓ
  Dequeues i s deq_begin fs = fs ≡ []
  Dequeues i s deq_loop fs = fs ≡ []
  Dequeues i s (deq_head h) fs = fs ≡ []
  Dequeues i s (deq_tail h t) fs = fs ≡ []
  Dequeues i s (deq_next h t link) fs = (fs ≡ []) × ((s.nodes h).next ≡ link)
  Dequeues i s (deq_help t x) fs = fs ≡ []
  Dequeues i s (deq_swap h x) fs = fs ≡ []
  Dequeues i s (deq_take h x) fs = fs ≡ claimed_event i (s.nodes x).payload
  Dequeues i s (deq_done none) fs = (fs ≡ []) × ((s.nodes s.head).next ≡ none)
  Dequeues i s (deq_done (some v)) fs = fs ≡ claimed i v ∷ []
  Dequeues i s _ fs = ⊥ × Unit {ℓ}

  nothing_more : {fs : List (Event A)} → fs ≡ [] → fs ++ [] ≡ []
  nothing_more {fs} e = append-nil fs ∙ e

  -- After the second load of `head`, which nobody has moved.
  sees :
      (i : ℕ) (s : Shared A) (t : ℕ) (link : Option ℕ) (fs : List (Event A))
      → fs ≡ []
      → (s.nodes s.head).next ≡ link
      → Dequeues i
          (if s.head == t && is_null link then leave i s else s)
          (after_head s.head t link)
          (fs ++ [])
  unfolding after_head leave is_null
  sees i s t none fs e next = elim (Bool-cases (s.head == t)) [
    | inl same ↦ rw same (nothing_more e, next)
    | inr apart ↦ rw apart (nothing_more e)
  ]
  sees i s t (some x) fs e next = elim (Bool-cases (s.head == t)) [
    | inl same ↦ rw same (nothing_more e)
    | inr apart ↦ rw apart (nothing_more e)
  ]

  looks :
      (i : ℕ) (s : Shared A) (h t : ℕ) (link : Option ℕ) (fs : List (Event A))
      → fs ≡ []
      → (s.nodes h).next ≡ link
      → Dequeues i
          (step i false s (deq_next h t link)).0
          (step i false s (deq_next h t link)).1
          (fs ++ [])
  unfolding step finds_empty
  looks i s h t link fs e next = elim (Bool-cases (s.head == h)) [
    | inr gone ↦ rw gone (nothing_more e)
    | inl same ↦ rw same (
        subst
          (λ h.
            (s.nodes h).next ≡ link
            → Dequeues i (if h == t && is_null link then leave i s else s) (after_head h t link)
                (fs ++ []))
          ((==_iff s.head h).0 same) (sees i s t link fs e) next)
  ]

  takes :
      (i : ℕ) (s : Shared A) (h x : ℕ) (o : Option A) (fs : List (Event A))
      → o ≢ none
      → fs ≡ claimed_event i o
      → Dequeues i (take i h x o s).0 (take i h x o s).1 (fs ++ [])
  unfolding take
  takes i s h x none fs full e = absurd (full refl)
  takes i s h x (some v) fs full e = append-nil fs ∙ e

  Dequeues-step :
      (i : ℕ) (s : Shared A) (p : Pc A) (fs : List (Event A))
      → ((h x : ℕ) → p ≡ deq_take h x → (s.nodes x).payload ≢ none)
      → Dequeues i s p fs
      → Dequeues i (step i false s p).0 (step i false s p).1 (fs ++ event i false s p)
  unfolding step event
  Dequeues-step i s deq_begin fs full d = nothing_more d
  Dequeues-step i s deq_loop fs full d = nothing_more d
  Dequeues-step i s (deq_head h) fs full d = nothing_more d
  Dequeues-step i s (deq_tail h t) fs full d = (nothing_more d, refl)
  Dequeues-step i s (deq_next h t link) fs full (d, e) = looks i s h t link fs d e
  Dequeues-step i s (deq_help t x) fs full d = nothing_more d
  Dequeues-step i s (deq_swap h x) fs full d = elim (Bool-cases (wins false s.head h)) [
    | inl won ↦ rw (won, d) refl
    | inr lost ↦ rw lost (nothing_more d)
  ]
  Dequeues-step i s (deq_take h x) fs full d =
      takes i s h x (s.nodes x).payload fs (full h x refl) d
  Dequeues-step i s (deq_done none) fs full (d, e) = (nothing_more d, e)
  Dequeues-step i s (deq_done (some v)) fs full d = append-nil fs ∙ d
  Dequeues-step i s p fs full (bad, u) = absurd bad

  full_when_taken :
      {s : System A} {es : List (Event A)}
      → Reach s es
      → (i h x : ℕ) → s.pc i ≡ deq_take h x
      → (s.shared.nodes x).payload ≢ none
  full_when_taken r i h x e none_left =
      let (v, full, _) = claimed_value (Reach-Sound r).inv i h x e in absurd (cc (full, none_left))

  Dequeues-moved :
      (i : ℕ) (s : System A) (es fs : List (Event A))
      → Reach s es
      → Dequeues i s.shared (s.pc i) fs
      → Dequeues i (moved i s).shared ((moved i s).pc i) (fs ++ event i false s.shared (s.pc i))
  Dequeues-moved i s es fs r d =
      subst (λ q. Dequeues i (moved i s).shared q (fs ++ event i false s.shared (s.pc i)))
        (sym (pc-moved i s))
        (unfold moved in
          Dequeues-step i s.shared (s.pc i) fs (λ h x e. full_when_taken r i h x e) d)

  -- Any number of steps of a thread that dequeues.
  pub solo-Dequeues :
      (i k : ℕ) (s : System A) (es : List (Event A))
      → Reach s es
      → Dequeues i s.shared (s.pc i) []
      → Dequeues i (solo i k s).shared ((solo i k s).pc i) (solo_events i k s)
  solo-Dequeues i k s es r d =
      solo_keeps (λ t fs. Dequeues i t.shared (t.pc i) fs) i (Dequeues-moved i) k s es [] r d
