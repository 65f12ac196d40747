-- ===== src/Mpmc/Solo/Enqueue.antt =====
-- A thread that enqueues alone: it links its value once.
use cccloud.Prelude.{
  ℕ, ◌≡◌, refl, sym, ◌∙◌, subst, inl, inr, Bool, false, List, [], ◌∷◌, ◌++◌, Option, none, some,
  arith, ◌==◌, Bool-cases,
}
use mathlib.Core.List.{append-nil}
use cccloud.Mpmc.{
  Shared, Pc, enq_begin, enq_loop, enq_tail, enq_next, enq_link, enq_swing, enq_help, enq_done,
  allocate, enter, swing_tail, step, after_next, is_null,
}
use cccloud.Mpmc.Trace.{System, Event, linked, event, Reach}
use cccloud.Mpmc.Solo.{moved, solo, solo_events, solo_keeps, pc-moved}

module _ {ℓ} {A : Type ℓ} where
  -- A thread at `p` in an enqueue of `v` of its own, and what has become visible since it began.
  abbrev pub Enqueues : A → Shared A → Pc A → List (Event A) → Type ℓ
  Enqueues v s (enq_begin w) fs = (fs ≡ []) × (w ≡ v)
  Enqueues v s (enq_loop n) fs = (fs ≡ []) × ((s.nodes n).payload ≡ some v)
  Enqueues v s (enq_tail n t) fs = (fs ≡ []) × ((s.nodes n).payload ≡ some v)
  Enqueues v s (enq_next n t link) fs = (fs ≡ []) × ((s.nodes n).payload ≡ some v)
  Enqueues v s (enq_link n t) fs = (fs ≡ []) × ((s.nodes n).payload ≡ some v)
  Enqueues v s (enq_swing n t) fs = fs ≡ linked v ∷ []
  Enqueues v s (enq_help n t x) fs = (fs ≡ []) × ((s.nodes n).payload ≡ some v)
  Enqueues v s enq_done fs = fs ≡ linked v ∷ []
  Enqueues v s _ fs = ⊥ × Unit {ℓ}

  still_nothing : {fs : List (Event A)} → fs ≡ [] → fs ++ [] ≡ []
  still_nothing {fs} e = append-nil fs ∙ e

  payload-swing_tail :
      (spurious : Bool) (t x n : ℕ) (s : Shared A)
      → ((swing_tail spurious t x s).nodes n).payload ≡ (s.nodes n).payload
  unfolding swing_tail
  payload-swing_tail spurious t x n s = ground arith

  payload-fresh : (v w : A) (s : Shared A) → w ≡ v → ((allocate w s).nodes s.fresh).payload ≡ some v
  unfolding allocate
  payload-fresh v w s e = ground arith

  after_next-Enqueues :
      (v : A) (s : Shared A) (n t : ℕ) (link : Option ℕ) (fs : List (Event A))
      → fs ≡ []
      → (s.nodes n).payload ≡ some v
      → Enqueues v s (after_next s n t link) (fs ++ [])
  unfolding after_next
  after_next-Enqueues v s n t none fs e full = elim (Bool-cases (s.tail == t)) [
    | inl same ↦ rw same (still_nothing e, full)
    | inr apart ↦ rw apart (still_nothing e, full)
  ]
  after_next-Enqueues v s n t (some x) fs e full = elim (Bool-cases (s.tail == t)) [
    | inl same ↦ rw same (still_nothing e, full)
    | inr apart ↦ rw apart (still_nothing e, full)
  ]

  Enqueues-step :
      (v : A) (i : ℕ) (s : Shared A) (p : Pc A) (fs : List (Event A))
      → Enqueues v s p fs
      → Enqueues v (step i false s p).0 (step i false s p).1 (fs ++ event i false s p)
  unfolding step event enter
  Enqueues-step v i s (enq_begin w) fs (d, e) = (still_nothing d, payload-fresh v w s e)
  Enqueues-step v i s (enq_loop n) fs (d, full) = (still_nothing d, full)
  Enqueues-step v i s (enq_tail n t) fs (d, full) = (still_nothing d, full)
  Enqueues-step v i s (enq_next n t link) fs (d, full) = after_next-Enqueues v s n t link fs d full
  Enqueues-step v i s (enq_link n t) fs (d, full) = elim (Bool-cases (is_null (s.nodes t).next)) [
    | inl free ↦ rw (free, d, full) refl
    | inr set ↦ rw set (still_nothing d, full)
  ]
  Enqueues-step v i s (enq_swing n t) fs d = append-nil fs ∙ d
  Enqueues-step v i s (enq_help n t x) fs (d, full) =
      (still_nothing d, payload-swing_tail false t x n s ∙ full)
  Enqueues-step v i s enq_done fs d = append-nil fs ∙ d
  Enqueues-step v i s p fs (bad, u) = absurd bad

  Enqueues-moved :
      (v : A) (i : ℕ) (s : System A) (fs : List (Event A))
      → Enqueues v s.shared (s.pc i) fs
      → Enqueues v (moved i s).shared ((moved i s).pc i) (fs ++ event i false s.shared (s.pc i))
  Enqueues-moved v i s fs d =
      subst (λ q. Enqueues v (moved i s).shared q (fs ++ event i false s.shared (s.pc i)))
        (sym (pc-moved i s)) (unfold moved in Enqueues-step v i s.shared (s.pc i) fs d)

  -- Any number of steps of a thread that enqueues.
  pub solo-Enqueues :
      (v : A) (i k : ℕ) (s : System A) (es : List (Event A))
      → Reach s es
      → Enqueues v s.shared (s.pc i) []
      → Enqueues v (solo i k s).shared ((solo i k s).pc i) (solo_events i k s)
  solo-Enqueues v i k s es r d =
      solo_keeps (λ t fs. Enqueues v t.shared (t.pc i) fs) i
        (λ t _ fs _ h. Enqueues-moved v i t fs h) k s es [] r d
