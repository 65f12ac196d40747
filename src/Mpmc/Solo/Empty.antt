-- ===== src/Mpmc/Solo/Empty.antt =====
-- A thread that asks `empty` alone.
use cccloud.Prelude.{false, ℕ, ◌≡◌, refl, sym, ap₂, ◌∙◌, subst, List, [], ◌++◌, ◌==◌, ◌&&◌}
use mathlib.Core.List.{append-nil}
use cccloud.Mpmc.{
  Shared, Pc, empty_begin, empty_loop, empty_head, empty_tail, empty_done, step, is_empty, is_null,
  enter, leave,
}
use cccloud.Mpmc.Trace.{System, Event, event, Reach}
use cccloud.Mpmc.Solo.{moved, solo, solo_events, solo_keeps, pc-moved}

module _ {ℓ} {A : Type ℓ} where
  -- A thread at `p` in a call of `empty` of its own, and what has become visible since it began.
  abbrev pub Asks : Shared A → Pc A → List (Event A) → Type ℓ
  Asks s empty_begin fs = fs ≡ []
  Asks s empty_loop fs = fs ≡ []
  Asks s (empty_head h) fs = (fs ≡ []) × (h ≡ s.head)
  Asks s (empty_tail h t) fs = (fs ≡ []) × (h ≡ s.head) × (t ≡ s.tail)
  Asks s (empty_done b) fs = (fs ≡ []) × (b ≡ is_empty s)
  Asks s _ fs = ⊥ × Unit {ℓ}

  still_nothing : {fs : List (Event A)} → fs ≡ [] → fs ++ [] ≡ []
  still_nothing {fs} e = append-nil fs ∙ e

  Asks-step :
      (i : ℕ) (s : Shared A) (p : Pc A) (fs : List (Event A))
      → Asks s p fs
      → Asks (step i false s p).0 (step i false s p).1 (fs ++ event i false s p)
  unfolding step event is_empty enter leave
  Asks-step i s empty_begin fs d = still_nothing d
  Asks-step i s empty_loop fs d = (still_nothing d, refl)
  Asks-step i s (empty_head h) fs (d, at_head) = (still_nothing d, at_head, refl)
  Asks-step i s (empty_tail h t) fs (d, at_head, at_tail) =
      (still_nothing d, ap₂ (λ h t. (h == t) && is_null (s.nodes h).next) at_head at_tail)
  Asks-step i s (empty_done b) fs (d, e) = (still_nothing d, e)
  Asks-step i s p fs bad = absurd bad.0

  Asks-moved :
      (i : ℕ) (s : System A) (es fs : List (Event A))
      → Reach s es
      → Asks s.shared (s.pc i) fs
      → Asks (moved i s).shared ((moved i s).pc i) (fs ++ event i false s.shared (s.pc i))
  Asks-moved i s es fs r d =
      subst (λ q. Asks (moved i s).shared q (fs ++ event i false s.shared (s.pc i)))
        (sym (pc-moved i s)) (unfold moved in Asks-step i s.shared (s.pc i) fs d)

  -- Any number of steps of a thread that asks.
  pub solo-Asks :
      (i k : ℕ) (s : System A) (es : List (Event A))
      → Reach s es
      → Asks s.shared (s.pc i) []
      → Asks (solo i k s).shared ((solo i k s).pc i) (solo_events i k s)
  solo-Asks i k s es r d =
      solo_keeps (λ t fs. Asks t.shared (t.pc i) fs) i (Asks-moved i) k s es [] r d
