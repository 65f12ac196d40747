-- ===== src/Mpmc/Solo.antt =====
-- One thread of a system of threads runs alone; what becomes visible meanwhile.
pub mod Enqueue
pub mod Dequeue
pub mod Empty
use cccloud.Prelude.{
  ℕ, zero, suc, ◌≡◌, ◌≢◌, refl, sym, ap, ◌∙◌, subst, true, false, List, [], ◌++◌, arith, update,
}
use mathlib.Core.List.{append-nil, append_assoc}
use cccloud.Mpmc.{Pc, step, finished}
use cccloud.Mpmc.Trace.{System, Event, event, move, Reach, later}
use cccloud.Mpmc.Alone.{alone}
use cccloud.Mpmc.Progress.{thread_alone_finishes}

module _ {ℓ} {A : Type ℓ} where
  -- One step of thread `i`, in which no compare-exchange fails for no reason.
  unfoldable pub moved : ℕ → System A → System A
  moved i s = record {
    shared = (step i false s.shared (s.pc i)).0;
    pc = update s.pc i (step i false s.shared (s.pc i)).1;
  }

  unfoldable pub solo : ℕ → ℕ → System A → System A
  unfolding moved
  solo i zero s = s
  solo i (suc k) s = solo i k (moved i s)

  unfoldable pub solo_events : ℕ → ℕ → System A → List (Event A)
  unfolding moved
  solo_events i zero s = []
  solo_events i (suc k) s = event i false s.shared (s.pc i) ++ solo_events i k (moved i s)

  pub Reach-solo :
      (i k : ℕ) {s : System A} {es : List (Event A)}
      → Reach s es
      → Reach (solo i k s) (es ++ solo_events i k s)
  unfolding solo solo_events
  Reach-solo i zero {s} {es} r = subst (Reach s) (sym (append-nil es)) r
  Reach-solo i (suc k) {s} {es} r =
      subst (Reach (solo i k (moved i s)))
        (append_assoc es (event i false s.shared (s.pc i)) (solo_events i k (moved i s)))
        (Reach-solo i k (later r (move i false)))

  pub pc-moved : (i : ℕ) (s : System A) → (moved i s).pc i ≡ (step i false s.shared (s.pc i)).1
  unfolding moved
  pc-moved i s = ground arith

  pub pc-moved_ne : (i j : ℕ) (s : System A) → i ≢ j → (moved i s).pc j ≡ s.pc j
  unfolding moved
  pc-moved_ne i j s ne = ground arith

  pc-solo :
      (i k : ℕ) (s : System A) (p : Pc A)
      → s.pc i ≡ p
      → (solo i k s).pc i ≡ (alone i k s.shared p).1
  unfolding solo alone
  pc-solo i zero s p e = e
  pc-solo i (suc k) s p e =
      pc-solo i k (moved i s) (step i false s.shared (s.pc i)).1 (pc-moved i s)
      ∙ ap (λ q. (alone i k (step i false s.shared q).0 (step i false s.shared q).1).1) e

  -- The other threads stay where they are.
  pub pc-solo_ne : (i j k : ℕ) (s : System A) → i ≢ j → (solo i k s).pc j ≡ s.pc j
  unfolding solo
  pc-solo_ne i j zero s ne = refl
  pc-solo_ne i j (suc k) s ne = pc-solo_ne i j k (moved i s) ne ∙ pc-moved_ne i j s ne

  -- A thread that runs alone comes to the end of its call.
  pub solo_finishes :
      {s : System A} {es : List (Event A)}
      → Reach s es
      → (i : ℕ) → (k : ℕ) × (finished ((solo i k s).pc i) ≡ true)
  solo_finishes {s} r i =
      let (k, e) = thread_alone_finishes r i in (k, ap finished (pc-solo i k s (s.pc i) refl) ∙ e)

  -- What a step of the thread keeps, it keeps while it runs alone. `P` speaks of what became visible
  -- since it began.
  pub solo_keeps {κ} :
      (P : System A → List (Event A) → Type κ) (i : ℕ)
      → ((s : System A) (es fs : List (Event A))
          → Reach s es
          → P s fs
          → P (moved i s) (fs ++ event i false s.shared (s.pc i)))
      → (k : ℕ) (s : System A) (es fs : List (Event A)) → Reach s es
      → P s fs
      → P (solo i k s) (fs ++ solo_events i k s)
  unfolding solo solo_events
  solo_keeps P i keep zero s es fs r h = subst (P s) (sym (append-nil fs)) h
  solo_keeps P i keep (suc k) s es fs r h =
      subst (P (solo i k (moved i s)))
        (append_assoc fs (event i false s.shared (s.pc i)) (solo_events i k (moved i s)))
        (solo_keeps P i keep k (moved i s) (es ++ event i false s.shared (s.pc i))
          (fs ++ event i false s.shared (s.pc i)) (later r (move i false)) (keep s es fs r h))
