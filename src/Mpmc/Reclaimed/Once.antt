-- ===== src/Mpmc/Reclaimed/Once.antt =====
-- What is retired while threads run, in any interleaving.
use cccloud.Prelude.{ℕ, ◌≤◌, ◌≡◌, List, arith, inl, inr, Bool-cases, dec_lt}
use cccloud.Epoch.History.{balance}
use cccloud.Mpmc.Trace.{System, Event, Reach}
use cccloud.Mpmc.Reclaimed.Keeps.{Kept, Reach-Kept}

module _ {ℓ} {A : Type ℓ} where
  at_most_once : (s : System A) (k : Kept s) (a : ℕ) → balance a s.shared.ebr ≤ 1
  at_most_once s k a = elim (Bool-cases (k.ghost.is_linked a)) [
    | inr u ↦ omega (arith, k.keeps.kept a (λ m. absurd (cc (u, m))))
    | inl l ↦ elim (dec_lt (k.ghost.rank a) k.ghost.hd) [
      | no r ↦ omega (arith, k.keeps.kept a (λ m. omega (arith, r)))
      | yes r ↦ elim (k.keeps.spent a l r) [
        | inl (one, free) ↦ omega (arith, one)
        | inr (none_yet, more) ↦ omega (arith, none_yet)
      ]
    ]
  ]

  -- In every reachable state no node has been handed to the epoch manager twice, and neither the
  -- node at `head` nor the one at `tail` has been handed to it.
  pub retired_at_most_once :
      {s : System A} {es : List (Event A)}
      → Reach s es
      → ((a : ℕ) → balance a s.shared.ebr ≤ 1)
        × (balance s.shared.head s.shared.ebr ≡ 0)
        × (balance s.shared.tail s.shared.ebr ≡ 0)
  retired_at_most_once {s} r =
      let k = Reach-Kept r in
      let q = k.inv.queue in
      (
        at_most_once s k,
        k.keeps.kept s.shared.head
            (λ m. ground (arith, q.head_at, q.ordered, q.within, q.placed k.ghost.hd)),
        k.keeps.kept s.shared.tail
            (λ m. ground (arith, q.tail_at, q.ordered, q.within, q.placed k.ghost.tl)),
      )
