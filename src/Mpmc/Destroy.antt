-- ===== src/Mpmc/Destroy.antt =====
-- tools/EBRQueue.hpp: the exit of the program. `EBRManager::instance()` is first called by a method of
-- the queue, so that it is constructed after the queue and destroyed before it.
use cccloud.Prelude.{
  ◌==◌, leb, ◌&&◌, ◌+◌, ◌-◌, ℕ, zero, suc, subst, sym, ◌≤◌, ◌<◌, ◌≡◌, ◌≢◌, inl, inr, true, false,
  List, [], ◌∷◌, none, some, arith, count, if◌then◌else◌, ltb, Bool-cases, dec_lt,
}
use cccloud.Epoch as Epoch
use cccloud.Epoch.History.{balance}
use cccloud.Epoch.Conservation.{count-destroy}
use cccloud.Mpmc.{Shared, Node, finished}
use cccloud.Mpmc.Ghost.{IsQueue, Ghost, owns}
use cccloud.Mpmc.Trace.{System, Event, Reach}
use cccloud.Mpmc.Reclaimed.{claims}
use cccloud.Mpmc.Reclaimed.Keeps.{Kept, Reach-Kept, finished_has_none}

-- The nodes from an address on, along `next` to the one without a next.
pub data Chain {ℓ} {A : Type ℓ} (nodes : ℕ → Node A) : ℕ → List ℕ → Type ℓ where
  last : {a : ℕ} → (nodes a).next ≡ none → Chain nodes a (a ∷ [])
  before :
      {a b : ℕ} {xs : List ℕ} → (nodes a).next ≡ some b → Chain nodes b xs → Chain nodes a (a ∷ xs)

module _ {A : Type 0} where
  -- The nodes from the position `i` on, each once.
  module _ (g : Ghost A) (s : Shared A) (queue : IsQueue g s) where
    counts_one :
        (i a : ℕ)
        → i < g.size
        → (if g.node_at i == a then 1 else 0) + (if g.is_linked a && ltb i (g.rank a) then 1 else 0)
          ≡ (if g.is_linked a && leb i (g.rank a) then 1 else 0)
    counts_one i a h = ground (arith, queue.placed i h, queue.ranked a)

    chain :
        (k i : ℕ)
        → i + suc k ≡ g.size
        → (xs : List ℕ) × Chain s.nodes (g.node_at i) xs
          × ((a : ℕ) → count a xs ≡ (if g.is_linked a && leb i (g.rank a) then 1 else 0))
    chain zero i e = (
      g.node_at i ∷ [],
      last (queue.last i (omega arith)),
      λ a. ground (arith, counts_one i a (omega arith), queue.ranked a),
    )
    chain (suc k) i e =
        let (xs, c, each) = chain k (suc i) (omega arith) in
        (
          g.node_at i ∷ xs,
          before (queue.links i (omega arith)) c,
          λ a. ground (arith, counts_one i a (omega arith), each a),
        )

  -- With no call under way, a node that was made is in the queue or was handed over.
  module _ (s : System A) (k : Kept s) (idle : (j : ℕ) → finished (s.pc j) ≡ true) where
    queue : IsQueue k.ghost s.shared
    queue = k.inv.queue

    no_claim : (j a : ℕ) → claims (s.pc j) ≢ some a
    no_claim j a there = absurd (cc ((finished_has_none (s.pc j) (idle j)).0, there))

    no_owner : (j a : ℕ) → owns (s.pc j) ≢ some a
    no_owner j a there = absurd (cc ((finished_has_none (s.pc j) (idle j)).1, there))

    passed :
        (a : ℕ)
        → k.ghost.is_linked a ≡ true
        → k.ghost.rank a < k.ghost.hd
        → balance a s.shared.ebr ≡ 1
    passed a l r = elim (k.keeps.spent a l r) [
      | inl (one, free) ↦ one
      | inr (none_yet, (j, there)) ↦ absurd (no_claim j a there)
    ]

    not_made : (a : ℕ) → k.ghost.is_linked a ≡ false → s.shared.fresh ≤ a
    not_made a l = elim (dec_lt a s.shared.fresh) [
      | yes f ↦ absurd (let (j, there) = k.keeps.owned a f l in no_owner j a there)
      | no h ↦ omega arith
    ]

    accounted :
        (a : ℕ)
        → (if k.ghost.is_linked a && leb k.ghost.hd (k.ghost.rank a) then 1 else 0)
            + balance a s.shared.ebr
          ≡ (if ltb a s.shared.fresh then 1 else 0)
    accounted a = elim (Bool-cases (k.ghost.is_linked a)) [
      | inl l ↦ elim (dec_lt (k.ghost.rank a) k.ghost.hd) [
        | yes r ↦ ground (arith, passed a l r, queue.ranked a l)
        | no r ↦ ground (arith, k.keeps.kept a (λ m. omega (arith, r)), queue.ranked a l)
      ]
      | inr u ↦ ground (arith, k.keeps.kept a (λ m. absurd (cc (u, m))), not_made a u)
    ]

  -- At any moment of any interleaving at which no call is under way, when the epoch manager is
  -- destroyed and the queue is not: the nodes from `head` on end at one without a next, and each node
  -- that was ever made is either among them, once, and not deleted, or deleted once; nothing else has
  -- been deleted.
  pub manager_destroyed_first :
      {s : System A} {es : List (Event A)}
      → Reach s es
      → ((j : ℕ) → finished (s.pc j) ≡ true)
      → (xs : List ℕ) × Chain s.shared.nodes s.shared.head xs
        × ((a : ℕ)
            → count a xs + count a (Epoch.destroy s.shared.ebr).freed
              ≡ (if ltb a s.shared.fresh then 1 else 0))
  manager_destroyed_first {s = s} reach idle =
      let k = Reach-Kept reach in
      let q = k.inv.queue in
      let (xs, c, each) =
        chain k.ghost s.shared q (k.ghost.size - suc k.ghost.hd) k.ghost.hd
          (omega (arith, q.ordered, q.within)) in
      (
        xs,
        subst (λ a. Chain s.shared.nodes a xs) (sym q.head_at) c,
        λ a. omega (arith, each a, count-destroy a s.shared.ebr, accounted s k idle a),
      )
