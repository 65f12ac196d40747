-- ===== src/Mpmc/Ghost.antt =====
-- The invariant of the queue, by positions: the nodes ever linked, in order, with `head` and
-- `tail` among them, and what the locals of each thread say.
use cccloud.Prelude.{ℕ, suc, ◌≤◌, ◌<◌, ◌≡◌, ◌≢◌, Bool, true, false, Option, none, some}
use cccloud.Mpmc.{
  Shared, Pc, enq_loop, enq_tail, enq_next, enq_link, enq_swing, enq_help, deq_head, deq_tail,
  deq_next, deq_help, deq_swap, deq_take, empty_head, empty_tail,
}

-- `node_at` gives the address at a position, `rank` the position of a linked address, `value` the
-- value enqueued there; `size` nodes have been linked, `hd` and `tl` are the positions of `head`
-- and `tail`.
pub record Ghost {ℓ} (A : Type ℓ) : Type ℓ where
  pub node_at : ℕ → ℕ
  pub rank : ℕ → ℕ
  pub is_linked : ℕ → Bool
  pub value : ℕ → Option A
  pub size : ℕ
  pub hd : ℕ
  pub tl : ℕ

module _ {ℓ} {A : Type ℓ} where
  pub record IsQueue (g : Ghost A) (s : Shared A) : Type ℓ where
    pub ordered : g.hd ≤ g.tl
    pub within : g.tl < g.size
    pub head_at : s.head ≡ g.node_at g.hd
    pub tail_at : s.tail ≡ g.node_at g.tl
    pub placed :
        (i : ℕ) → i < g.size → (g.is_linked (g.node_at i) ≡ true) × (g.rank (g.node_at i) ≡ i)
    pub ranked :
        (a : ℕ)
        → g.is_linked a ≡ true
        → (g.rank a < g.size) × (g.node_at (g.rank a) ≡ a) × (a < s.fresh)
    pub links : (i : ℕ) → suc i < g.size → (s.nodes (g.node_at i)).next ≡ some (g.node_at (suc i))
    pub last : (i : ℕ) → suc i ≡ g.size → (s.nodes (g.node_at i)).next ≡ none
    pub filled : (i : ℕ) → g.hd < i → i < g.size → (s.nodes (g.node_at i)).payload ≡ g.value i
    pub valued : (i : ℕ) → 0 < i → i < g.size → g.value i ≢ none

  -- The node that a thread has made and not yet linked.
  abbrev pub owns : Pc A → Option ℕ
  owns (enq_loop n) = some n
  owns (enq_tail n t) = some n
  owns (enq_next n t link) = some n
  owns (enq_link n t) = some n
  owns (enq_help n t x) = some n
  owns _ = none

  -- The node that a thread has claimed and not yet emptied.
  abbrev pub takes : Pc A → Option ℕ
  takes (deq_take h x) = some x
  takes _ = none

  abbrev pub Owned : Ghost A → Shared A → ℕ → Type ℓ
  Owned g s n =
      (g.is_linked n ≡ false)
      × (n < s.fresh)
      × ((s.nodes n).next ≡ none)
      × ((s.nodes n).payload ≢ none)

  -- A loaded `next` that was not null is still there.
  abbrev pub StillNext : Shared A → ℕ → Option ℕ → Type 0
  StillNext s a none = Unit
  StillNext s a (some x) = (s.nodes a).next ≡ some x

  -- The head was at `h`, and at or behind it now; `tail` is behind a head that it differed from.
  abbrev pub WasHead : Ghost A → ℕ → Type 0
  WasHead g h = (g.is_linked h ≡ true) × (g.rank h ≤ g.hd)

  -- What the locals of a thread say.
  abbrev pub IsFine : Ghost A → Shared A → Pc A → Type ℓ
  IsFine g s (enq_loop n) = Owned g s n
  IsFine g s (enq_tail n t) = Owned g s n × (g.is_linked t ≡ true)
  IsFine g s (enq_next n t link) = Owned g s n × (g.is_linked t ≡ true) × StillNext s t link
  IsFine g s (enq_link n t) = Owned g s n × (g.is_linked t ≡ true)
  IsFine g s (enq_swing n t) = (g.is_linked t ≡ true) × ((s.nodes t).next ≡ some n) × Unit {ℓ}
  IsFine g s (enq_help n t x) = Owned g s n × (g.is_linked t ≡ true) × ((s.nodes t).next ≡ some x)
  IsFine g s (deq_head h) = WasHead g h × Unit {ℓ}
  IsFine g s (deq_tail h t) = WasHead g h × (h ≢ t → g.rank h < g.tl) × Unit {ℓ}
  IsFine g s (deq_next h t link) =
      WasHead g h × (h ≢ t → g.rank h < g.tl) × StillNext s h link × Unit {ℓ}
  IsFine g s (deq_help t x) = (g.is_linked t ≡ true) × ((s.nodes t).next ≡ some x) × Unit {ℓ}
  IsFine g s (deq_swap h x) =
      WasHead g h × (g.rank h < g.tl) × ((s.nodes h).next ≡ some x) × Unit {ℓ}
  IsFine g s (deq_take h x) =
      (g.is_linked x ≡ true)
      × (0 < g.rank x)
      × (g.rank x ≤ g.hd)
      × ((s.nodes x).payload ≡ g.value (g.rank x))
      × (g.is_linked h ≡ true)
      × ((s.nodes h).next ≡ some x)
  IsFine g s (empty_head h) = WasHead g h × Unit {ℓ}
  IsFine g s (empty_tail h t) = WasHead g h × Unit {ℓ}
  IsFine g s _ = Unit

  pub record Inv (g : Ghost A) (s : Shared A) (pc : ℕ → Pc A) : Type ℓ where
    pub queue : IsQueue g s
    pub fine : (j : ℕ) → IsFine g s (pc j)
    pub owners : (j k n : ℕ) → owns (pc j) ≡ some n → owns (pc k) ≡ some n → j ≡ k
    pub takers : (j k x : ℕ) → takes (pc j) ≡ some x → takes (pc k) ≡ some x → j ≡ k
