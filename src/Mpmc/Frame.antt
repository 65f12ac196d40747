-- ===== src/Mpmc/Frame.antt =====
-- What a step of one thread has to show, and the steps that change little.
use mathlib.Core.Logic.{if_pos, if_neg}
use cccloud.Prelude.{
  ℕ, ◌≡◌, ◌≢◌, Bool, true, Option, none, some, update, arith, if◌then◌else◌, not, ◌&&◌, subst, sym,
  ◌∙◌, ℕ_discrete,
}
use cccloud.Epoch.{Manager}
use cccloud.Mpmc.{
  Shared, Pc, enq_begin, enq_next, enq_link, enq_swing, enq_help, deq_next, deq_help, deq_swap,
  wins, is_null,
}
use cccloud.Mpmc.Ghost.{Ghost, IsQueue, IsFine, owns, takes, Inv}
use cccloud.Mpmc.Link.{append}
use cccloud.Mpmc.Pointers.{advance_tail, tail-IsQueue, tail-IsFine, advance_head}

module _ {ℓ} {A : Type ℓ} where
  -- How the ghost follows a step.
  unfoldable pub follow : Bool → Ghost A → Shared A → Pc A → Ghost A
  follow spurious g s (enq_link n t) =
      if not spurious && is_null (s.nodes t).next then append g n (s.nodes n).payload else g
  follow spurious g s (enq_swing n t) = if wins spurious s.tail t then advance_tail g else g
  follow spurious g s (enq_help n t x) = if wins spurious s.tail t then advance_tail g else g
  follow spurious g s (deq_help t x) = if wins spurious s.tail t then advance_tail g else g
  follow spurious g s (deq_swap h x) = if wins spurious s.head h then advance_head g else g
  follow spurious g s _ = g

  pub ebr-IsQueue :
      (g : Ghost A) (s : Shared A) (e : Manager) → IsQueue g s → IsQueue g (record s { ebr = e })
  ebr-IsQueue g s e q = record {
    ordered = q.ordered;
    within = q.within;
    head_at = q.head_at;
    tail_at = q.tail_at;
    placed = q.placed;
    ranked = q.ranked;
    links = q.links;
    last = q.last;
    filled = q.filled;
    valued = q.valued;
  }

  pub ebr-IsFine :
      (g : Ghost A) (s : Shared A) (e : Manager) (p : Pc A)
      → IsFine g s p
      → IsFine g (record s { ebr = e }) p
  ebr-IsFine g s e (enq_begin v) f = f
  ebr-IsFine g s e (enq_next n t none) f = f
  ebr-IsFine g s e (enq_next n t (some x)) f = f
  ebr-IsFine g s e (deq_next n t none) f = f
  ebr-IsFine g s e (deq_next n t (some x)) f = f
  ebr-IsFine g s e _ f = f

-- A partial injection of threads stays one where a thread's new value is taken by no other.
update_unique {ℓ} :
    {P : Type ℓ} (f : P → Option ℕ) (pc : ℕ → P) (i : ℕ) (p' : P) (n : ℕ)
    → (f p' ≡ some n → (j : ℕ) → i ≢ j → f (pc j) ≢ some n)
    → ((j k : ℕ) → f (pc j) ≡ some n → f (pc k) ≡ some n → j ≡ k)
    → (j k : ℕ) → f (update pc i p' j) ≡ some n
    → f (update pc i p' k) ≡ some n
    → j ≡ k
update_unique f pc i p' n alone old j k a b = elim (ℕ_discrete i j) [
  | yes e ↦ elim (ℕ_discrete i k) [
    | yes e' ↦ sym e ∙ e'
    | no ne ↦
        absurd
          (alone (rw (if_pos (ℕ_discrete i j) e) at a) k ne (rw (if_neg (ℕ_discrete i k) ne) at b))
  ]
  | no ne ↦ elim (ℕ_discrete i k) [
    | yes e' ↦
        absurd
          (alone (rw (if_pos (ℕ_discrete i k) e') at b) j ne (rw (if_neg (ℕ_discrete i j) ne) at a))
    | no ne' ↦
        old j k (rw (if_neg (ℕ_discrete i j) ne) at a) (rw (if_neg (ℕ_discrete i k) ne') at b)
  ]
]

module _ {ℓ} {A : Type ℓ} {g : Ghost A} {s : Shared A} {pc : ℕ → Pc A} (inv : Inv g s pc)
    (i : ℕ) where
  -- Thread `i` comes to `p'`, the memory to `s'`, the ghost to `g'`.
  pub record Comes (g' : Ghost A) (s' : Shared A) (p' : Pc A) : Type ℓ where
    pub queue : IsQueue g' s'
    pub mine : IsFine g' s' p'
    pub others : (j : ℕ) → i ≢ j → IsFine g' s' (pc j)
    pub own : (n : ℕ) → owns p' ≡ some n → (j : ℕ) → i ≢ j → owns (pc j) ≢ some n
    pub take : (x : ℕ) → takes p' ≡ some x → (j : ℕ) → i ≢ j → takes (pc j) ≢ some x

  pub Comes-Inv :
      (g' : Ghost A) (s' : Shared A) (p' : Pc A) → Comes g' s' p' → Inv g' s' (update pc i p')
  Comes-Inv g' s' p' c = record {
    queue = c.queue;
    fine = λ j. elim (ℕ_discrete i j) [
      | yes e ↦ rw (if_pos (ℕ_discrete i j) e) c.mine
      | no e ↦ rw (if_neg (ℕ_discrete i j) e) (c.others j e)
    ];
    owners = λ j k n a b. update_unique owns pc i p' n (c.own n) (λ j k. inv.owners j k n) j k a b;
    takers =
        λ j k n a b. update_unique takes pc i p' n (c.take n) (λ j k. inv.takers j k n) j k a b;
  }

  -- A step of thread `i`, which stands at `p`, that leaves nodes, `head` and `tail` alone.
  module _ (p : Pc A) (at_p : pc i ≡ p) where
    pub IsFine-here : IsFine g s p
    IsFine-here = subst (IsFine g s) at_p (inv.fine i)

    pub owned_alone : (n : ℕ) → owns p ≡ some n → (j : ℕ) → i ≢ j → owns (pc j) ≢ some n
    owned_alone n h j ne other =
        ne (inv.owners i j n (subst (λ r. owns r ≡ some n) (sym at_p) h) other)

    pub taken_alone : (x : ℕ) → takes p ≡ some x → (j : ℕ) → i ≢ j → takes (pc j) ≢ some x
    taken_alone x h j ne other =
        ne (inv.takers i j x (subst (λ r. takes r ≡ some x) (sym at_p) h) other)

    pub local :
        (e : Manager) (p' : Pc A)
        → IsFine g s p'
        → ((n : ℕ) → owns p' ≡ some n → owns p ≡ some n)
        → takes p' ≡ none
        → Comes g (record s { ebr = e }) p'
    local e p' f keep free = record {
      queue = ebr-IsQueue g s e inv.queue;
      mine = ebr-IsFine g s e p' f;
      others = λ j ne. ebr-IsFine g s e (pc j) (inv.fine j);
      own = λ n h. owned_alone n (keep n h);
      take = λ x h. absurd (cc);
    }

    -- The same with `tail` moved to its successor `x`.
    pub moved_tail :
        (e : Manager) (x : ℕ) (p' : Pc A)
        → (s.nodes s.tail).next ≡ some x
        → IsFine g s p'
        → ((n : ℕ) → owns p' ≡ some n → owns p ≡ some n)
        → takes p' ≡ none
        → Comes (advance_tail g) (record s { tail = x; ebr = e }) p'
    moved_tail e x p' next f keep free = record {
      queue =
          ebr-IsQueue (advance_tail g) (record s { tail = x }) e
            (tail-IsQueue g s x inv.queue next);
      mine = ebr-IsFine (advance_tail g) (record s { tail = x }) e p' (tail-IsFine g s x p' f);
      others = λ j ne.
          ebr-IsFine (advance_tail g) (record s { tail = x }) e (pc j)
            (tail-IsFine g s x (pc j) (inv.fine j));
      own = λ n h. owned_alone n (keep n h);
      take = λ x h. absurd (cc);
    }

    pub linked_tail : (g.is_linked s.tail ≡ true) × (g.rank s.tail ≡ g.tl)
    linked_tail = ground (arith, inv.queue.tail_at, inv.queue.placed g.tl inv.queue.within)

    pub linked_head : (g.is_linked s.head ≡ true) × (g.rank s.head ≡ g.hd)
    linked_head =
        ground
          (arith, inv.queue.head_at, inv.queue.ordered, inv.queue.within, inv.queue.placed g.hd)
