-- ===== src/Mpmc/Invariant.antt =====
-- The invariant at the start and after a step of a thread.
use cccloud.Prelude.{
  update, ==_iff, ℕ, ◌<◌, ◌≡◌, ◌≢◌, Bool, true, false, Option, none, some, refl, arith, ◌==◌,
  if◌then◌else◌, not, ◌&&◌, subst, sym, ◌∙◌, Bool-cases, Option-cases, inl, inr,
}
use cccloud.Epoch.{Manager}
use cccloud.Mpmc.{
  Shared, Pc, enq_begin, enq_loop, enq_tail, enq_next, enq_link, enq_swing, enq_help, enq_done,
  deq_begin, deq_loop, deq_head, deq_tail, deq_next, deq_help, deq_swap, deq_take, deq_done,
  empty_begin, empty_loop, empty_head, empty_tail, empty_done, wins, is_null, step, after_next,
  after_head, finds_empty, enter, leave, take,
}
use cccloud.Mpmc.Ghost.{Ghost, IsFine, owns, takes, WasHead, StillNext, Inv}
use cccloud.Mpmc.Frame.{Comes-Inv, follow, Comes, IsFine-here, local, linked_tail, linked_head}
use cccloud.Mpmc.Changes.{begin_enqueue-Comes, link-Comes, swap-Comes, take-Comes, swing-Comes}

-- A `next` that was loaded is still there.
StillNext-load {ℓ} :
    {A : Type ℓ} (s : Shared A) (a : ℕ) (o : Option ℕ) → (s.nodes a).next ≡ o → StillNext s a o
StillNext-load s a none e = tt
StillNext-load s a (some x) e = e

pub null_of_won : (spurious : Bool) (o : Option ℕ) → (not spurious && is_null o) ≡ true → o ≡ none
unfolding is_null
null_of_won false none e = refl
null_of_won false (some x) e = cc
null_of_won true o e = cc

pub equal_of_won : (spurious : Bool) (a b : ℕ) → wins spurious a b ≡ true → a ≡ b
unfolding wins
equal_of_won spurious a b e = ground arith

module _ {ℓ} {A : Type ℓ} {g : Ghost A} {s : Shared A} {pc : ℕ → Pc A} (inv : Inv g s pc)
    (i : ℕ) where
  -- The thread moves on without changing the memory.
  stay :
      (p p' : Pc A)
      → pc i ≡ p
      → IsFine g s p'
      → ((n : ℕ) → owns p' ≡ some n → owns p ≡ some n)
      → takes p' ≡ none
      → Comes inv i g s p'
  stay p p' e f keep free = local inv i p e s.ebr p' f keep free

  after_next-Comes :
      (n t : ℕ) (link : Option ℕ)
      → pc i ≡ enq_next n t link
      → Comes inv i g s (after_next s n t link)
  unfolding after_next
  after_next-Comes n t none e = elim (Bool-cases (s.tail == t)) [
    | inl same ↦ rw same (stay _ _ e (ground (arith, IsFine-here inv i _ e)) (λ m h. h) refl)
    | inr gone ↦ rw gone (stay _ _ e (ground (arith, IsFine-here inv i _ e)) (λ m h. h) refl)
  ]
  after_next-Comes n t (some x) e = elim (Bool-cases (s.tail == t)) [
    | inl same ↦ rw same (stay _ _ e (ground (arith, IsFine-here inv i _ e)) (λ m h. h) refl)
    | inr gone ↦ rw gone (stay _ _ e (ground (arith, IsFine-here inv i _ e)) (λ m h. h) refl)
  ]

  after_head-IsFine :
      (h t : ℕ) (link : Option ℕ)
      → IsFine g s (deq_next h t link)
      → IsFine g s (after_head h t link)
  unfolding after_head
  after_head-IsFine h t none f = elim (Bool-cases (h == t)) [ inl e ↦ rw e tt | inr e ↦ rw e tt ]
  after_head-IsFine h t (some x) f = elim (Bool-cases (h == t)) [
    | inl e ↦
        (let same : h ≡ t = (==_iff h t).0 e in
          rw e (
            subst (λ a. g.is_linked a ≡ true) same f.0.0,
            subst (λ a. (s.nodes a).next ≡ some x) same f.2,
            tt,
          ))
    | inr e ↦ rw e (f.0, f.1 (λ same. cc ((==_iff h t).1 same)), f.2, tt)
  ]

  after_head-free :
      (h t : ℕ) (link : Option ℕ)
      → (owns (after_head {A = A} h t link) ≡ none) × (takes (after_head {A = A} h t link) ≡ none)
  unfolding after_head
  after_head-free h t none = elim (Bool-cases (h == t)) [
    | inl e ↦ rw e (refl, refl)
    | inr e ↦ rw e (refl, refl)
  ]
  after_head-free h t (some x) = elim (Bool-cases (h == t)) [
    | inl e ↦ rw e (refl, refl)
    | inr e ↦ rw e (refl, refl)
  ]

  -- Where the thread goes after its second load of `head`, with the epoch manager's new state.
  after_load-Comes :
      (h t : ℕ) (link : Option ℕ) (m : Manager)
      → pc i ≡ deq_next h t link
      → Comes inv i g (record s { ebr = m }) (if s.head == h then after_head h t link else deq_loop)
  after_load-Comes h t link m e = elim (Bool-cases (s.head == h)) [
    | inl same ↦ rw same (
        local inv i _ e m (after_head h t link) (after_head-IsFine h t link (IsFine-here inv i _ e))
          (λ n k. absurd (cc ((after_head-free h t link).0))) (after_head-free h t link).1)
    | inr gone ↦ rw gone (local inv i _ e m deq_loop tt (λ n k. absurd (cc)) refl)
  ]

  -- The data of a claimed node is there, so the branch that finds none is never taken.
  pub claimed_value :
      (h x : ℕ)
      → pc i ≡ deq_take h x
      → (v : A) × ((s.nodes x).payload ≡ some v) × (g.value (g.rank x) ≡ some v)
  claimed_value h x e = elim (Option-cases (s.nodes x).payload) [
    | inl gone ↦
        absurd
          (inv.queue.valued (g.rank x) fine.1 (inv.queue.ranked x fine.0).0 (sym fine.3 ∙ gone))
    | inr (v, f) ↦ (v, f, sym fine.3 ∙ f)
  ]
    where
      fine : IsFine g s (deq_take h x)
      fine = IsFine-here inv i (deq_take h x) e

  -- A head that differs from `tail` stands before it.
  tail_beyond : (h : ℕ) → WasHead g h → h ≢ s.tail → g.rank h < g.tl
  tail_beyond h w ne = ground (arith, inv.queue.ranked h, inv.queue.tail_at, inv.queue.ordered)

  pub step-Comes :
      (spurious : Bool) (p : Pc A)
      → pc i ≡ p
      → Comes inv i (follow spurious g s p) (step i spurious s p).0 (step i spurious s p).1
  unfolding step follow enter leave take
  step-Comes spurious (enq_begin v) e = begin_enqueue-Comes inv i v _ e
  step-Comes spurious (enq_loop n) e =
      stay _ _ e (IsFine-here inv i _ e, (linked_tail inv i _ e).0) (λ m h. h) refl
  step-Comes spurious (enq_tail n t) e =
      stay _ _ e (f.0, f.1, StillNext-load s t _ refl) (λ m h. h) refl
    where
      f : IsFine g s (enq_tail n t)
      f = IsFine-here inv i _ e
  step-Comes spurious (enq_next n t link) e = after_next-Comes n t link e
  step-Comes spurious (enq_link n t) e =
      elim (Bool-cases (not spurious && is_null (s.nodes t).next)) [
        | inl won ↦ rw won (link-Comes inv i n t e (null_of_won spurious (s.nodes t).next won))
        | inr lost ↦ rw lost (stay _ _ e (IsFine-here inv i (enq_link n t) e).0 (λ m h. h) refl)
      ]
  step-Comes spurious (enq_swing n t) e =
      swing-Comes inv i spurious t n _ _ _ e (IsFine-here inv i (enq_swing n t) e).1 tt
        (λ m h. absurd (cc)) refl
  step-Comes spurious (enq_help n t x) e =
      swing-Comes inv i spurious t x _ _ _ e (IsFine-here inv i (enq_help n t x) e).2
        (IsFine-here inv i (enq_help n t x) e).0 (λ m h. h) refl
  step-Comes spurious enq_done e = stay _ _ e tt (λ m h. h) refl
  step-Comes spurious deq_begin e = local inv i _ e _ deq_loop tt (λ m h. absurd (cc)) refl
  step-Comes spurious deq_loop e =
      stay _ _ e (ground (arith, linked_head inv i _ e)) (λ m h. absurd (cc)) refl
  step-Comes spurious (deq_head h) e =
      stay _ _ e (f.0, tail_beyond h f.0, tt) (λ m h. absurd (cc)) refl
    where
      f : IsFine g s (deq_head h)
      f = IsFine-here inv i _ e
  step-Comes spurious (deq_tail h t) e =
      stay _ _ e (f.0, f.1, StillNext-load s h _ refl, tt) (λ m h. absurd (cc)) refl
    where
      f : IsFine g s (deq_tail h t)
      f = IsFine-here inv i _ e
  step-Comes spurious (deq_next h t link) e = elim (Bool-cases (finds_empty s h t link)) [
    | inl empty ↦ rw empty (after_load-Comes h t link _ e)
    | inr not_empty ↦ rw not_empty (after_load-Comes h t link s.ebr e)
  ]
  step-Comes spurious (deq_help t x) e =
      swing-Comes inv i spurious t x _ _ _ e (IsFine-here inv i (deq_help t x) e).1 tt
        (λ m h. absurd (cc)) refl
  step-Comes spurious (deq_swap h x) e = elim (Bool-cases (wins spurious s.head h)) [
    | inl won ↦ rw won (swap-Comes inv i h x e (equal_of_won spurious s.head h won))
    | inr lost ↦ rw lost (stay _ _ e tt (λ m h. absurd (cc)) refl)
  ]
  step-Comes spurious (deq_take h x) e =
      let (v, f, _) = claimed_value h x e in rw f (take-Comes inv i h x v _ e)
  step-Comes spurious (deq_done o) e = stay _ _ e tt (λ m h. h) refl
  step-Comes spurious empty_begin e = local inv i _ e _ empty_loop tt (λ m h. absurd (cc)) refl
  step-Comes spurious empty_loop e =
      stay _ _ e (ground (arith, linked_head inv i _ e)) (λ m h. absurd (cc)) refl
  step-Comes spurious (empty_head h) e =
      stay _ _ e (IsFine-here inv i (empty_head h) e) (λ m h. absurd (cc)) refl
  step-Comes spurious (empty_tail h t) e =
      local inv i _ e _ (empty_done _) tt (λ m h. absurd (cc)) refl
  step-Comes spurious (empty_done b) e = stay _ _ e tt (λ m h. h) refl

  -- A step of thread `i`, and the call that it may begin.
  pub step-Inv :
      (spurious : Bool)
      → Inv
          (follow spurious g s (pc i))
          (step i spurious s (pc i)).0
          (update pc i (step i spurious s (pc i)).1)
  step-Inv spurious = Comes-Inv inv i _ _ _ (step-Comes spurious (pc i) refl)

  pub begin-Inv :
      (p' : Pc A) → IsFine g s p' → owns p' ≡ none → takes p' ≡ none → Inv g s (update pc i p')
  begin-Inv p' f free idle =
      Comes-Inv inv i g s p' (stay (pc i) p' refl f (λ n h. absurd (cc)) idle)
