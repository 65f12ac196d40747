-- ===== src/Mpmc/Books.antt =====
-- Histories of a queue as lists of values, and the positions that they fill.
use cccloud.Prelude.{
  ap₂, ℕ, zero, suc, ◌+◌, ◌-◌, ◌≤◌, ◌≡◌, List, [], ◌∷◌, ◌++◌, Option, none, some, update, refl,
  arith, ap, ◌∙◌,
}
use cccloud.Mpmc.Ghost.{Ghost}
use cccloud.Mpmc.Trace.{Event, linked, claimed, enqueued, dequeued, linked_event, claimed_event}

module _ {ℓ} {A : Type ℓ} where
  abbrev pub cons? : Option A → List A → List A
  cons? none vs = vs
  cons? (some v) vs = v ∷ vs

  -- The `k` values from position `i` on.
  unfoldable pub slice : (ℕ → Option A) → ℕ → ℕ → List A
  slice f i zero = []
  slice f i (suc k) = cons? (f i) (slice f (suc i) k)

  cons?-append : (o : Option A) (vs ws : List A) → cons? o (vs ++ ws) ≡ cons? o vs ++ ws
  cons?-append none vs ws = refl
  cons?-append (some v) vs ws = refl

  pub slice-snoc :
      (f : ℕ → Option A) (i k : ℕ) → slice f i (suc k) ≡ slice f i k ++ cons? (f (i + k)) []
  unfolding slice
  slice-snoc f i zero = ap (λ n. cons? (f n) []) (omega arith)
  slice-snoc f i (suc k) =
      ap (cons? (f i)) (slice-snoc f (suc i) k)
      ∙ (cons?-append (f i) (slice f (suc i) k) (cons? (f (suc i + k)) [])
          ∙ ap (λ n. slice f i (suc k) ++ cons? (f n) []) (omega arith))

  pub slice-split :
      (f : ℕ → Option A) (i j k : ℕ) → slice f i (j + k) ≡ slice f i j ++ slice f (i + j) k
  unfolding slice
  slice-split f i zero k = ap₂ (slice f) (omega arith) (omega arith)
  slice-split f i (suc j) k =
      ap (slice f i) (let e : suc j + k ≡ suc (j + k) = omega arith in e)
      ∙ (ap (cons? (f i)) (slice-split f (suc i) j k)
          ∙ (cons?-append (f i) (slice f (suc i) j) (slice f (suc i + j) k)
              ∙ ap (λ n. slice f i (suc j) ++ slice f n k) (omega arith)))

  -- A value written past the slice does not show in it.
  pub slice-update :
      (f : ℕ → Option A) (i k n : ℕ) (o : Option A)
      → i + k ≤ n
      → slice (update f n o) i k ≡ slice f i k
  unfolding slice
  slice-update f i zero n o h = refl
  slice-update f i (suc k) n o h =
      ap₂ cons? (ground arith) (slice-update f (suc i) k n o (omega arith))

  pub enqueued-append : (es fs : List (Event A)) → enqueued (es ++ fs) ≡ enqueued es ++ enqueued fs
  unfolding enqueued
  enqueued-append [] fs = refl
  enqueued-append (linked v ∷ es) fs = ap (λ vs. v ∷ vs) (enqueued-append es fs)
  enqueued-append (claimed i v ∷ es) fs = enqueued-append es fs

  pub dequeued-append : (es fs : List (Event A)) → dequeued (es ++ fs) ≡ dequeued es ++ dequeued fs
  unfolding dequeued
  dequeued-append [] fs = refl
  dequeued-append (linked v ∷ es) fs = dequeued-append es fs
  dequeued-append (claimed i v ∷ es) fs = ap (λ vs. v ∷ vs) (dequeued-append es fs)

  -- The history and the positions agree.
  pub record Books (g : Ghost A) (es : List (Event A)) : Type ℓ where
    pub came : enqueued es ≡ slice g.value 1 (g.size - 1)
    pub went : dequeued es ≡ slice g.value 1 g.hd

  pub enqueued-linked : (o : Option A) → enqueued (linked_event o) ≡ cons? o []
  unfolding enqueued
  enqueued-linked none = refl
  enqueued-linked (some v) = refl

  pub dequeued-linked : (o : Option A) → dequeued (linked_event o) ≡ []
  unfolding dequeued
  dequeued-linked none = refl
  dequeued-linked (some v) = refl

  pub enqueued-claimed : (i : ℕ) (o : Option A) → enqueued (claimed_event i o) ≡ []
  unfolding enqueued
  enqueued-claimed i none = refl
  enqueued-claimed i (some v) = refl

  pub dequeued-claimed : (i : ℕ) (o : Option A) → dequeued (claimed_event i o) ≡ cons? o []
  unfolding dequeued
  dequeued-claimed i none = refl
  dequeued-claimed i (some v) = refl
