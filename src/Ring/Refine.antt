-- ===== src/Ring/Refine.antt =====
-- A ring against the FIFO queue of at most `capacity_ - 1` values.
use native.Mathlib.Nat.{mod-add-mod, mod-eq_of_lt, mod-eq-sub-mod, add-zero}
use cccloud.Prelude.{
  ℕ, zero, suc, ◌+◌, ◌-◌, ◌%◌, ◌≤◌, ◌<◌, ◌≡◌, ◌≢◌, ◌⊎◌, ◌↔◌, ℕ_discrete, inl, inr, refl, ap, ap₂,
  ◌∙◌, List, [], ◌∷◌, ◌++◌, arith, dec_lt, length, get_or, set, get_or-set_self, get_or-set_ne,
  if◌then◌else◌, ltb,
}
use cccloud.Ring.{Ring, next_index, try_enqueue, try_dequeue, size}
use cccloud.Ring.Valid.{IsValid, next_index-eq}
use cccloud.Ring.Queue.{queue_put, queue_get}

module _ {ℓ} {A : Type ℓ} where
  -- The `n` values from index `h` on, going round at `c`.
  abbrev pub window : A → List A → ℕ → ℕ → ℕ → List A
  window blank buf c h zero = []
  window blank buf c h (suc n) = get_or buf h blank ∷ window blank buf c ((h + 1) % c) n

  -- How many slots lie between `head_` and `tail_`.
  unfoldable pub used : Ring A → ℕ
  used r = if ltb r.tail r.head then r.tail + r.capacity - r.head else r.tail - r.head

  unfoldable pub contents : A → Ring A → List A
  contents blank r = window blank r.buffer r.capacity r.head (used r)

  length-window : (blank : A) (buf : List A) (c h n : ℕ) → length (window blank buf c h n) ≡ n
  length-window blank buf c h zero = refl
  length-window blank buf c h (suc n) = ap suc (length-window blank buf c ((h + 1) % c) n)

  pub length-contents : (blank : A) (r : Ring A) → length (contents blank r) ≡ used r
  unfolding contents
  length-contents blank r = length-window blank r.buffer r.capacity r.head (used r)

  window_of_pos :
      (blank : A) (buf : List A) (c h n : ℕ)
      → 0 < n
      → window blank buf c h n ≡ get_or buf h blank ∷ window blank buf c ((h + 1) % c) (n - 1)
  window_of_pos blank buf c h zero p = absurd (omega arith)
  window_of_pos blank buf c h (suc n) p = ap (λ k. window blank buf c h (suc k)) (omega arith)

-- `% c` below `2 * c`, by cases.
pub mod_cases : (x c : ℕ) → x < c + c → ((x < c) × (x % c ≡ x)) ⊎ ((c ≤ x) × (x % c ≡ x - c))
mod_cases x c h = elim (dec_lt x c) [
  | yes p ↦ inl (p, mod-eq_of_lt p)
  | no p ↦ inr (
    omega arith,
    mod-eq-sub-mod {n = x} {m = c} (omega arith) ∙ mod-eq_of_lt {n = x - c} {m = c} (omega arith),
  )
]

-- Fewer than `c` steps round the ring do not come back to the start.
add-mod-ne : (c h k : ℕ) → h < c → suc k < c → (h + suc k) % c ≢ h
add-mod-ne c h k hh hk = grind (arith, mod_cases (h + suc k) c)

module _ {ℓ} {A : Type ℓ} where
  -- Writing just past a window extends it by that value.
  window-set :
      (blank : A) (buf : List A) (c : ℕ) (v : A) (n h i : ℕ)
      → c ≤ length buf
      → h < c
      → n < c
      → i ≡ (h + n) % c
      → window blank (set buf i v) c h (suc n) ≡ window blank buf c h n ++ (v ∷ [])
  window-set blank buf c v zero h i hs hh hn e =
      rw (e, add-zero, mod-eq_of_lt hh, get_or-set_self buf h v blank (omega arith))
  window-set blank buf c v (suc n) h i hs hh hn e =
      ap₂ ◌∷◌ (get_or-set_ne buf v blank (rw e (add-mod-ne c h n hh hn)))
        (window-set blank buf c v n ((h + 1) % c) i hs (grind arith) (omega arith) (e ∙ shift))
    where
      shift : (h + suc n) % c ≡ ((h + 1) % c + n) % c
      shift = rw mod-add-mod (ap (λ k. k % c) (omega arith))

  tail-used : {r : Ring A} → IsValid r → r.tail ≡ (r.head + used r) % r.capacity
  unfolding used
  tail-used {r} ok = grind (
    arith,
    mod_cases (r.head + (r.tail - r.head)) r.capacity,
    mod_cases (r.head + (r.tail + r.capacity - r.head)) r.capacity,
  )

  -- When the next index would meet `head_`, all slots but one are in use.
  pub used_of_full :
      {r : Ring A} → IsValid r → next_index r.capacity r.tail ≡ r.head → used r + 1 ≡ r.capacity
  unfolding used
  used_of_full {r} ok e = ground (
    arith,
    next_index-eq r.capacity r.tail ok.small ok.tail_in,
    mod_cases (r.tail + 1) r.capacity,
  )

  pub used-advance_tail :
      {r : Ring A}
      → IsValid r
      → next_index r.capacity r.tail ≢ r.head
      → (buf : List A)
      → (used (record r { tail = next_index r.capacity r.tail; buffer = buf }) ≡ used r + 1)
        × (used r + 1 < r.capacity)
  unfolding used
  used-advance_tail {r} ok e buf = ground (
    arith,
    next_index-eq r.capacity r.tail ok.small ok.tail_in,
    mod_cases (r.tail + 1) r.capacity,
  )

  used-advance_head :
      {r : Ring A}
      → IsValid r
      → r.head ≢ r.tail
      → (used (record r { head = next_index r.capacity r.head }) ≡ used r - 1) × (0 < used r)
  unfolding used
  used-advance_head {r} ok e = ground (
    arith,
    next_index-eq r.capacity r.head ok.small ok.head_in,
    mod_cases (r.head + 1) r.capacity,
  )

  pub used_of_empty : {r : Ring A} → IsValid r → (r.head ≡ r.tail) ↔ (used r ≡ 0)
  unfolding used
  used_of_empty ok = (λ e. ground arith, λ e. ground arith)

  -- `size()` is the number of values held.
  pub size-used : {r : Ring A} → IsValid r → size r ≡ used r
  unfolding size used
  size-used {r} ok = grind (
    arith,
    mod_cases (r.tail - r.head + r.capacity) r.capacity,
    mod_cases (r.tail + r.capacity - r.head) r.capacity,
  )

  -- `try_enqueue` is the bounded queue's put.
  pub try_enqueue_refines :
      (blank : A) {r : Ring A} (v : A)
      → IsValid r
      → let (r', b) = try_enqueue r v in
        (contents blank r', b) ≡ queue_put r.capacity (contents blank r) v
  unfolding try_enqueue queue_put contents
  try_enqueue_refines blank {r} v ok = elim (ℕ_discrete (next_index r.capacity r.tail) r.head) [
    | yes e ↦
        ground (arith, used_of_full ok e, length-window blank r.buffer r.capacity r.head (used r))
    | no e ↦ ground (
      arith,
      used-advance_tail ok e (set r.buffer r.tail v),
      length-window blank r.buffer r.capacity r.head (used r),
      tail-used ok,
      window-set blank r.buffer r.capacity v (used r) r.head r.tail,
    )
  ]

  -- `try_dequeue` is the queue's get.
  pub try_dequeue_refines :
      (blank : A) {r : Ring A}
      → IsValid r
      → let (r', o) = try_dequeue blank r in (contents blank r', o) ≡ queue_get (contents blank r)
  unfolding try_dequeue queue_get contents
  try_dequeue_refines blank {r} ok = elim (ℕ_discrete r.head r.tail) [
    | yes e ↦ ground (arith, used_of_empty ok)
    | no e ↦ ground (
      arith,
      used-advance_head ok e,
      next_index-eq r.capacity r.head ok.small ok.head_in,
      window_of_pos blank r.buffer r.capacity r.head (used r),
    )
  ]
