-- ===== src/Ring/Threads/Races.antt =====
-- Interleavings of two threads: an index published before its slot is written, and a
-- compare-exchange that comes late.
use cccloud.Prelude.{◌+◌, ◌<◌, ◌≡◌, ◌≢◌, [], some, arith, get_or}
use cccloud.Ring.{Ring, next_index}
use cccloud.Ring.Valid.{IsValid, next_index-eq}
use cccloud.Ring.Refine.{contents, used, used_of_full, mod_cases}
use cccloud.Ring.Threads.{put_start, put_write, get_start, got_done, step, steps}

module _ {ℓ} {A : Type ℓ} where
  next_index-ne : {r : Ring A} → IsValid r → 1 < r.capacity → next_index r.capacity r.tail ≢ r.tail
  next_index-ne {r} ok two = grind (
    arith,
    next_index-eq r.capacity r.tail ok.small ok.tail_in,
    mod_cases (r.tail + 1) r.capacity,
  )

  -- On an empty ring with at least two slots: a producer that stops before its write has already
  -- published its index, and a consumer then takes whatever the slot held before.
  pub unwritten_slot_is_read :
      (blank : A) {r : Ring A} (v : A)
      → IsValid r
      → 1 < r.capacity
      → r.head ≡ r.tail
      → let (r₁, p₁) = steps blank 3 r (put_start v) in
        let (r₂, p₂) = steps blank 4 r₁ get_start in
        (p₁ ≡ put_write v r.tail) × (p₂ ≡ got_done (some (get_or r.buffer r.head blank)))
  unfolding steps step
  unwritten_slot_is_read blank {r} v ok two e = ground (arith, next_index-ne ok two)

  -- A producer loads `tail_` and `head_` while the ring is not full. If the ring is full with the
  -- same `tail_` when its compare-exchange comes, this wins, and the ring looks empty: all the
  -- values that it held are lost.
  pub late_swap_empties_full_ring :
      (blank : A) (early : Ring A) {full : Ring A} (v : A)
      → IsValid full
      → next_index early.capacity early.tail ≢ early.head
      → full.capacity ≡ early.capacity
      → full.tail ≡ early.tail
      → next_index full.capacity full.tail ≡ full.head
      → let (r, p) = steps blank 2 early (put_start v) in
        let (r', p') = step blank full p in
        (used full + 1 ≡ full.capacity) × (p' ≡ put_write v full.tail) × (contents blank r' ≡ [])
  unfolding steps step used contents
  late_swap_empties_full_ring blank early {full} v ok room c t f =
      (used_of_full ok f, ground arith, ground arith)
