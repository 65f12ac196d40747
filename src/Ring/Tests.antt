-- ===== src/Ring/Tests.antt =====
-- Rings of three and two slots, and the ring's theorems at them.
use mathlib.Core.Option as Opt
use cccloud.Prelude.{
  suc, ◌↔◌, ◌<◌, update, ℕ_discrete, ℕ, ◌+◌, ◌≡◌, refl, true, false, List, [], ◌∷◌, ◌++◌, none,
  some, arith, length, ltb, if◌then◌else◌,
}
use cccloud.Ring.{size, is_empty, Ring, next_index, try_enqueue, try_dequeue, enqueue, dequeue}
use cccloud.Ring.Valid.{IsValid}
use cccloud.Ring.Queue.{
  Op, put, get, ask_empty, ask_size, stored, got, emptiness, count, queue_run, queue_get,
}
use cccloud.Ring.Refine.{contents, used}
use cccloud.Ring.Runs.{size-Bounds, run, run_refines, spinning_lem}
use cccloud.Ring.Threads.{
  put_start, put_write, put_done, get_start, got_done, step, steps, System, begin_put, move, Reach,
  here, later,
}
use cccloud.Ring.Threads.Safety.{IsSafe, Reach-IsSafe}
use cccloud.Ring.Threads.Races.{unwritten_slot_is_read, late_swap_empties_full_ring}

-- 8, then 9, round the end of three slots: full.
abbrev full_ring : Ring ℕ
full_ring = record { capacity = 3; buffer = 9 ∷ 7 ∷ 8 ∷ []; head = 2; tail = 1 }

abbrev empty_ring : Ring ℕ
empty_ring = record { capacity = 3; buffer = 4 ∷ 5 ∷ 6 ∷ []; head = 1; tail = 1 }

abbrev script : List (Op ℕ)
script = put 1 ∷ ask_size ∷ get ∷ put 2 ∷ get ∷ get ∷ ask_empty ∷ get ∷ []

full_ring-IsValid : IsValid full_ring
full_ring-IsValid = omega arith

empty_ring-IsValid : IsValid empty_ring
empty_ring-IsValid = omega arith

run-full_ring :
    run 0 full_ring script
    ≡ stored false
      ∷ count 2
      ∷ got (some 8)
      ∷ stored true
      ∷ got (some 9)
      ∷ got (some 2)
      ∷ emptiness true
      ∷ got none
      ∷ []
unfolding run try_enqueue try_dequeue next_index size is_empty
run-full_ring = refl

run_refines_example : run 0 full_ring script ≡ queue_run 3 (contents 0 full_ring) script
run_refines_example = run_refines 0 script full_ring-IsValid

size-Bounds_example :
    (size full_ring < 3)
    × ((is_empty full_ring ≡ true) ↔ (size full_ring ≡ 0))
    × (((try_enqueue full_ring 4).1 ≡ false) ↔ (suc (size full_ring) ≡ 3))
size-Bounds_example = size-Bounds 0 4 full_ring-IsValid

spinning_lem_example :
    (Opt.map (contents 0) (enqueue 5 full_ring 3) ≡ (
      if ltb (length (contents 0 full_ring) + 1) 3
      then some (contents 0 full_ring ++ (3 ∷ []))
      else none))
    × (Opt.map {B = List ℕ × ℕ} (λ p. (contents 0 p.0, p.1)) (dequeue 0 5 full_ring) ≡ (
        let (q, o) = queue_get (contents 0 full_ring) in Opt.map {B = List ℕ × ℕ} (λ v. (q, v)) o))
spinning_lem_example = spinning_lem 0 4 3 full_ring-IsValid

-- One thread has begun to enqueue 3, the others have nothing to do.
abbrev idle : System ℕ
idle = record { ring = empty_ring; pc = λ _. put_done true }

idle-IsSafe : IsSafe idle
idle-IsSafe = record { ring = empty_ring-IsValid; locals = λ i. tt }

abbrev after_load : System ℕ
after_load = record {
  ring = (step 0 empty_ring (put_start 3)).0;
  pc =
      update (update idle.pc 0 (put_start 3)) 0
        (step 0 empty_ring (update idle.pc 0 (put_start 3) 0)).1;
}

begun : Reach 0 idle after_load
unfolding step ℕ_discrete
begun = later (later here (begin_put 0 3 refl)) (move 0)

Reach-IsSafe_example : IsSafe after_load
Reach-IsSafe_example = Reach-IsSafe begun idle-IsSafe

-- A consumer takes 5, the slot's old value, while 3 is still to be written.
unwritten_slot_is_read_example :
    let (r₁, p₁) = steps 0 3 empty_ring (put_start 3) in
    let (r₂, p₂) = steps 0 4 r₁ get_start in (p₁ ≡ put_write 3 1) × (p₂ ≡ got_done (some 5))
unwritten_slot_is_read_example = unwritten_slot_is_read 0 3 empty_ring-IsValid (omega arith) refl

late_swap_empties_full_ring_example :
    let (r, p) = steps 0 2 empty_ring (put_start 3) in
    let (r', p') = step 0 full_ring p in
    (used full_ring + 1 ≡ 3) × (p' ≡ put_write 3 1) × (contents 0 r' ≡ [])
unfolding next_index
late_swap_empties_full_ring_example =
    late_swap_empties_full_ring 0 empty_ring 3 full_ring-IsValid (omega arith) refl refl refl
