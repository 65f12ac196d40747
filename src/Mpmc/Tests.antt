-- ===== src/Mpmc/Tests.antt =====
-- Runs of small schedules of the queue, and its theorems at them.
use cccloud.Prelude.{
  ◌+◌, count, none, true, ℕ, zero, suc, ◌<◌, ◌≡◌, refl, false, List, [], ◌∷◌, ◌++◌, some,
  ℕ_discrete,
}
use cccloud.Mpmc.{
  step, deq_done, init, wins, is_null, after_next, after_head, finds_empty, swing_tail, set_next,
  enter, allocate, empty_node,
}
use cccloud.Mpmc.Progress.{thread_alone_finishes}
use cccloud.Mpmc.Alone.{alone}
use cccloud.Mpmc.{finished}
use cccloud.Epoch.History.{balance}
use cccloud.Mpmc.Reclaimed.Once.{retired_at_most_once}
use cccloud.Mpmc.Linearizable.{true_answer_sees_empty}
use cccloud.Mpmc.Trace.{begin_empty}
use cccloud.Mpmc.Destroy.{Chain, manager_destroyed_first}
use cccloud.Epoch as Epoch
use cccloud.Mpmc.Calls.Refines.{Idle, mpmc_queue}
use cccloud.Prelude.{ltb, if◌then◌else◌, ◌≤◌}
use cccloud.Mpmc.{leave}
use cccloud.Mpmc.Calls.Refines.{answers, idle_start, calls_refine}
use cccloud.Queue.Client.{Op, put, get, ask_empty, stored, got, emptiness, list_run}
use cccloud.Mpmc.Trace.{
  System, Event, linked, claimed, begin_enqueue, begin_dequeue, move, Reach, begin, later, start,
  event, enqueued, dequeued, Holds,
}
use cccloud.Mpmc.Linearizable.{fifo, claim_delivers, null_load_sees_empty}
use cccloud.Mpmc.Memory.{touches, touched_nodes_are_live}

record Run : Type 0 where
  last : System ℕ
  seen : List (Event ℕ)
  reach : Reach last seen

abbrev fresh_run : Run
fresh_run = record { last = start; seen = []; reach = begin }

-- Thread `i` takes `n` steps; no compare-exchange fails for no reason.
moves : ℕ → ℕ → Run → Run
moves i zero r = r
moves i (suc n) r = moves i n (record { last = _; seen = _; reach = later r.reach (move i false) })

-- Thread 0 enqueues 7 up to its link, and stops before it moves `tail`.
abbrev linked_7 : Run
linked_7 = moves 0 5 (record { last = _; seen = _; reach = later begin (begin_enqueue 0 7 refl) })

linked_7_events : linked_7.seen ≡ linked 7 ∷ []
unfolding moves step init wins is_null ℕ_discrete after_next after_head finds_empty swing_tail
    set_next enter allocate empty_node event
linked_7_events = refl

-- Thread 1 then dequeues: it helps `tail` on, claims the node, and stops before it takes the value.
abbrev claimed_7 : Run
unfolding moves ℕ_discrete
claimed_7 =
    moves 1 11 (record { last = _; seen = _; reach = later linked_7.reach (begin_dequeue 1 refl) })

claimed_7_events : claimed_7.seen ≡ linked 7 ∷ claimed 1 7 ∷ []
unfolding moves step init wins is_null ℕ_discrete after_next after_head finds_empty swing_tail
    set_next enter allocate empty_node event
claimed_7_events = refl

-- Thread 1 dequeues from the new queue, and stops before it loads `next`.
abbrev looking : Run
looking = moves 1 3 (record { last = _; seen = _; reach = later begin (begin_dequeue 1 refl) })

fifo_example :
    (vs : List ℕ) × Holds linked_7.last.shared.nodes linked_7.last.shared.head vs
    × (enqueued linked_7.seen ≡ dequeued linked_7.seen ++ vs)
fifo_example = fifo linked_7.reach

claim_delivers_example :
    (v : ℕ) × ((claimed_7.last.shared.nodes 1).payload ≡ some v)
    × ((step 1 false claimed_7.last.shared (claimed_7.last.pc 1)).1 ≡ deq_done (some v))
unfolding moves step init wins is_null ℕ_discrete after_next after_head finds_empty swing_tail
    set_next enter allocate empty_node event
claim_delivers_example = claim_delivers claimed_7.reach 1 0 1 false refl

null_load_sees_empty_example :
    Holds looking.last.shared.nodes looking.last.shared.head []
    × (enqueued looking.seen ≡ dequeued looking.seen)
unfolding moves step init wins is_null ℕ_discrete after_next after_head finds_empty swing_tail
    set_next enter allocate empty_node event
null_load_sees_empty_example = null_load_sees_empty looking.reach 1 0 0 refl refl

touched_nodes_are_live_example :
    (claimed_7.last.shared.ebr.freed ≡ [])
    × ((i a : ℕ) → touches (claimed_7.last.pc i) ≡ some a → a < claimed_7.last.shared.fresh)
touched_nodes_are_live_example = touched_nodes_are_live claimed_7.reach

-- Thread 1 has claimed a node and stops there; it finishes when it runs on.
thread_alone_finishes_example :
    (k : ℕ) × (finished (alone 1 k claimed_7.last.shared (claimed_7.last.pc 1)).1 ≡ true)
thread_alone_finishes_example = thread_alone_finishes claimed_7.reach 1

-- Thread 0 puts 7, thread 1 takes it and finds nothing more.
abbrev four_calls : List (Op ℕ)
four_calls = put 0 7 ∷ get 1 ∷ get 1 ∷ ask_empty 0 ∷ []

calls_refine_example :
    answers idle_start four_calls ≡ stored ∷ got (some 7) ∷ got none ∷ emptiness true ∷ []
unfolding list_run idle_start
calls_refine_example = calls_refine idle_start four_calls

-- Thread 2 asks `empty` of the new queue, and stops before its last load.
abbrev asking : Run
asking = moves 2 3 (record { last = _; seen = _; reach = later begin (begin_empty 2 refl) })

true_answer_sees_empty_example :
    Holds asking.last.shared.nodes asking.last.shared.head []
    × (enqueued asking.seen ≡ dequeued asking.seen)
unfolding moves step init wins is_null ℕ_discrete after_next after_head finds_empty swing_tail
    set_next enter leave allocate empty_node event
true_answer_sees_empty_example = true_answer_sees_empty asking.reach 2 0 0 false refl refl

retired_at_most_once_example :
    ((a : ℕ) → balance a claimed_7.last.shared.ebr ≤ 1)
    × (balance claimed_7.last.shared.head claimed_7.last.shared.ebr ≡ 0)
    × (balance claimed_7.last.shared.tail claimed_7.last.shared.ebr ≡ 0)
retired_at_most_once_example = retired_at_most_once claimed_7.reach

-- 7 and 8 have been put, and 7 has been taken.
abbrev taken_7 : Idle ℕ
unfolding mpmc_queue
taken_7 =
    ((mpmc_queue {A = ℕ}).dequeue 1
      ((mpmc_queue {A = ℕ}).enqueue 1 8 ((mpmc_queue {A = ℕ}).enqueue 0 7 idle_start))).0

manager_destroyed_first_example :
    (xs : List ℕ) × Chain taken_7.system.shared.nodes taken_7.system.shared.head xs
    × ((a : ℕ)
        → count a xs + count a (Epoch.destroy taken_7.system.shared.ebr).freed
          ≡ (if ltb a taken_7.system.shared.fresh then 1 else 0))
manager_destroyed_first_example = manager_destroyed_first taken_7.idle.reach taken_7.idle.done
