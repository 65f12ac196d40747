-- ===== src/Logger/Queued/Tests.antt =====
-- The logger over the lock-free queue, with an entry from each of two threads.
use cccloud.Prelude.{ℕ, ◌+◌, ◌*◌, ◌≤◌, ◌≡◌, ◌++◌, refl, length, List, ◌∷◌, []}
use cccloud.Mpmc.Calls.Refines.{mpmc_queue, idle_start}
use cccloud.Logger.{LogEntry, default_entry}
use cccloud.Logger.Flush.Drains.{entries_of}
use cccloud.Logger.Queued.{QueuedLogger, started, stop, append}
use cccloud.Logger.Queued.Books.{in_hand, Reach, begin, later, appended, stopped, entries_accounted}
use cccloud.Logger.Queued.Ends.{HasWritten, flush_steps, stopped_logger_writes_all}

record Run : Type 0 where
  last : QueuedLogger (mpmc_queue {A = LogEntry})
  all : List LogEntry
  reach : Reach mpmc_queue last all

abbrev new_run : Run
unfolding mpmc_queue idle_start
new_run = record { last = started mpmc_queue idle_start; all = []; reach = begin idle_start refl }

-- Thread 1 appends, thread 2 appends, and the program stops the logger.
abbrev one_in : Run
unfolding new_run
one_in = record {
  last = _;
  all = _;
  reach = later new_run.reach (appended 1 (default_entry 10) refl);
}

abbrev two_in : Run
unfolding new_run append
two_in = record {
  last = _;
  all = _;
  reach = later one_in.reach (appended 2 (default_entry 20) refl);
}

abbrev stopped_run : Run
unfolding new_run append
stopped_run = record { last = _; all = _; reach = later two_in.reach (stopped refl) }

entries_accounted_example :
    entries_of two_in.last.written
      ++ (in_hand two_in.last.flusher ++ (mpmc_queue {A = LogEntry}).values two_in.last.log_queue)
    ≡ default_entry 10 ∷ default_entry 20 ∷ []
unfolding two_in
entries_accounted_example = entries_accounted mpmc_queue two_in.reach

stopped_logger_writes_all_example :
    (n : ℕ) × (n ≤ 10 * length ((mpmc_queue {A = LogEntry}).values stopped_run.last.log_queue) + 18)
    × HasWritten mpmc_queue
        (default_entry 10 ∷ default_entry 20 ∷ [])
        (flush_steps mpmc_queue 0 n stopped_run.last)
unfolding new_run append stop
stopped_logger_writes_all_example =
    stopped_logger_writes_all mpmc_queue stopped_run.reach refl refl 0
