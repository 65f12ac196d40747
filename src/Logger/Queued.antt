-- ===== src/Logger/Queued.antt =====
-- logger/async_logger.hpp, `AsyncLogger<Q>`: the logger over any queue behind the interface, with its
-- background thread one call of the queue at a time.
pub mod Books
pub mod Ends
mod Tests
use cccloud.Prelude.{
  ℕ, suc, ◌+◌, Bool, true, false, not, ◌&&◌, List, [], ◌∷◌, ◌++◌, Option, none, some, leb, ltb,
  if◌then◌else◌,
}
use cccloud.Queue.{BaseQueue}
use cccloud.Logger.{LogEntry}
use cccloud.Logger.Flush.{batch_threshold}

-- Where the background thread is: in `wait_for`, before `open_log_file`, at the test and in the body of
-- the inner loop with its `entries` and `cnt`, before the write of the batch, at the test of `running_`
-- that ends a turn, and at the call of `empty` after it. It is over when the loop has been left, and
-- `terminated` when an exception of `open_log_file` has left the thread, which ends the program.
pub data Flusher : Type 0 where
  waiting : Flusher
  opening : Flusher
  testing : List LogEntry → ℕ → Flusher
  taking : List LogEntry → ℕ → Flusher
  writing : List LogEntry → Flusher
  closing : Flusher
  asking : Flusher
  ended : Flusher
  terminated : Flusher

-- After a `dequeue`: one that fails neither keeps an entry nor counts.
unfoldable pub keep : Option LogEntry → List LogEntry → ℕ → Flusher
keep none entries cnt = testing entries cnt
keep (some entry) entries cnt = testing (entries ++ (entry ∷ [])) (suc cnt)

module _ (q : BaseQueue LogEntry) where
  -- The logger's members. `written` is the batches that were given to an open file, `notified` counts
  -- the calls of `notify_one`.
  pub record QueuedLogger : Type 0 where
    pub log_queue : q.State
    pub running : Bool
    pub unflushed_count : ℕ
    pub notified : ℕ
    pub flusher : Flusher
    pub written : List (List LogEntry)

  -- The logger that the constructor leaves, over a queue.
  abbrev pub started : q.State → QueuedLogger
  started s = record {
    log_queue = s;
    running = true;
    unflushed_count = 0;
    notified = 0;
    flusher = waiting;
    written = [];
  }

  unfoldable pub append : ℕ → LogEntry → QueuedLogger → QueuedLogger
  append i entry s =
      let s' = record s { log_queue = q.enqueue i entry s.log_queue } in
      if leb batch_threshold (s.unflushed_count + 1)
      then record s' { unflushed_count = 0; notified = s.notified + 1 }
      else record s' { unflushed_count = s.unflushed_count + 1 }

  -- `stop` up to its `join`.
  unfoldable pub stop : QueuedLogger → QueuedLogger
  stop s = record s { running = false; notified = s.notified + 1 }

  -- The condition of `wait_for`, which asks the queue of a running logger.
  unfoldable pub poll : ℕ → QueuedLogger → QueuedLogger
  poll i s = record s { log_queue = if s.running then (q.empty i s.log_queue).0 else s.log_queue }

  -- The next thing that the background thread `i` does; `opens` is whether the log file is found or made
  -- and opens.
  unfoldable pub background_flush : ℕ → Bool → QueuedLogger → Flusher → QueuedLogger
  unfolding keep
  background_flush i opens s waiting = record s { flusher = opening }
  background_flush i opens s opening = record s {
    flusher = if opens then testing [] 0 else terminated;
  }
  background_flush i opens s (testing entries cnt) =
      let (asked, no_entry) = q.empty i s.log_queue in
      record s {
        log_queue = asked;
        flusher =
            if not no_entry && ltb cnt batch_threshold then taking entries cnt else writing entries;
      }
  background_flush i opens s (taking entries cnt) =
      let (rest, o) = q.dequeue i s.log_queue in
      record s { log_queue = rest; flusher = keep o entries cnt }
  background_flush i opens s (writing entries) = record s {
    flusher = closing;
    written = s.written ++ (entries ∷ []);
  }
  background_flush i opens s closing = record s { flusher = if s.running then waiting else asking }
  background_flush i opens s asking =
      let (asked, no_entry) = q.empty i s.log_queue in
      record s { log_queue = asked; flusher = if no_entry then ended else waiting }
  background_flush i opens s ended = s
  background_flush i opens s terminated = s
