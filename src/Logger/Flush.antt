-- ===== src/Logger/Flush.antt =====
-- logger/async_logger.hpp, `AsyncLogger`: entries on their way from the queue to the file. A turn of
-- the background thread's loop is one step; it is the only thread that takes entries.
pub mod Drains
mod Tests
use cccloud.Prelude.{
  ℕ, zero, suc, ◌+◌, Bool, true, false, not, ◌&&◌, List, [], ◌∷◌, ◌++◌, Option, none, some, leb,
  if◌then◌else◌,
}
use cccloud.Logger.{LogEntry}

-- `LOGENTRY_BATCH_THRESHOLD`.
abbrev pub batch_threshold : ℕ
batch_threshold = 256

-- The log file can be opened in every turn; where it cannot, the source throws.
-- The logger's members; `written` holds the batches that went to the file, and `notified` counts the
-- calls of `notify_one`.
pub record Logger : Type 0 where
  pub queue : List LogEntry
  pub running : Bool
  pub unflushed_count : ℕ
  pub notified : ℕ
  pub written : List (List LogEntry)

pub start : Logger
start = record { queue = []; running = true; unflushed_count = 0; notified = 0; written = [] }

unfoldable pub append : LogEntry → Logger → Logger
append entry s =
    let s' = record s { queue = s.queue ++ (entry ∷ []) } in
    if leb batch_threshold (s.unflushed_count + 1)
    then record s' { unflushed_count = 0; notified = s.notified + 1 }
    else record s' { unflushed_count = s.unflushed_count + 1 }

-- `stop`, before it joins the thread.
unfoldable pub stop : Logger → Logger
stop s = record s { running = false; notified = s.notified + 1 }

-- The inner loop: entries are taken until there is none, or no room is left in the batch.
unfoldable pub take_batch : ℕ → List LogEntry → List LogEntry × List LogEntry
take_batch zero queue = ([], queue)
take_batch (suc room) [] = ([], [])
take_batch (suc room) (entry ∷ queue) =
    let (entries, rest) = take_batch room queue in (entry ∷ entries, rest)

unfoldable pub flush_round : Logger → Logger
unfolding take_batch
flush_round s =
    let (entries, rest) = take_batch batch_threshold s.queue in
    record s { queue = rest; written = s.written ++ (entries ∷ []) }

unfoldable pub is_empty : List LogEntry → Bool
is_empty [] = true
is_empty (entry ∷ queue) = false

-- The end of a turn: the thread stops, or goes on as `later` says.
unfoldable pub end_turn : Logger → Option Logger → Option Logger
unfolding is_empty
end_turn s later = if not s.running && is_empty s.queue then some s else later

-- `background_flush` while nobody appends, with the number of turns as fuel; `none` is a thread that
-- still runs.
unfoldable pub background_flush : ℕ → Logger → Option Logger
background_flush zero s = none
background_flush (suc fuel) s = end_turn (flush_round s) (background_flush fuel (flush_round s))
