-- ===== src/Service.antt =====
-- server/FileServiceImpl.hpp: the synchronous service. Each handler runs to its end in one thread;
-- the messages of a stream, the clock and what the disk does are arguments.
pub mod Upload
pub mod Download
pub mod Delete
mod Tests
use cccloud.Prelude.{List, Bool, ℕ}
use cccloud.Text.{Text}
use cccloud.Logger.{LogEntry, StatusCode}
use cccloud.Server.{Status, Files}

-- How a handler ends: it returns a status, or an exception of `std::filesystem` leaves it.
pub data Ending : Type 0 where
  returns : Status → Ending
  throws : Ending

-- What a call was given beside its request: the clock at its start and at its end, its uuid, and
-- the peer.
pub record Call : Type 0 where
  pub now : ℕ
  pub later : ℕ
  pub duration : ℕ
  pub uuid : Text
  pub peer : Text

pub record Reply : Type 0 where
  pub ending : Ending
  pub message : Text
  pub success : Bool
  pub files : Files
  pub logs : List LogEntry
