-- ===== src/Service/Download.antt =====
-- server/FileServiceImpl.hpp, `Download`.
pub mod Sends
use cccloud.Prelude.{
  ℕ, zero, suc, ◌+◌, ◌-◌, ◌*◌, ◌^◌, ◌<◌, ◌≤◌, ◌≡◌, ◌≢◌, refl, sym, ap, ◌∙◌, subst, ◌⊎◌, inl, inr,
  Bool, true, false, not, ◌&&◌, ◌||◌, List, [], ◌∷◌, ◌++◌, map, Option, none, some, arith, length,
  length-append, if◌then◌else◌, if_true, if_false, ◌==◌, ltb, leb, Bool-cases, Option-cases, u64,
}
use cccloud.Text.{Text, codes}
use cccloud.Text.Numbers.{to_string}
use cccloud.Logger.{LogEntry, download, code_ok, code_not_found}
use cccloud.Access.{log_prepare, log_commit, log_abort}
use cccloud.Stream.{Stream, open_stream}
use cccloud.Stream.Loop.{for_pieces}
use cccloud.Server.{Status, ok_status, Files}
use cccloud.Service.{Ending, returns, Call, Reply}
use cccloud.Service.Upload.{service_path}

-- `BUF_SIZE`.
abbrev pub buffer_size : ℕ
buffer_size = 4096

-- The messages written so far, and `total_bytes`.
pub record Sent : Type 0 where
  pub messages : List Text
  pub total_bytes : ℕ

-- The loop's body; the result of `Write` is not read.
pub send_piece : Text → Sent → Sent × Bool
send_piece bytes st = (
  record st {
    messages = st.messages ++ (bytes ∷ []);
    total_bytes = u64 (st.total_bytes + length bytes);
  },
  true,
)

pub finish : Call → Text → LogEntry → Files → Sent → Reply × List Text
finish call filename entry files st = (
  record {
    ending = returns ok_status;
    message = [];
    success = false;
    files = files;
    logs =
        entry
        ∷ log_commit call.later call.uuid call.peer download
            (codes "filename=" ++ (filename ++ (codes " size=" ++ to_string st.total_bytes)))
            code_ok call.duration []
        ∷ [];
  },
  st.messages,
)

pub not_found : Call → LogEntry → Files → Reply × List Text
not_found call entry files = (
  record {
    ending = returns (record { code = code_not_found; message = codes "File not found" });
    message = [];
    success = false;
    files = files;
    logs =
        entry
        ∷ log_abort call.later call.uuid call.peer download code_not_found (codes "file not found")
            call.duration
        ∷ [];
  },
  [],
)

pub send_file : ℕ → (ℕ → Option ℕ) → Text → Option Sent
unfolding for_pieces send_piece
send_file fuel breaks content =
    for_pieces buffer_size breaks send_piece fuel 0 (open_stream content)
      (record { messages = []; total_bytes = 0 })

pub sent_or_running : Call → Text → LogEntry → Files → Option Sent → Option (Reply × List Text)
unfolding finish
sent_or_running call filename entry files none = none
sent_or_running call filename entry files (some st) = some (finish call filename entry files st)

pub answer :
    ℕ → Call → (ℕ → Option ℕ) → Text → LogEntry → Files → Option Text → Option (Reply × List Text)
unfolding not_found sent_or_running
answer fuel call breaks filename entry files none = some (not_found call entry files)
answer fuel call breaks filename entry files (some content) =
    sent_or_running call filename entry files (send_file fuel breaks content)

-- The reply, and the messages sent, in order. `opens` is whether a file that is there opens. Fuel
-- counts the reads; `none` is a handler that runs on.
pub download_file : ℕ → Call → Bool → (ℕ → Option ℕ) → Text → Files → Option (Reply × List Text)
unfolding answer
download_file fuel call opens breaks filename files =
    answer fuel call breaks filename
      (log_prepare call.now call.uuid call.peer download (codes "filename=" ++ filename)) files
      (if opens then files (service_path filename) else none)
