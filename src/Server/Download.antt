-- ===== src/Server/Download.antt =====
-- server/AsyncDownloadCall.hpp: a call that sends a file in chunks.
pub mod Serves
use cccloud.Prelude.{
  ℕ, Bool, true, false, ◌||◌, List, [], ◌∷◌, ◌++◌, Option, none, some, if◌then◌else◌, ◌==◌, length,
  ltb,
}
use cccloud.Text.{Text, codes}
use cccloud.Stream.{Stream, read, open_stream}
use cccloud.Logger.{LogEntry, download, code_ok}
use cccloud.Access.{log_prepare, log_commit, log_abort}
use cccloud.Server.{Status, ok_status, internal_error, format_msg, Files}

pub data Request : Type 0 where
  start_write : Text → Request
  finish : Status → Request

-- `sizeof(buffer_)`.
abbrev pub buffer_size : ℕ
buffer_size = 409600

-- What the disk does during one callback: whether the file opens, and whether the read breaks off
-- after so many bytes.
pub record Disk : Type 0 where
  pub opens : Bool
  pub breaks : Option ℕ

-- The call's members, the files, what it has asked of gRPC, the latest first, and its log. The
-- message that is sent is the argument of the request.
pub record Download : Type 0 where
  pub peer : Text
  pub uuid : Text
  pub filename : Text
  pub files : Files
  pub ifs : Option Stream
  pub status : Status
  pub requests : List Request
  pub logs : List LogEntry
  pub alive : Bool

-- The first message is an empty one.
pub create : ℕ → Text → Text → Text → Files → Download
create now uuid peer filename files = record {
  peer = peer;
  uuid = uuid;
  filename = filename;
  files = files;
  ifs = none;
  status = ok_status;
  requests = start_write [] ∷ [];
  logs = log_prepare now uuid peer download (codes "download started") ∷ [];
  alive = true;
}

pub finish_ok : Download → Download
finish_ok d = record d { status = ok_status; requests = finish ok_status ∷ d.requests }

pub finish_err : Text → Download → Download
finish_err msg d = record d {
  status = internal_error msg;
  requests = finish (internal_error msg) ∷ d.requests;
}

-- After a read that gave no bytes.
pub end_of_stream : Stream → Download → Download
unfolding finish_ok finish_err
end_of_stream s d =
    if s.eof
    then finish_ok d
    else (if s.failed || s.bad
        then finish_err (format_msg d.uuid ((codes "Error reading from file " ++ d.filename) ∷ []))
            d
        else finish_err
            (format_msg d.uuid
              ((codes "Unexpected state after reading 0 bytes from file " ++ d.filename) ∷ []))
            d)

-- After a read; a call that finishes closes the file.
pub send : Text → Stream → Download → Download
unfolding end_of_stream
send [] s d = record (end_of_stream s d) { ifs = none }
send (c ∷ bytes) s d = record d { ifs = some s; requests = start_write (c ∷ bytes) ∷ d.requests }

pub pump : Option ℕ → Stream → Download → Download
unfolding read send
pump breaks s d = let (bytes, s') = read buffer_size breaks s in send bytes s' d

unfoldable pub download_path : Text → Text
download_path filename = codes "uploads/" ++ filename

-- `ifs_.open`: a file that is not there, or does not open, is none.
pub open_file : Bool → Text → Files → Option Stream
unfolding open_stream download_path
open_file opens filename files = elim (files (download_path filename)) [
  | none ↦ none
  | some content ↦ if opens then some (open_stream content) else none
]

pub pump_or_fail : Option ℕ → Option Stream → Download → Download
unfolding pump finish_err
pump_or_fail breaks (some s) d = pump breaks s d
pump_or_fail breaks none d =
    finish_err (format_msg d.uuid ((codes "Failed to open file " ++ d.filename) ∷ [])) d

-- The stream that the call has open, or else the one that it opens.
pub stream_of : Bool → Option Stream → Download → Option Stream
unfolding open_file
stream_of opens (some s) d = some s
stream_of opens none d = open_file opens d.filename d.files

pub on_write_done : Bool → Disk → Download → Download
unfolding pump_or_fail stream_of finish_ok
on_write_done false disk d = finish_ok d
on_write_done true disk d = pump_or_fail disk.breaks (stream_of disk.opens d.ifs d) d

-- What `OnDone` logs, after `ms` milliseconds.
pub done_entry : ℕ → ℕ → Download → LogEntry
done_entry now ms d =
    if d.status.code == code_ok
    then log_commit now d.uuid d.peer download (codes "download completed") code_ok ms []
    else log_abort now d.uuid d.peer download d.status.code d.status.message ms

-- `OnDone`; the destructor closes the file.
pub on_done : ℕ → ℕ → Download → Download
unfolding done_entry
on_done now ms d = record d {
  logs = d.logs ++ (done_entry now ms d ∷ []);
  ifs = none;
  alive = false;
}
