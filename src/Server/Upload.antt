-- ===== src/Server/Upload.antt =====
-- server/AsyncUploadCall.hpp: a call that writes the chunks of a stream to a file.
pub mod Stores
pub mod Protocol
pub mod Many
use cccloud.Prelude.{
  ℕ, Bool, true, false, List, [], ◌∷◌, ◌++◌, Option, none, some, if◌then◌else◌, ◌==◌,
}
use mathlib.Core.Option as Opt
use cccloud.Text.{Text, codes, take}
use cccloud.Logger.{LogEntry, upload, code_ok}
use cccloud.Access.{log_prepare, log_commit, log_abort}
use cccloud.Server.{
  Status, ok_status, internal_error, Response, empty_response, format_msg, Files, put_file, join,
}

-- `UploadChunk`.
pub record Chunk : Type 0 where
  pub filename : Text
  pub payload : Text

pub data Request : Type 0 where
  start_read : Request
  finish : Status → Request

-- What the disk does during one callback.
pub data MakeOutcome : Type 0 where
  made filesystem_error other_error : MakeOutcome

-- `written` is `none` for a write that succeeds, or how far one that fails gets.
pub record Disk : Type 0 where
  pub make : MakeOutcome
  pub opens : Bool
  pub written : Option ℕ

-- The call's members, what it has asked of gRPC, the latest first, the files, and what it has logged.
pub record Upload : Type 0 where
  pub peer : Text
  pub cwd : Text
  pub uuid : Text
  pub response : Response
  pub ofs : Option Text
  pub file_opened : Bool
  pub status : Status
  pub requests : List Request
  pub files : Files
  pub logs : List LogEntry
  pub alive : Bool

unfoldable pub create : ℕ → Text → Text → Text → Files → Upload
create now uuid peer cwd files = record {
  peer = peer;
  cwd = cwd;
  uuid = uuid;
  response = empty_response;
  ofs = none;
  file_opened = false;
  status = ok_status;
  requests = start_read ∷ [];
  files = files;
  logs = log_prepare now uuid peer upload (codes "upload started") ∷ [];
  alive = true;
}

unfoldable pub finish_ok : Upload → Upload
finish_ok u = record u {
  response = record { success = true; message = codes "upload complete" };
  status = ok_status;
  requests = finish ok_status ∷ u.requests;
}

pub finish_err : Text → Upload → Upload
finish_err msg u = record u {
  response = record { success = false; message = msg };
  status = internal_error msg;
  requests = finish (internal_error msg) ∷ u.requests;
}

unfoldable pub append_to : Option Text → Text → Files → Files
append_to none s files = files
append_to (some path) s files = put_file path (Opt.map (λ t. t ++ s) (files path)) files

-- The write of the chunk, and what follows it.
pub write_chunk : Option ℕ → Chunk → Upload → Upload
unfolding append_to finish_err
write_chunk none chunk u = record u {
  files = append_to u.ofs chunk.payload u.files;
  requests = start_read ∷ u.requests;
}
write_chunk (some n) chunk u =
    finish_err (format_msg u.uuid ((chunk.filename ++ codes " writes failed for chunk.") ∷ []))
      (record u { files = append_to u.ofs (take n chunk.payload) u.files })

-- The path of the file that a chunk names first.
unfoldable pub upload_path : Text → Text → Text
upload_path cwd filename = join (join cwd (codes "uploads")) filename

pub open_file : Disk → Chunk → Upload → Upload
unfolding write_chunk finish_err upload_path
open_file disk chunk u =
    if disk.opens
    then write_chunk disk.written chunk (record u {
      ofs = some (upload_path u.cwd chunk.filename);
      file_opened = true;
      files = put_file (upload_path u.cwd chunk.filename) (some []) u.files;
    })
    else finish_err
        (format_msg u.uuid ((codes "Failed to open file for writing: " ++ chunk.filename) ∷ [])) u

pub make_directory : MakeOutcome → Disk → Chunk → Upload → Upload
unfolding open_file finish_err
make_directory made disk chunk u = open_file disk chunk u
make_directory filesystem_error disk chunk u =
    finish_err (format_msg u.uuid (codes "Failed to create upload directory" ∷ [])) u
make_directory other_error disk chunk u =
    finish_err (format_msg u.uuid (codes "Failed to create upload directory (unknown)" ∷ [])) u

unfoldable pub on_read_done : Bool → Chunk → Disk → Upload → Upload
unfolding make_directory write_chunk finish_ok
on_read_done false chunk disk u = finish_ok u
on_read_done true chunk disk u =
    if u.file_opened
    then write_chunk disk.written chunk u
    else make_directory disk.make disk chunk u

-- What `OnDone` logs, after `ms` milliseconds.
pub done_entry : ℕ → ℕ → Upload → LogEntry
done_entry now ms u =
    if u.status.code == code_ok
    then log_commit now u.uuid u.peer upload (codes "upload committed") code_ok ms []
    else log_abort now u.uuid u.peer upload u.status.code u.status.message ms

-- `OnDone`; the destructor closes the file.
pub on_done : ℕ → ℕ → Upload → Upload
unfolding done_entry
on_done now ms u = record u {
  logs = u.logs ++ (done_entry now ms u ∷ []);
  ofs = none;
  alive = false;
}
