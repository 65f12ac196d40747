-- ===== src/Service/Upload.antt =====
-- server/FileServiceImpl.hpp, `Upload`.
pub mod Stores
use cccloud.Prelude.{
  ℕ, zero, suc, ◌+◌, ◌-◌, ◌*◌, ◌^◌, ◌<◌, ◌≤◌, ◌≡◌, ◌≢◌, refl, sym, ap, ◌∙◌, subst, ◌⊎◌, inl, inr,
  Bool, true, false, not, ◌&&◌, ◌||◌, List, [], ◌∷◌, ◌++◌, map, Option, none, some, arith, length,
  length-append, if◌then◌else◌, ◌==◌, ltb, leb, Bool-cases, Option-cases, u64,
}
use mathlib.Core.Option as Opt
use cccloud.Text.{Text, codes, take}
use cccloud.Text.Numbers.{to_string}
use cccloud.Logger.{LogEntry, upload, code_ok, code_internal}
use cccloud.Access.{log_prepare, log_commit, log_abort}
use cccloud.Server.{Status, ok_status, Files, put_file}
use cccloud.Server.Upload.{Chunk, append_to}
use cccloud.Service.{Ending, returns, throws, Call, Reply}

-- What the disk does: whether the directory can be made and the file opened, and how far the write
-- of each chunk gets where it fails.
pub record Disk : Type 0 where
  pub makes : Bool
  pub opens : Bool
  pub written : ℕ → Option ℕ

-- The handler's locals; `failed` is `ofs.fail()`, which the handler never reads.
pub record Locals : Type 0 where
  pub filename : Text
  pub ofs : Option Text
  pub failed : Bool
  pub opened : Bool
  pub total_bytes : ℕ
  pub files : Files

pub start : Files → Locals
start files = record {
  filename = codes "[unknown]";
  ofs = none;
  failed = false;
  opened = false;
  total_bytes = 0;
  files = files;
}

unfoldable pub service_path : Text → Text
service_path filename = codes "uploads/" ++ filename

-- A stream that has failed writes nothing.
pub write_some : Option ℕ → Text → Locals → Locals
unfolding append_to
write_some none bytes l = if l.failed then l else record l { files = append_to l.ofs bytes l.files }
write_some (some n) bytes l =
    if l.failed
    then l
    else record l { files = append_to l.ofs (take n bytes) l.files; failed = true }

pub write_chunk : Option ℕ → Chunk → Locals → Locals
unfolding write_some
write_chunk written chunk l = record (write_some written chunk.payload l) {
  total_bytes = u64 (l.total_bytes + length chunk.payload);
}

-- The first chunk opens the file that it names.
pub open_file : Chunk → Locals → Locals
unfolding service_path
open_file chunk l = record l {
  filename = chunk.filename;
  ofs = some (service_path chunk.filename);
  opened = true;
  files = put_file (service_path chunk.filename) (some []) l.files;
}

-- How the loop over the messages ends.
pub data Outcome : Type 0 where
  finished : Locals → Outcome
  not_made : Locals → Outcome
  not_opened : Locals → Outcome

pub read_all : Disk → List Chunk → ℕ → Locals → Outcome
unfolding write_chunk open_file
read_all disk [] i l = finished l
read_all disk (chunk ∷ chunks) i l =
    let next = read_all disk chunks (i + 1) (write_chunk (disk.written i) chunk l) in
    let first =
      read_all disk chunks (i + 1) (write_chunk (disk.written i) chunk (open_file chunk l)) in
    if l.opened
    then next
    else (if disk.makes
        then (if disk.opens then first else not_opened (record l { filename = chunk.filename }))
        else not_made (record l { filename = chunk.filename }))

pub finish : Call → LogEntry → Outcome → Reply
finish call entry (finished l) = record {
  ending = returns ok_status;
  message = codes "Upload successful";
  success = false;
  files = l.files;
  logs =
      entry
      ∷ log_commit call.later call.uuid call.peer upload
          (codes "filename=" ++ (l.filename ++ (codes " size=" ++ to_string l.total_bytes))) code_ok
          call.duration []
      ∷ [];
}
finish call entry (not_made l) = record {
  ending = throws;
  message = [];
  success = false;
  files = l.files;
  logs = entry ∷ [];
}
finish call entry (not_opened l) = record {
  ending = returns (record { code = code_internal; message = codes "Failed to open file" });
  message = [];
  success = false;
  files = l.files;
  logs =
      entry
      ∷ log_abort call.later call.uuid call.peer upload code_internal (codes "failed to open file")
          call.duration
      ∷ [];
}

-- `success` of the response is never set.
pub upload_file : Call → Disk → List Chunk → Files → Reply
unfolding read_all finish start
upload_file call disk chunks files =
    finish call (log_prepare call.now call.uuid call.peer upload (codes "upload started"))
      (read_all disk chunks 0 (start files))
