-- ===== src/Server/Delete.antt =====
-- server/AsyncDeleteCall.hpp: a call that removes a file. It finishes in its constructor.
pub mod Answers
use cccloud.Prelude.{
  ℕ, ◌+◌, Bool, true, false, List, [], ◌∷◌, ◌++◌, Option, none, some, if◌then◌else◌, ◌==◌,
}
use cccloud.Text.{Text, codes}
use cccloud.Logger.{LogEntry, delete, code_ok}
use cccloud.Access.{log_prepare, log_commit, log_abort}
use cccloud.Server.{
  Status, ok_status, internal_error, Response, empty_response, format_msg, Files, put_file,
}

-- The call's members, the files, the statuses with which it called `Finish`, the latest first, its
-- log, and how often `delete this` has run.
pub record Delete : Type 0 where
  pub peer : Text
  pub uuid : Text
  pub filename : Text
  pub response : Response
  pub status : Status
  pub files : Files
  pub finishes : List Status
  pub logs : List LogEntry
  pub deletions : ℕ

pub finish_ok : Delete → Delete
finish_ok d = record d {
  response = record { success = true; message = codes "delete complete" };
  status = ok_status;
  finishes = ok_status ∷ d.finishes;
}

pub finish_err : Text → Delete → Delete
finish_err msg d = record d {
  response = record { success = false; message = msg };
  status = internal_error msg;
  finishes = internal_error msg ∷ d.finishes;
}

pub delete_path : Text → Text
delete_path filename = codes "uploads/" ++ filename

-- `ec.message()` is `denied` where the system refuses to remove the file, and `no_error` otherwise.
pub fail_with : Text → Delete → Delete
unfolding finish_err
fail_with reason d =
    finish_err
      (format_msg d.uuid
        ((codes "Failed to delete file: " ++ (d.filename ++ (codes " - " ++ reason))) ∷ []))
      d

-- `remove`: false where it is refused, and where there is no such file.
pub perform_delete : Option Text → Text → Delete → Delete
unfolding finish_ok fail_with delete_path
perform_delete (some denied) no_error d = fail_with denied d
perform_delete none no_error d = elim (d.files (delete_path d.filename)) [
  | none ↦ fail_with no_error d
  | some content ↦ finish_ok (record d { files = put_file (delete_path d.filename) none d.files })
]

pub create : ℕ → Text → Text → Text → Option Text → Text → Files → Delete
unfolding perform_delete
create now uuid peer filename denied no_error files = perform_delete denied no_error (record {
  peer = peer;
  uuid = uuid;
  filename = filename;
  response = empty_response;
  status = ok_status;
  files = files;
  finishes = [];
  logs = log_prepare now uuid peer delete (codes "delete started") ∷ [];
  deletions = 0;
})

-- What `OnDone` logs, after `ms` milliseconds.
pub done_entry : ℕ → ℕ → Delete → LogEntry
done_entry now ms d =
    if d.status.code == code_ok
    then log_commit now d.uuid d.peer delete (codes "download completed") code_ok ms []
    else log_abort now d.uuid d.peer delete d.status.code d.status.message ms

pub on_done : ℕ → ℕ → Delete → Delete
unfolding done_entry
on_done now ms d = record d {
  logs = d.logs ++ (done_entry now ms d ∷ []);
  deletions = d.deletions + 1;
}

pub cancel_entry : ℕ → ℕ → Delete → LogEntry
cancel_entry now ms d = log_abort now d.uuid d.peer delete d.status.code d.status.message ms

pub on_cancel : ℕ → ℕ → Delete → Delete
unfolding cancel_entry
on_cancel now ms d = record d {
  logs = d.logs ++ (cancel_entry now ms d ∷ []);
  deletions = d.deletions + 1;
}
