-- ===== src/Service/Delete.antt =====
-- server/FileServiceImpl.hpp, `Delete`.
pub mod Answers
use cccloud.Prelude.{Bool, false, [], ◌∷◌, ◌++◌, none, some, if◌then◌else◌}
use cccloud.Text.{Text, codes}
use cccloud.Logger.{LogEntry, delete, code_ok, code_not_found, StatusCode}
use cccloud.Access.{log_prepare, log_commit}
use cccloud.Server.{Files, put_file}
use cccloud.Service.{returns, throws, Call, Reply}
use cccloud.Service.Upload.{service_path}

pub answer : Call → Text → LogEntry → Files → StatusCode → Text → Reply
answer call filename entry files status message = record {
  ending = returns (record { code = status; message = message });
  message = message;
  success = false;
  files = files;
  logs =
      entry
      ∷ log_commit call.later call.uuid call.peer delete (codes "filename=" ++ filename) status
          call.duration []
      ∷ [];
}

-- `remove` throws where the system refuses it, and is false where there is no such file. `success`
-- of the response is never set.
pub delete_file : Call → Bool → Text → Files → Reply
unfolding answer
delete_file call refuses filename files =
    let entry = log_prepare call.now call.uuid call.peer delete (codes "filename=" ++ filename) in
    if refuses
    then record { ending = throws; message = []; success = false; files = files; logs = entry ∷ [] }
    else elim (files (service_path filename)) [
      | none ↦
          answer call filename entry files code_not_found (codes "Delete failed or file not found")
      | some content ↦
          answer call filename entry (put_file (service_path filename) none files) code_ok
            (codes "Deleted successfully")
    ]
