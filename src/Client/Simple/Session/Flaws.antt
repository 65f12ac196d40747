-- ===== src/Client/Simple/Session/Flaws.antt =====
-- Calls whose result does not tell what the server did.
use cccloud.Prelude.{ℕ, suc, ◌≡◌, refl, Bool, true, false, ◌&&◌, [], some}
use cccloud.Text.{Text}
use cccloud.Stream.{open_stream}
use cccloud.Text.{take, drop}
use cccloud.Stream.{read, read_some}
use cccloud.Stream.Loop.{goes_on, for_pieces, whole}
use cccloud.Server.{Files}
use cccloud.Service.{Call, Reply}
use cccloud.Service.Upload as Upload
use cccloud.Service.Upload.{upload_file, service_path}
use cccloud.Service.Upload.Stores.{upload_file_nothing}
use cccloud.Service.Delete.{delete_file}
use cccloud.Service.Delete.Answers.{success-delete_file, Answered, delete_file_answers}
use cccloud.Client.Simple.{send_pieces, start_upload, upload_result, is_ok, delete_result}
use cccloud.Client.Simple.Session.{Transport, IsReliable, status_of, serve_upload, upload, remove}

and_false : (b : Bool) → (b && false) ≡ false
and_false true = refl
and_false false = refl

-- `DeleteFile` never reports success, whatever became of the file: the service leaves `success` of
-- its response unset. The server's files are those that the handler leaves.
pub remove_reports_failure :
    (net : Transport) (call : Call) (refuses : Bool) (remote : Text) (server : Files)
    → ((remove net call refuses remote server).0 ≡ false)
      × Answered remote server (delete_file call refuses remote server)
      × ((remove net call refuses remote server).1 ≡ (delete_file call refuses remote server).files)
unfolding remove delete_result
remove_reports_failure net call refuses remote server = (
  rw (success-delete_file call refuses remote server) (and_false _),
  delete_file_answers call refuses remote server,
  refl,
)

nothing_sent :
    (fuel : ℕ) (remote : Text) (accepts : ℕ → Bool)
    → send_pieces (suc fuel) whole remote accepts []
      ≡ some (record { chunks = []; first = true; broken = false })
unfolding send_pieces for_pieces read goes_on take drop open_stream read_some
nothing_sent fuel remote accepts = refl

-- An empty local file: over a reliable transport the upload reports success and the server answers
-- OK, and none of the server's files has changed.
pub empty_upload_stores_nothing :
    (fuel : ℕ) (net : Transport) (call : Call) (disk : Upload.Disk) (accepts : ℕ → Bool)
    (local remote : Text) (client server : Files)
    → IsReliable net
    → client local ≡ some []
    → (r : Reply) × (upload (suc fuel) net call disk whole accepts local remote client server
        ≡ some (true, some r))
      × (r.files ≡ server)
unfolding upload start_upload serve_upload upload_result status_of is_ok send_pieces for_pieces
empty_upload_stores_nothing fuel net call disk accepts local remote client server reliable e =
    let (ending, files) = upload_file_nothing call disk server in
    (
      upload_file call disk [] server,
      rw (e, nothing_sent fuel remote accepts, reliable.up_whole, ending) refl,
      files,
    )
