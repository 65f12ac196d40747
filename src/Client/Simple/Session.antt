-- ===== src/Client/Simple/Session.antt =====
-- A simple client and the synchronous service, with gRPC between them.
pub mod RoundTrip
pub mod Flaws
use mathlib.Core.Option as Opt
use cccloud.Prelude.{ℕ, ◌≡◌, ◌≢◌, Bool, false, List, Option, none, some, if◌then◌else◌}
use cccloud.Text.{Text}
use cccloud.Server.{Status, Files}
use cccloud.Server.Upload.{Chunk}
use cccloud.Service.{Ending, returns, throws, Call, Reply}
use cccloud.Service.Upload as Upload
use cccloud.Service.Upload.{upload_file}
use cccloud.Service.Download.{download_file}
use cccloud.Service.Delete.{delete_file}
use cccloud.Client.Simple.{Sending, start_upload, upload_result, download_local, delete_result}

-- gRPC: what arrives of the messages of a stream, and the status that a client sees for an exception
-- of the handler.
pub record Transport : Type 0 where
  pub up : List Chunk → List Chunk
  pub down : List Text → List Text
  pub of_exception : Status

-- Every message arrives once, in order, and an exception is an error.
pub record IsReliable (net : Transport) : Type 0 where
  pub up_whole : (chunks : List Chunk) → net.up chunks ≡ chunks
  pub down_whole : (messages : List Text) → net.down messages ≡ messages
  pub exception_fails : net.of_exception.code ≢ 0

pub status_of : Transport → Ending → Status
status_of net (returns status) = status
status_of net throws = net.of_exception

-- `UploadFile` against `Upload`: the client's result, and the server's reply. A call whose stream was
-- not finished has no reply.
pub serve_upload : Transport → Call → Upload.Disk → Files → Option Sending → Bool × Option Reply
unfolding status_of
serve_upload net call disk files none = (false, none)
serve_upload net call disk files (some st) =
    if st.broken
    then (false, none)
    else (let r = upload_file call disk (net.up st.chunks) files in
        (upload_result (some st) (status_of net r.ending), some r))

pub upload :
    ℕ
    → Transport
    → Call
    → Upload.Disk
    → (ℕ → Option ℕ)
    → (ℕ → Bool)
    → Text
    → Text
    → Files
    → Files
    → Option (Bool × Option Reply)
unfolding serve_upload
upload fuel net call disk breaks accepts local remote client server =
    Opt.map (serve_upload net call disk server)
      (start_upload fuel breaks remote accepts (client local))

pub serve_download :
    Transport → Bool → (ℕ → Option ℕ) → Text → Files → Reply × List Text → Bool × Files
unfolding status_of
serve_download net creates written local client (r, messages) =
    download_local creates written (net.down messages) (status_of net r.ending) local client

-- `DownloadFile` against `Download`: the client's result and files.
pub download :
    ℕ
    → Transport
    → Call
    → Bool
    → (ℕ → Option ℕ)
    → Bool
    → (ℕ → Option ℕ)
    → Text
    → Text
    → Files
    → Files
    → Option (Bool × Files)
unfolding serve_download
download fuel net call opens breaks creates written remote local client server =
    Opt.map (serve_download net creates written local client)
      (download_file fuel call opens breaks remote server)

-- `DeleteFile` against `Delete`: the client's result, and the server's files.
pub remove : Transport → Call → Bool → Text → Files → Bool × Files
unfolding status_of
remove net call refuses remote server =
    let r = delete_file call refuses remote server in
    (delete_result (status_of net r.ending) r.success, r.files)
