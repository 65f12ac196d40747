-- ===== src/Client/Simple.antt =====
-- client/CCcloud_client.hpp, `CCCloudClient`: calls that block. gRPC chooses which writes of a stream
-- succeed and with which status a call ends.
pub mod Session
use mathlib.Core.Option as Opt
use cccloud.Prelude.{
  ℕ, zero, suc, ◌+◌, ◌-◌, ◌*◌, ◌^◌, ◌<◌, ◌≤◌, ◌≡◌, ◌≢◌, refl, sym, ap, ◌∙◌, subst, ◌⊎◌, inl, inr,
  Bool, true, false, not, ◌&&◌, ◌||◌, List, [], ◌∷◌, ◌++◌, map, Option, none, some, arith, length,
  length-append, if◌then◌else◌, if_true, if_false, ◌==◌, ltb, leb, Bool-cases, Option-cases, u64,
}
use cccloud.Text.{Text, codes, take}
use cccloud.Logger.{code_ok}
use cccloud.Stream.{Stream, open_stream}
use cccloud.Stream.Loop.{for_pieces}
use cccloud.Server.{Status, Files, put_file}
use cccloud.Server.Upload.{Chunk}

-- `chunk_size`.
abbrev pub chunk_size : ℕ
chunk_size = 409600

-- The stream of messages of an upload: those written so far, whether the next one is the first, and
-- whether a write has failed.
pub record Sending : Type 0 where
  pub chunks : List Chunk
  pub first : Bool
  pub broken : Bool

-- The loop's body: only the first message names the file. The write number `i` succeeds as `accepts`
-- says.
pub write_piece : Text → (ℕ → Bool) → Text → Sending → Sending × Bool
write_piece remote accepts bytes st =
    let chunk : Chunk = record { filename = if st.first then remote else []; payload = bytes } in
    if accepts (length st.chunks)
    then (record st { chunks = st.chunks ++ (chunk ∷ []); first = false }, true)
    else (record st { first = false; broken = true }, false)

pub send_pieces : ℕ → (ℕ → Option ℕ) → Text → (ℕ → Bool) → Text → Option Sending
unfolding for_pieces write_piece
send_pieces fuel breaks remote accepts content =
    for_pieces chunk_size breaks (write_piece remote accepts) fuel 0 (open_stream content)
      (record { chunks = []; first = true; broken = false })

-- `UploadFile` up to `Finish`: `some none` where the local file does not open, and `none` for a loop
-- that runs on. Fuel counts the reads.
pub start_upload : ℕ → (ℕ → Option ℕ) → Text → (ℕ → Bool) → Option Text → Option (Option Sending)
unfolding send_pieces
start_upload fuel breaks remote accepts none = some none
start_upload fuel breaks remote accepts (some content) =
    Opt.map some (send_pieces fuel breaks remote accepts content)

unfoldable pub is_ok : Status → Bool
is_ok status = status.code == code_ok

-- The result of `UploadFile`; `status` is that of `Finish`, which is called where no write failed.
pub upload_result : Option Sending → Status → Bool
unfolding is_ok
upload_result none status = false
upload_result (some st) status = if st.broken then false else is_ok status

-- The local file of a download, and whether its stream has failed.
pub record Local : Type 0 where
  pub content : Text
  pub failed : Bool

unfoldable pub write_local : Option ℕ → Text → Local → Local
write_local written bytes l = if l.failed then l else elim written [
  | none ↦ record l { content = l.content ++ bytes }
  | some n ↦ record l { content = l.content ++ take n bytes; failed = true }
]

-- The loop over the messages; the write of message `i` gets as far as `written i` says.
pub receive : (ℕ → Option ℕ) → List Text → ℕ → Local → Local
unfolding write_local
receive written [] i l = l
receive written (bytes ∷ messages) i l =
    receive written messages (i + 1) (write_local (written i) bytes l)

-- `DownloadFile`: its result and the local files. `creates` is whether the local file can be made.
pub download_local : Bool → (ℕ → Option ℕ) → List Text → Status → Text → Files → Bool × Files
unfolding receive is_ok
download_local creates written messages status local files =
    if creates
    then (
      is_ok status,
      put_file local
          (some (receive written messages 0 (record { content = []; failed = false })).content)
          files,
    )
    else (false, files)

-- The result of `DeleteFile`.
pub delete_result : Status → Bool → Bool
unfolding is_ok
delete_result status success = is_ok status && success
