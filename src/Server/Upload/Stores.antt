-- ===== src/Server/Upload/Stores.antt =====
-- Uploads on a disk that does not fail: what becomes of the chunks of a stream.
use mathlib.Core.List.{append-nil, append_assoc}
use cccloud.Prelude.{ℕ, true, false, List, [], ◌∷◌, ◌++◌, none, some, ◌≡◌, refl}
use cccloud.Text.{Text, codes}
use cccloud.Server.{ok_status, Files, put_file, same, same_refl}
use cccloud.Server.Upload.{
  Chunk, start_read, finish, Disk, made, Upload, create, append_to, on_read_done, write_chunk,
  make_directory, open_file, finish_ok, upload_path,
}

abbrev pub good_disk : Disk
good_disk = record { make = made; opens = true; written = none }

abbrev no_chunk : Chunk
no_chunk = record { filename = []; payload = [] }

-- A stream of chunks, and its end.
pub receive : List Chunk → Upload → Upload
receive [] u = u
receive (chunk ∷ chunks) u = receive chunks (on_read_done true chunk good_disk u)

pub receive_all : List Chunk → Upload → Upload
unfolding receive
receive_all chunks u = on_read_done false no_chunk good_disk (receive chunks u)

unfoldable pub payloads : List Chunk → Text
payloads [] = []
payloads (chunk ∷ chunks) = chunk.payload ++ payloads chunks

-- A call that has the file `path` open, with the content `s`.
record Writes (path s : Text) (files : Files) (u : Upload) : Type 0 where
  opened : u.file_opened ≡ true
  target : u.ofs ≡ some path
  content : u.files path ≡ some s
  others : (q : Text) → same q path ≡ false → u.files q ≡ files q

on_read_done_open :
    (chunk : Chunk) {path s : Text} {files : Files} (u : Upload)
    → Writes path s files u
    → on_read_done true chunk good_disk u ≡ record u {
      files = put_file path (some (s ++ chunk.payload)) u.files;
      requests = start_read ∷ u.requests;
    }
unfolding on_read_done write_chunk append_to
on_read_done_open chunk u w = rw (w.opened, w.target, w.content) refl

on_read_done-Writes :
    (chunk : Chunk) {path s : Text} {files : Files} (u : Upload)
    → Writes path s files u
    → Writes path (s ++ chunk.payload) files (on_read_done true chunk good_disk u)
unfolding put_file
on_read_done-Writes chunk {path} {s} u w = rw (on_read_done_open chunk u w) (record {
  opened = w.opened;
  target = w.target;
  content = rw (same_refl path) refl;
  others = λ q ne. rw ne (w.others q ne);
})

receive-Writes :
    (chunks : List Chunk) {path s : Text} {files : Files} (u : Upload)
    → Writes path s files u
    → Writes path (s ++ payloads chunks) files (receive chunks u)
unfolding receive payloads
receive-Writes [] {path} {s} {files} u w = rw (append-nil s) w
receive-Writes (chunk ∷ chunks) {path} {s} {files} u w =
    rw (← append_assoc s chunk.payload (payloads chunks))
      (receive-Writes chunks (on_read_done true chunk good_disk u) (on_read_done-Writes chunk u w))

-- The first chunk opens its file, whatever this held before.
first-Writes :
    (chunk : Chunk) (u : Upload)
    → u.file_opened ≡ false
    → Writes
        (upload_path u.cwd chunk.filename)
        chunk.payload
        u.files
        (on_read_done true chunk good_disk u)
unfolding on_read_done make_directory open_file write_chunk append_to put_file
first-Writes chunk u e = rw e (record {
  opened = refl;
  target = refl;
  content = rw (same_refl (upload_path u.cwd chunk.filename)) refl;
  others = λ q ne. rw ne refl;
})

-- A stream of at least one chunk on a disk that does not fail: at its end the file that the first
-- chunk names holds the chunks' data in order and nothing else, every other file is as it was, and
-- the call has answered with success and asked gRPC to finish with OK.
pub receive_all_stores :
    (now : ℕ) (uuid peer cwd : Text) (files : Files) (chunk : Chunk) (chunks : List Chunk)
    → let u = receive_all (chunk ∷ chunks) (create now uuid peer cwd files) in
      let path = upload_path cwd chunk.filename in
      (u.files path ≡ some (chunk.payload ++ payloads chunks))
      × ((q : Text) → same q path ≡ false → u.files q ≡ files q)
      × (u.response ≡ record { success = true; message = codes "upload complete" })
      × (u.status ≡ ok_status)
      × (u.requests
          ≡ finish ok_status ∷ (receive (chunk ∷ chunks) (create now uuid peer cwd files)).requests)
unfolding receive_all receive on_read_done finish_ok create
receive_all_stores now uuid peer cwd files chunk chunks = (w.content, w.others, refl, refl, refl)
  where
    u : Upload
    u = create now uuid peer cwd files

    w :
        Writes
          (upload_path cwd chunk.filename)
          (chunk.payload ++ payloads chunks)
          files
          (receive chunks (on_read_done true chunk good_disk u))
    w = receive-Writes chunks (on_read_done true chunk good_disk u) (first-Writes chunk u refl)
