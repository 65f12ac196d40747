-- ===== src/Service/Upload/Stores.antt =====
-- What an upload to the synchronous service leaves on the disk.
use mathlib.Core.List.{append-nil, append_assoc}
use cccloud.Prelude.{
  ℕ, ◌+◌, ◌≡◌, refl, sym, ap, ◌∙◌, subst, true, false, List, [], ◌∷◌, ◌++◌, none, some, arith,
  length, length-append, if_true, u64,
}
use cccloud.Text.{Text, codes}
use cccloud.Text.Numbers.{to_string}
use cccloud.Logger.{upload, code_ok}
use cccloud.Access.{log_prepare, log_commit}
use cccloud.Server.{ok_status, Files, put_file, same, same_refl}
use cccloud.Server.Upload.{Chunk, append_to}
use cccloud.Server.Upload.Stores.{payloads}
use cccloud.Service.{returns, Call}
use cccloud.Service.Upload.{
  Disk, Locals, start, service_path, write_some, write_chunk, open_file, finished, read_all, finish,
  upload_file,
}

abbrev pub good_disk : Disk
good_disk = record { makes = true; opens = true; written = λ i. none }

-- A handler that has the file `path` open, with the content `s`.
record Writes (path s : Text) (files : Files) (l : Locals) : Type 0 where
  open_now : l.opened ≡ true
  target : l.ofs ≡ some path
  good : l.failed ≡ false
  size : l.total_bytes ≡ u64 (length s)
  content : l.files path ≡ some s
  others : (q : Text) → same q path ≡ false → l.files q ≡ files q

write_chunk_open :
    (chunk : Chunk) {path s : Text} {files : Files} (l : Locals)
    → Writes path s files l
    → write_chunk none chunk l ≡ record l {
      total_bytes = u64 (l.total_bytes + length chunk.payload);
      files = put_file path (some (s ++ chunk.payload)) l.files;
    }
unfolding write_chunk append_to
write_chunk_open chunk l w = rw (w.good, w.target, w.content) refl

write_chunk-Writes :
    (chunk : Chunk) {path s : Text} {files : Files} (l : Locals)
    → Writes path s files l
    → Writes path (s ++ chunk.payload) files (write_chunk none chunk l)
unfolding put_file
write_chunk-Writes chunk {path} {s} l w = rw (write_chunk_open chunk l w) (record {
  open_now = w.open_now;
  target = w.target;
  good = w.good;
  size = omega (arith, w.size, length-append s chunk.payload);
  content = rw (same_refl path) refl;
  others = λ q ne. rw ne (w.others q ne);
})

read_all_opened :
    (disk : Disk) (chunk : Chunk) (chunks : List Chunk) (i : ℕ) (l : Locals)
    → l.opened ≡ true
    → read_all disk (chunk ∷ chunks) i l
      ≡ read_all disk chunks (i + 1) (write_chunk (disk.written i) chunk l)
unfolding read_all
read_all_opened disk chunk chunks i l e = if_true l.opened _ _ e

-- The loop, once the file is open.
read_all-Writes :
    (chunks : List Chunk) {path s : Text} {files : Files} (i : ℕ) (l : Locals)
    → Writes path s files l
    → (l' : Locals) × (read_all good_disk chunks i l ≡ finished l')
      × Writes path (s ++ payloads chunks) files l'
      × (l'.filename ≡ l.filename)
unfolding payloads
read_all-Writes [] {path} {s} {files} i l w =
    (l, unfold read_all in refl, subst (λ t. Writes path t files l) (sym (append-nil s)) w, refl)
read_all-Writes (chunk ∷ chunks) {path} {s} {files} i l w =
    let (l', run, w', name) =
      read_all-Writes chunks (i + 1) (write_chunk none chunk l) (write_chunk-Writes chunk l w) in
    (
      l',
      read_all_opened good_disk chunk chunks i l w.open_now ∙ run,
      subst (λ t. Writes path t files l') (append_assoc s chunk.payload (payloads chunks)) w',
      name ∙ ap (λ (m : Locals). m.filename) (write_chunk_open chunk l w),
    )

open_file-Writes :
    (chunk : Chunk) (files : Files)
    → Writes (service_path chunk.filename) [] files (open_file chunk (start files))
unfolding open_file start put_file
open_file-Writes chunk files = record {
  open_now = refl;
  target = refl;
  good = refl;
  size = refl;
  content = rw (same_refl (service_path chunk.filename)) refl;
  others = λ q ne. rw ne refl;
}

read_all_first :
    (files : Files) (chunk : Chunk) (chunks : List Chunk)
    → (l : Locals) × (read_all good_disk (chunk ∷ chunks) 0 (start files) ≡ finished l)
      × Writes (service_path chunk.filename) (payloads (chunk ∷ chunks)) files l
      × (l.filename ≡ chunk.filename)
unfolding read_all start payloads
read_all_first files chunk chunks =
    let opened = open_file-Writes chunk files in
    let (l, run, w, name) =
      read_all-Writes chunks 1 (write_chunk none chunk (open_file chunk (start files)))
        (write_chunk-Writes chunk (open_file chunk (start files)) opened) in
    (l, run, w, name ∙ unfold write_chunk open_file write_some start in refl)

-- A stream of at least one message on a disk that does not fail: the call returns OK, the file that
-- the first message names holds the data of all messages in order, every other file is as it was,
-- and the log's second entry gives the number of bytes, as a `size_t`.
pub upload_file_stores :
    (call : Call) (files : Files) (chunk : Chunk) (chunks : List Chunk)
    → let r = upload_file call good_disk (chunk ∷ chunks) files in
      let path = service_path chunk.filename in
      let content = payloads (chunk ∷ chunks) in
      (r.ending ≡ returns ok_status)
      × (r.files path ≡ some content)
      × ((q : Text) → same q path ≡ false → r.files q ≡ files q)
      × (r.logs
          ≡ log_prepare call.now call.uuid call.peer upload (codes "upload started")
            ∷ log_commit call.later call.uuid call.peer upload
                (codes "filename="
                  ++ (chunk.filename ++ (codes " size=" ++ to_string (u64 (length content)))))
                code_ok
                call.duration
                []
            ∷ [])
unfolding upload_file finish
upload_file_stores call files chunk chunks =
    let (l, run, w, name) = read_all_first files chunk chunks in
    rw run (refl, w.content, w.others, rw (name, w.size) refl)

-- A stream without messages is answered with OK, and nothing is stored.
pub upload_file_nothing :
    (call : Call) (disk : Disk) (files : Files)
    → ((upload_file call disk [] files).ending ≡ returns ok_status)
      × ((upload_file call disk [] files).files ≡ files)
unfolding upload_file read_all finish start
upload_file_nothing call disk files = (refl, refl)
