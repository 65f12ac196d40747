-- ===== src/Server/Tests.antt =====
-- Small calls of the server, and its theorems at them.
use cccloud.Server.Upload.Many.{arrive_all, data_of, AreNamed, new_calls, comes_for}
use cccloud.Server.Upload.Many.Interleaved.{Apart, file_of, interleaved_uploads_store}
use cccloud.Prelude.{
  ==_iff, sym, inl, inr, inl, ◌==◌, if◌then◌else◌, Bool-cases, List, ℕ_discrete, ℕ, ◌≡◌, refl,
  arith, true, false, [], ◌∷◌, ◌++◌, none, some, length,
}
use cccloud.Text.{Text, codes}
use cccloud.Server.{join, ok_status, Files, put_file, same}
use cccloud.Server.Upload.{Chunk, Upload, start_read, finish, upload_path}
use cccloud.Server.Upload as Upload
use cccloud.Server.Upload.Stores.{good_disk, receive, receive_all, payloads, receive_all_stores}
use cccloud.Server.Upload.Protocol.{
  reads, finishes, IsOrderly, Reach, begin, later, read_done, done, Reach-IsOrderly,
}
use cccloud.Server.Download.{download_path}
use cccloud.Server.Download as Download
use cccloud.Server.Download.Serves.{serve, HasServed, serve_sends_file}
use cccloud.Server.Delete.{delete_path, on_cancel, on_done}
use cccloud.Server.Delete as Delete
use cccloud.Server.Delete.Answers.{Answered, create_answers, cancelled_call_is_deleted_twice}

-- A disk with the one file `uploads/a`.
abbrev disk : Files
disk = put_file (codes "uploads/a") (some (codes "abc")) (λ q. none)

abbrev first_chunk : Chunk
first_chunk = record { filename = codes "b"; payload = codes "xy" }

abbrev second_chunk : Chunk
second_chunk = record { filename = codes "b"; payload = codes "z" }

receive_all_stores_example :
    let u =
      receive_all
        (first_chunk ∷ second_chunk ∷ [])
        (Upload.create 7 (codes "id") (codes "ipv4:1.2.3.4:5") (codes "/srv") disk) in
    let path = upload_path (codes "/srv") (codes "b") in
    (u.files path ≡ some (codes "xy" ++ payloads (second_chunk ∷ [])))
    × ((q : Text) → same q path ≡ false → u.files q ≡ disk q)
    × (u.response ≡ record { success = true; message = codes "upload complete" })
    × (u.status ≡ ok_status)
    × (u.requests
        ≡ finish ok_status
          ∷ (receive
              (first_chunk ∷ second_chunk ∷ [])
              (Upload.create 7 (codes "id") (codes "ipv4:1.2.3.4:5") (codes "/srv") disk)).requests)
receive_all_stores_example =
    receive_all_stores 7 (codes "id") (codes "ipv4:1.2.3.4:5") (codes "/srv") disk first_chunk
      (second_chunk ∷ [])

-- A stream that ends before its first chunk.
abbrev at_once : Upload
at_once =
    Upload.on_read_done false first_chunk good_disk
      (Upload.create 7 (codes "id") (codes "ipv4:1.2.3.4:5") (codes "/srv") disk)

at_once_reached :
    Reach 7 (codes "id") (codes "ipv4:1.2.3.4:5") (codes "/srv") disk (Upload.on_done 8 1 at_once) 1
unfolding reads finishes Upload.create Upload.on_read_done Upload.finish_ok
at_once_reached =
    later (later begin (read_done false first_chunk good_disk (omega arith)))
      (done 8 1 (omega arith) refl)

Reach-IsOrderly_example : IsOrderly (Upload.on_done 8 1 at_once) 1
Reach-IsOrderly_example = Reach-IsOrderly at_once_reached

file_is_there : disk (download_path (codes "a")) ≡ some (codes "abc")
unfolding download_path put_file
file_is_there = refl

serve_sends_file_example :
    HasServed
      (codes "abc")
      (serve 4 (Download.create 7 (codes "id") (codes "ipv4:1.2.3.4:5") (codes "a") disk))
serve_sends_file_example =
    serve_sends_file 7 (codes "id") (codes "ipv4:1.2.3.4:5") (codes "a") disk (codes "abc") 4
      file_is_there (omega arith)

create_answers_example :
    Answered disk (delete_path (codes "a")) (
      Delete.create 7 (codes "id") (codes "ipv4:1.2.3.4:5") (codes "a") none (codes "Success") disk)
create_answers_example =
    create_answers 7 (codes "id") (codes "ipv4:1.2.3.4:5") (codes "a") none (codes "Success") disk

cancelled_call_is_deleted_twice_example :
    let d = on_done 9 2 (
      on_cancel 8 1 (
        Delete.create 7
          (codes "id")
          (codes "ipv4:1.2.3.4:5")
          (codes "a")
          none
          (codes "Success")
          disk)) in
    (d.deletions ≡ 2) × (length d.logs ≡ 3)
cancelled_call_is_deleted_twice_example =
    cancelled_call_is_deleted_twice 7 8 9 1 2 (codes "id") (codes "ipv4:1.2.3.4:5") (codes "a") none
      (codes "Success") disk

-- Two uploads at once; the first chunk of each names its file.
abbrev two_names : ℕ → Text
two_names j = if j == 1 then codes "a" else codes "b"

abbrev interleaved : List (ℕ × Chunk)
interleaved =
    (1, record { filename = codes "a"; payload = codes "xy" })
    ∷ (2, record { filename = codes "b"; payload = codes "q" })
    ∷ (1, record { filename = []; payload = codes "z" })
    ∷ []

interleaved-AreNamed : AreNamed two_names (λ j. false) interleaved
unfolding AreNamed ℕ_discrete
interleaved-AreNamed = (λ e. refl, (λ e. refl, (λ e. absurd (cc (e)), tt)))

first-Apart : Apart (codes "/srv") two_names 1
unfolding upload_path join
first-Apart j ne = elim (Bool-cases (j == 1)) [
  | inl e ↦ absurd (ne (sym ((==_iff j 1).0 e)))
  | inr e ↦ rw e refl
]

interleaved_uploads_store_example :
    (arrive_all interleaved
        (new_calls 5 (λ j. codes "id") (codes "ipv4:1.2.3.4:5") (codes "/srv") (λ q. none))).shared
      (file_of (codes "/srv") two_names 1)
    ≡ some (codes "xyz")
unfolding data_of comes_for
interleaved_uploads_store_example =
    interleaved_uploads_store (codes "/srv") two_names 5 (λ j. codes "id") (codes "ipv4:1.2.3.4:5")
      (λ q. none) interleaved 1 interleaved-AreNamed first-Apart refl
