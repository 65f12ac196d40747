-- ===== src/Service/Tests.antt =====
-- Small calls of the synchronous service, and its theorems at them.
use cccloud.Prelude.{
  ◌≡◌, refl, arith, true, false, [], ◌∷◌, ◌++◌, none, some, length, ℕ, Option, List, u64,
}
use cccloud.Text.{Text, codes}
use cccloud.Text.Numbers.{to_string}
use cccloud.Logger.{upload, download, code_ok}
use cccloud.Access.{log_prepare, log_commit}
use cccloud.Stream.Loop.{whole}
use cccloud.Server.{ok_status, Files, put_file, same}
use cccloud.Server.Upload.{Chunk}
use cccloud.Server.Upload.Stores.{payloads}
use cccloud.Service.{Call, Reply, returns}
use cccloud.Service.Upload.{service_path, upload_file}
use cccloud.Service.Upload.Stores.{good_disk, upload_file_stores}
use cccloud.Service.Download.{download_file}
use cccloud.Service.Download.Sends.{concat, AreShort, download_file_lem}

abbrev call : Call
call = record { now = 7; later = 9; duration = 2; uuid = codes "id"; peer = codes "ipv4:1.2.3.4:5" }

-- A disk with the one file `uploads/a`.
abbrev disk : Files
disk = put_file (codes "uploads/a") (some (codes "abc")) (λ q. none)

abbrev first_chunk : Chunk
first_chunk = record { filename = codes "b"; payload = codes "xy" }

abbrev second_chunk : Chunk
second_chunk = record { filename = []; payload = codes "z" }

-- The read breaks off after one byte.
abbrev breaks : ℕ → Option ℕ
breaks i = some 1

file_is_there : disk (service_path (codes "a")) ≡ some (codes "abc")
unfolding service_path put_file
file_is_there = refl

upload_file_stores_example :
    let r = upload_file call good_disk (first_chunk ∷ second_chunk ∷ []) disk in
    let path = service_path (codes "b") in
    let content = payloads (first_chunk ∷ second_chunk ∷ []) in
    (r.ending ≡ returns ok_status)
    × (r.files path ≡ some content)
    × ((q : Text) → same q path ≡ false → r.files q ≡ disk q)
    × (r.logs
        ≡ log_prepare 7 (codes "id") (codes "ipv4:1.2.3.4:5") upload (codes "upload started")
          ∷ log_commit 9
              (codes "id")
              (codes "ipv4:1.2.3.4:5")
              upload
              (codes "filename="
                ++ (codes "b" ++ (codes " size=" ++ to_string (u64 (length content)))))
              code_ok
              2
              []
          ∷ [])
upload_file_stores_example = upload_file_stores call disk first_chunk (second_chunk ∷ [])

download_file_lem_example :
    ((r : Reply) × (messages : List Text) × (download_file 4 call true whole (codes "a") disk
        ≡ some (r, messages))
      × (r.ending ≡ returns ok_status)
      × (concat messages ≡ codes "abc")
      × AreShort messages
      × (r.logs
          ≡ log_prepare 7
              (codes "id")
              (codes "ipv4:1.2.3.4:5")
              download
              (codes "filename=" ++ codes "a")
            ∷ log_commit 9
                (codes "id")
                (codes "ipv4:1.2.3.4:5")
                download
                (codes "filename="
                  ++ (codes "a" ++ (codes " size=" ++ to_string (u64 (length (codes "abc"))))))
                code_ok
                2
                []
            ∷ []))
    × ((r : Reply) × (messages : List Text) × (download_file 4 call true breaks (codes "a") disk
          ≡ some (r, messages))
        × (r.ending ≡ returns ok_status))
download_file_lem_example =
    download_file_lem 4 call breaks (codes "a") disk (codes "abc") file_is_there (omega arith)
