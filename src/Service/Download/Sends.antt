-- ===== src/Service/Download/Sends.antt =====
-- What a download from the synchronous service sends.
use cccloud.Prelude.{
  ℕ, ◌<◌, ◌≤◌, ◌≡◌, refl, sym, ap, ◌∙◌, true, List, [], ◌∷◌, ◌++◌, Option, some, arith, length,
  length-append, u64,
}
use mathlib.Core.List.{append-nil, append_assoc}
use cccloud.Text.{Text, codes}
use cccloud.Text.Numbers.{to_string}
use cccloud.Logger.{download, code_ok}
use cccloud.Access.{log_prepare, log_commit}
use cccloud.Stream.{open_stream}
use cccloud.Stream.Loop.{for_pieces_total, for_pieces_inv, whole}
use cccloud.Server.{ok_status, Files}
use cccloud.Service.{returns, Call, Reply}
use cccloud.Service.Upload.{service_path}
use cccloud.Service.Download.{Sent, send_piece, send_file, finish, download_file, buffer_size}

abbrev pub concat : List Text → Text
concat [] = []
concat (s ∷ ss) = s ++ concat ss

abbrev pub AreShort : List Text → Type 0
AreShort [] = Unit
AreShort (s ∷ ss) = (length s ≤ buffer_size) × AreShort ss

-- What has been sent while `done` has been read.
record Sends (done : Text) (st : Sent) : Type 0 where
  all : concat st.messages ≡ done
  short : AreShort st.messages
  size : st.total_bytes ≡ u64 (length done)

concat-append : (ss : List Text) (s : Text) → concat (ss ++ (s ∷ [])) ≡ concat ss ++ s
concat-append [] s = append-nil s
concat-append (t ∷ ss) s =
    ap (λ u. t ++ u) (concat-append ss s) ∙ sym (append_assoc t (concat ss) s)

AreShort-append :
    (ss : List Text) (s : Text) → AreShort ss → length s ≤ buffer_size → AreShort (ss ++ (s ∷ []))
AreShort-append [] s h l = (l, tt)
AreShort-append (t ∷ ss) s h l = (h.0, AreShort-append ss s h.1 l)

send_piece-Sends :
    (bytes done : Text) (st : Sent)
    → length bytes ≤ buffer_size
    → Sends done st
    → Sends (done ++ bytes) (send_piece bytes st).0
unfolding send_piece
send_piece-Sends bytes done st l w = record {
  all = concat-append st.messages bytes ∙ ap (λ u. u ++ bytes) w.all;
  short = AreShort-append st.messages bytes w.short l;
  size = omega (arith, w.size, length-append done bytes);
}

send_file-Sends :
    (fuel : ℕ) (content : Text)
    → length content < fuel
    → (st : Sent) × (send_file fuel whole content ≡ some st) × Sends content st
unfolding send_file open_stream
send_file-Sends fuel content h =
    for_pieces_inv 4095 send_piece Sends
      (λ c bytes before st l w.
        (unfold send_piece in refl, send_piece-Sends (c ∷ bytes) before st l w))
      fuel 0 (open_stream content) content [] (record { messages = []; total_bytes = 0 })
      (record { whole = refl; same_flags = refl; finished = λ at. absurd (cc) }) refl h
      (record { all = refl; short = tt; size = refl })

-- The call on a disk that does not fail.
pub download_file_sends :
    (fuel : ℕ) (call : Call) (filename : Text) (files : Files) (content : Text)
    → files (service_path filename) ≡ some content
    → length content < fuel
    → (r : Reply) × (messages : List Text) × (download_file fuel call true whole filename files
        ≡ some (r, messages))
      × (r.ending ≡ returns ok_status)
      × (concat messages ≡ content)
      × AreShort messages
      × (r.logs
          ≡ log_prepare call.now call.uuid call.peer download (codes "filename=" ++ filename)
            ∷ log_commit call.later call.uuid call.peer download
                (codes "filename="
                  ++ (filename ++ (codes " size=" ++ to_string (u64 (length content)))))
                code_ok
                call.duration
                []
            ∷ [])
unfolding download_file
download_file_sends fuel call filename files content e h =
    let (st, run, w) = send_file-Sends fuel content h in
    (
      (finish call filename
          (log_prepare call.now call.uuid call.peer download (codes "filename=" ++ filename)) files
          st).0,
      st.messages,
      rw (e, run) refl,
      refl,
      w.all,
      w.short,
      rw w.size refl,
    )

-- The call on a disk whose reads break off.
download_file_total :
    (fuel : ℕ) (call : Call) (breaks : ℕ → Option ℕ) (filename : Text) (files : Files)
    (content : Text)
    → files (service_path filename) ≡ some content
    → length content < fuel
    → (r : Reply) × (messages : List Text) × (download_file fuel call true breaks filename files
        ≡ some (r, messages))
      × (r.ending ≡ returns ok_status)
unfolding download_file send_file open_stream
download_file_total fuel call breaks filename files content e h =
    let (st, run) =
      for_pieces_total buffer_size breaks send_piece fuel 0 (open_stream content)
        (record { messages = []; total_bytes = 0 }) (omega arith) h in
    (
      (finish call filename
          (log_prepare call.now call.uuid call.peer download (codes "filename=" ++ filename)) files
          st).0,
      st.messages,
      rw (e, run) refl,
      refl,
    )

-- A file that is there and opens, with fuel for one read more than it has bytes. On a disk that does
-- not fail the call returns OK and has sent the file's content in messages of at most 4096 bytes, and
-- the log's second entry gives the number of bytes, as a `size_t`. Wherever the reads break off, the
-- call still returns, with OK.
pub download_file_lem :
    (fuel : ℕ) (call : Call) (breaks : ℕ → Option ℕ) (filename : Text) (files : Files)
    (content : Text)
    → files (service_path filename) ≡ some content
    → length content < fuel
    → ((r : Reply) × (messages : List Text) × (download_file fuel call true whole filename files
          ≡ some (r, messages))
        × (r.ending ≡ returns ok_status)
        × (concat messages ≡ content)
        × AreShort messages
        × (r.logs
            ≡ log_prepare call.now call.uuid call.peer download (codes "filename=" ++ filename)
              ∷ log_commit call.later call.uuid call.peer download
                  (codes "filename="
                    ++ (filename ++ (codes " size=" ++ to_string (u64 (length content)))))
                  code_ok
                  call.duration
                  []
              ∷ []))
      × ((r : Reply) × (messages : List Text) × (download_file fuel call true breaks filename files
            ≡ some (r, messages))
          × (r.ending ≡ returns ok_status))
download_file_lem fuel call breaks filename files content e h = (
  download_file_sends fuel call filename files content e h,
  download_file_total fuel call breaks filename files content e h,
)
