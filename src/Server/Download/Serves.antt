-- ===== src/Server/Download/Serves.antt =====
-- Downloads over a disk and a connection that do not fail.
use mathlib.Core.List.{append-nil, append_assoc}
use cccloud.Prelude.{
  ◌<◌, subst, ap, ◌∙◌, ℕ, zero, suc, ◌≤◌, ◌≡◌, refl, Bool, true, false, List, [], ◌∷◌, ◌++◌, arith,
  none, some, length, if◌then◌else◌,
}
use cccloud.Server.{Files}
use cccloud.Stream.{open_stream}
use cccloud.Stream.Reading.{length-drop_le}
use cccloud.Text.{Text, take, drop}
use cccloud.Server.{Files, Status, ok_status}
use cccloud.Server.Download.{
  download_path, create, open_file, Request, start_write, finish, Disk, Stream, Download,
  on_write_done, buffer_size, pump_or_fail, stream_of, pump, send, end_of_stream, finish_ok,
}
use cccloud.Stream.Reading.{
  length-drop_le, length-take_le, take_drop, IsSound, read_at_end, read_more, read_more-IsSound,
}

abbrev pub good_disk : Disk
good_disk = record { opens = true; breaks = none }

abbrev pub waits : List Request → Bool
waits [] = false
waits (start_write s ∷ rs) = true
waits (finish st ∷ rs) = false

-- gRPC carries out the write that is outstanding, as often as there is one, `n` times at most.
pub serve : ℕ → Download → Download
serve zero d = d
serve (suc n) d =
    let rest = serve n (on_write_done true good_disk d) in if waits d.requests then rest else d

-- The bytes of the messages, in the order in which they were sent.
unfoldable pub sent : List Request → Text
sent [] = []
sent (start_write s ∷ rs) = sent rs ++ s
sent (finish st ∷ rs) = sent rs

abbrev pub FitsBuffer : List Request → Type 0
FitsBuffer [] = Unit
FitsBuffer (start_write s ∷ rs) = (length s ≤ buffer_size) × FitsBuffer rs
FitsBuffer (finish st ∷ rs) = FitsBuffer rs

-- A call that has sent the whole of a text, and finished with OK.
pub record HasServed (content : Text) (d : Download) : Type 0 where
  pub whole : sent d.requests ≡ content
  pub fits : FitsBuffer d.requests
  pub status : d.status ≡ ok_status
  pub ended : (rs : List Request) × (d.requests ≡ finish ok_status ∷ rs)

serve_ended :
    (n : ℕ) (d : Download) (rs : List Request) (st : Status)
    → d.requests ≡ finish st ∷ rs
    → serve n d ≡ d
unfolding serve
serve_ended zero d rs st e = refl
serve_ended (suc n) d rs st e = rw e refl

-- One callback of a call that has the stream `s` open.
step_at_end :
    (d : Download) (s : Stream)
    → stream_of true d.ifs d ≡ some s
    → IsSound s
    → s.rest ≡ []
    → on_write_done true good_disk d
      ≡ record d { ifs = none; status = ok_status; requests = finish ok_status ∷ d.requests }
unfolding on_write_done pump_or_fail pump send end_of_stream finish_ok
step_at_end d s e ok at =
    let (none_read, ended, _) = read_at_end buffer_size s (omega arith) ok at in
    rw (e, none_read, ended) refl

step_more :
    (d : Download) (s : Stream) (c : ℕ) (t : Text)
    → stream_of true d.ifs d ≡ some s
    → IsSound s
    → s.rest ≡ c ∷ t
    → (s' : Stream) × (on_write_done true good_disk d
        ≡ record d { ifs = some s'; requests = start_write (c ∷ take 409599 t) ∷ d.requests })
      × IsSound s'
      × (s'.rest ≡ drop 409599 t)
unfolding on_write_done pump_or_fail pump send
step_more d s c t e ok at =
    (_, rw (e, read_more 409599 s c t ok at) refl, read_more-IsSound 409599 s c t ok, refl)

serve-waits :
    (n : ℕ) (d : Download)
    → waits d.requests ≡ true
    → serve (suc n) d ≡ serve n (on_write_done true good_disk d)
unfolding serve
serve-waits n d w = rw w refl

served_at_end :
    (n : ℕ) (d : Download) (s : Stream)
    → stream_of true d.ifs d ≡ some s
    → IsSound s
    → waits d.requests ≡ true
    → FitsBuffer d.requests
    → s.rest ≡ []
    → HasServed (sent d.requests) (serve (suc n) d)
unfolding sent
served_at_end n d s e ok w fits at =
    rw
      (
        serve-waits n d w,
        step_at_end d s e ok at,
        serve_ended n
            (record d { ifs = none; status = ok_status; requests = finish ok_status ∷ d.requests })
            d.requests ok_status refl,
      )
      (record { whole = refl; fits = fits; status = refl; ended = (d.requests, refl) })

serve_stream :
    (n : ℕ) (d : Download) (s : Stream) (rest : Text)
    → stream_of true d.ifs d ≡ some s
    → IsSound s
    → waits d.requests ≡ true
    → FitsBuffer d.requests
    → s.rest ≡ rest
    → length rest < n
    → HasServed (sent d.requests ++ rest) (serve n d)
unfolding sent stream_of
serve_stream zero d s rest e ok w fits at h = absurd (omega (arith, h))
serve_stream (suc n) d s [] e ok w fits at h =
    rw (append-nil (sent d.requests)) (served_at_end n d s e ok w fits at)
serve_stream (suc n) d s (c ∷ t) e ok w fits at h =
    let (s', step, ok', at') = step_more d s c t e ok at in
    let d' = record d { ifs = some s'; requests = start_write (c ∷ take 409599 t) ∷ d.requests } in
    rw (serve-waits n d w, step)
      (subst (λ content. HasServed content (serve n d'))
        (append_assoc (sent d.requests) (c ∷ take 409599 t) (drop 409599 t)
          ∙ ap (λ u. sent d.requests ++ (c ∷ u)) (take_drop 409599 t))
        (serve_stream n d' s' (drop 409599 t) refl ok' refl
          (omega (arith, length-take_le 409599 t), fits) at'
          (omega (arith, h, length-drop_le 409599 t))))

-- A file that is there, on a disk and a connection that do not fail: within
-- one callback more than the file has bytes the call has sent exactly the file's content, in
-- messages that fit the buffer, and has asked gRPC to finish with OK.
pub serve_sends_file :
    (now : ℕ) (uuid peer filename : Text) (files : Files) (content : Text) (n : ℕ)
    → files (download_path filename) ≡ some content
    → length content < n
    → HasServed content (serve n (create now uuid peer filename files))
unfolding stream_of open_file open_stream create sent
serve_sends_file now uuid peer filename files content n e h =
    serve_stream n (create now uuid peer filename files) (open_stream content) content (rw e refl)
      (record { whole = refl; same_flags = refl; finished = λ at. absurd (cc) }) refl
      (omega arith, tt) refl h
