-- ===== src/Client/Simple/Session/RoundTrip.antt =====
-- A file that goes to the server and comes back.
use mathlib.Core.List.{append-nil, append_assoc}
use cccloud.Server.{Files, put_file, same, same_refl}
use cccloud.Service.Download.Sends.{concat, download_file_sends}
use cccloud.Service.Upload.Stores.{good_disk, upload_file_stores}
use cccloud.Service.Upload.{upload_file, service_path}
use cccloud.Service.{Call, Reply}
use cccloud.Client.Simple.Session.{
  Transport, IsReliable, status_of, serve_upload, upload, serve_download, download,
}
use cccloud.Prelude.{
  ◌+◌, ℕ, ◌<◌, ◌≡◌, refl, sym, ap, ◌∙◌, Bool, true, false, List, [], ◌∷◌, ◌++◌, some, length,
  if◌then◌else◌, if_true,
}
use cccloud.Text.{Text}
use cccloud.Stream.{open_stream}
use cccloud.Stream.Loop.{for_pieces_inv, whole}
use cccloud.Server.Upload.{Chunk}
use cccloud.Server.Upload.Stores.{payloads}
use cccloud.Client.Simple.{
  Sending, write_piece, send_pieces, start_upload, upload_result, is_ok, write_local, receive,
  download_local,
}

abbrev pub always : ℕ → Bool
always i = true

payloads-append :
    (cs : List Chunk) (c : Chunk) → payloads (cs ++ (c ∷ [])) ≡ payloads cs ++ c.payload
unfolding payloads
payloads-append [] c = append-nil c.payload
payloads-append (d ∷ cs) c =
    ap (λ s. d.payload ++ s) (payloads-append cs c)
    ∙ sym (append_assoc d.payload (payloads cs) c.payload)

-- The first message names the file.
data Named (remote : Text) (st : Sending) : Type 0 where
  none_yet : st.chunks ≡ [] → st.first ≡ true → Named remote st
  some_sent :
      (c : Chunk) (cs : List Chunk)
      → st.chunks ≡ c ∷ cs
      → c.filename ≡ remote
      → st.first ≡ false
      → Named remote st

record Sends (remote done : Text) (st : Sending) : Type 0 where
  all : payloads st.chunks ≡ done
  unbroken : st.broken ≡ false
  named : Named remote st

write_piece-Named :
    (remote bytes : Text) (st : Sending)
    → Named remote st
    → Named remote (write_piece remote always bytes st).0
unfolding write_piece
write_piece-Named remote bytes st (none_yet e f) =
    some_sent (record { filename = if st.first then remote else []; payload = bytes }) []
      (ap
        (λ cs. cs ++ (record { filename = if st.first then remote else []; payload = bytes } ∷ []))
        e)
      (if_true st.first remote [] f) refl
write_piece-Named remote bytes st (some_sent c cs e n f) =
    some_sent c
      (cs ++ (record { filename = if st.first then remote else []; payload = bytes } ∷ []))
      (ap
        (λ ds. ds ++ (record { filename = if st.first then remote else []; payload = bytes } ∷ []))
        e)
      n refl

write_piece-Sends :
    (remote bytes done : Text) (st : Sending)
    → Sends remote done st
    → Sends remote (done ++ bytes) (write_piece remote always bytes st).0
write_piece-Sends remote bytes done st w = record {
  all =
      unfold write_piece in
      (payloads-append st.chunks
          (record { filename = if st.first then remote else []; payload = bytes })
        ∙ ap (λ s. s ++ bytes) w.all);
  unbroken = unfold write_piece in w.unbroken;
  named = write_piece-Named remote bytes st w.named;
}

send_pieces-Sends :
    (fuel : ℕ) (remote content : Text)
    → length content < fuel
    → (st : Sending) × (send_pieces fuel whole remote always content ≡ some st)
      × Sends remote content st
unfolding send_pieces open_stream payloads
send_pieces-Sends fuel remote content h =
    for_pieces_inv 409599 (write_piece remote always) (Sends remote)
      (λ c bytes before st l w.
        (unfold write_piece in refl, write_piece-Sends remote (c ∷ bytes) before st w))
      fuel 0 (open_stream content) content [] (record { chunks = []; first = true; broken = false })
      (record { whole = refl; same_flags = refl; finished = λ at. absurd (cc) }) refl h
      (record { all = refl; unbroken = refl; named = none_yet refl refl })

-- The messages of a file that is not empty.
messages_of :
    (fuel : ℕ) (remote : Text) (c : ℕ) (t : Text)
    → length (c ∷ t) < fuel
    → (st : Sending) × (first : Chunk) × (others : List Chunk) × (send_pieces fuel whole remote
          always
          (c ∷ t)
        ≡ some st)
      × (st.chunks ≡ first ∷ others)
      × (first.filename ≡ remote)
      × (payloads (first ∷ others) ≡ c ∷ t)
      × (st.broken ≡ false)
messages_of fuel remote c t h =
    let (st, run, w) = send_pieces-Sends fuel remote (c ∷ t) h in named st run w w.named
  where
    named :
        (st : Sending)
        → send_pieces fuel whole remote always (c ∷ t) ≡ some st
        → Sends remote (c ∷ t) st
        → Named remote st
        → (st : Sending) × (first : Chunk) × (others : List Chunk) × (send_pieces fuel whole remote
              always
              (c ∷ t)
            ≡ some st)
          × (st.chunks ≡ first ∷ others)
          × (first.filename ≡ remote)
          × (payloads (first ∷ others) ≡ c ∷ t)
          × (st.broken ≡ false)
    named st run w (none_yet e f) = absurd (unfold payloads in (cc (ap payloads e, w.all)))
    named st run w (some_sent first others e n f) =
        (st, first, others, run, e, n, ap payloads (sym e) ∙ w.all, w.unbroken)

receive-concat :
    (messages : List Text) (i : ℕ) (content : Text)
    → (receive whole messages i (record { content = content; failed = false })).content
      ≡ content ++ concat messages
unfolding receive write_local
receive-concat [] i content = sym (append-nil content)
receive-concat (m ∷ messages) i content =
    receive-concat messages (i + 1) (content ++ m) ∙ append_assoc content m (concat messages)

module _ (net : Transport) (reliable : IsReliable net) where
  -- The upload's half: the server's file is the client's.
  upload_whole :
      (fuel : ℕ) (call : Call) (local remote : Text) (client server : Files) (c : ℕ) (t : Text)
      → client local ≡ some (c ∷ t)
      → length (c ∷ t) < fuel
      → (r : Reply) × (upload fuel net call good_disk whole always local remote client server
          ≡ some (true, some r))
        × (r.files (service_path remote) ≡ some (c ∷ t))
  unfolding upload start_upload serve_upload upload_result status_of is_ok
  upload_whole fuel call local remote client server c t e h =
      let (st, first, others, run, chunks, name, all, unbroken) = messages_of fuel remote c t h in
      let (ending, content, _, _) = upload_file_stores call server first others in
      (
        upload_file call good_disk (first ∷ others) server,
        rw (e, run, unbroken, reliable.up_whole, chunks, ending) refl,
        ap (λ n. (upload_file call good_disk (first ∷ others) server).files (service_path n))
              (sym name)
            ∙ (content ∙ ap some all),
      )

  download_whole :
      (fuel : ℕ) (call : Call) (remote local : Text) (client server : Files) (content : Text)
      → server (service_path remote) ≡ some content
      → length content < fuel
      → (out : Files) × (download fuel net call true whole true whole remote local client server
          ≡ some (true, out))
        × (out local ≡ some content)
        × ((q : Text) → same q local ≡ false → out q ≡ client q)
  unfolding download serve_download download_local status_of is_ok put_file
  download_whole fuel call remote local client server content e h =
      let (r, messages, run, ending, all, _, _) =
        download_file_sends fuel call remote server content e h in
      (
        put_file local (some content) client,
        rw (run, ending, reliable.down_whole, receive-concat, all) refl,
        rw (same_refl local) refl,
        λ q ne. rw ne refl,
      )

  -- With a reliable transport, disks that do not fail, and fuel for one read more than the file has
  -- bytes: a file that is not empty, uploaded and then downloaded under the same name, comes back
  -- byte for byte. Both calls report success, and the download changes no other local file.
  pub upload_then_download :
      (fuel : ℕ) (call call' : Call) (local remote copy : Text) (client server : Files) (c : ℕ)
      (t : Text)
      → client local ≡ some (c ∷ t)
      → length (c ∷ t) < fuel
      → (r : Reply) × (out : Files) × (upload fuel net call good_disk whole always local remote
            client server
          ≡ some (true, some r))
        × (download fuel net call' true whole true whole remote copy client r.files
            ≡ some (true, out))
        × (out copy ≡ some (c ∷ t))
        × ((q : Text) → same q copy ≡ false → out q ≡ client q)
  upload_then_download fuel call call' local remote copy client server c t e h =
      let (r, up, stored) = upload_whole fuel call local remote client server c t e h in
      let (out, down, fetched, others) =
        download_whole fuel call' remote copy client r.files (c ∷ t) stored h in
      (r, out, up, down, fetched, others)
