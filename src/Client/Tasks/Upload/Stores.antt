-- ===== src/Client/Tasks/Upload/Stores.antt =====
-- An upload task of the load client and the asynchronous server.
use cccloud.Prelude.{
  ℕ, zero, suc, ◌+◌, ◌*◌, ◌<◌, ◌≡◌, refl, ap, ◌∙◌, true, false, List, [], ◌∷◌, ◌++◌, some, arith,
  length, length-append,
}
use cccloud.Text.{Text, codes}
use cccloud.Server.{ok_status, Files}
use cccloud.Server.Upload.{Chunk, create, upload_path}
use cccloud.Server.Upload.Stores.{receive_all, payloads, receive_all_stores}
use cccloud.Client.Bench.{task_file}
use cccloud.Client.Bench.Dummy.Repeats.{Repeats}
use cccloud.Client.Tasks.{
  CompletionQueue, Action, start_upload, write, writes_done, start_download, read, start_delete,
  finish, shutdown, Task, IsDrained,
}
use cccloud.Client.Tasks.Upload.{failed, lost, message, run_upload_only}
use cccloud.Client.Tasks.Upload.Ends.{
  writes, Ended, not_started, write_failed, close_failed, finish_lost, complete,
  run_upload_only_ends,
}

-- The messages that a task has written.
abbrev pub sent : List Action → List Chunk
sent [] = []
sent (write chunk ∷ asked) = chunk ∷ sent asked
sent (start_upload ∷ asked) = sent asked
sent (writes_done ∷ asked) = sent asked
sent (start_download filename ∷ asked) = sent asked
sent (read ∷ asked) = sent asked
sent (start_delete filename ∷ asked) = sent asked
sent (finish ∷ asked) = sent asked
sent (shutdown ∷ asked) = sent asked

abbrev pub copies : ℕ → Text → Text
copies zero s = []
copies (suc n) s = s ++ copies n s

-- A queue that reports success for a start, `chunks` writes, the end of the writes, and the status.
pub record Succeeds (chunks : ℕ) (cq : CompletionQueue) : Type 0 where
  pub starts : failed (cq 0) 0 ≡ false
  pub writes_all : (k : ℕ) → k < chunks → failed (cq (k + 1)) 1 ≡ false
  pub closes : failed (cq (chunks + 1)) 2 ≡ false
  pub finishes : lost (cq (chunks + 2)) ≡ false

payloads-sent-writes :
    (id : ℕ) (payload : Text) (i k : ℕ) (rest : List Action)
    → sent rest ≡ []
    → payloads (sent (writes id payload i k ++ rest)) ≡ copies k payload
unfolding payloads message
payloads-sent-writes id payload i zero rest e = rw e refl
payloads-sent-writes id payload i (suc k) rest e =
    ap (λ s. payload ++ s) (payloads-sent-writes id payload (i + 1) k rest e)

length-copies : (n : ℕ) (s : Text) → length (copies n s) ≡ n * length s
length-copies zero s = omega arith
length-copies (suc n) s = grind (arith, length-append s (copies n s), length-copies n s)

completes :
    (id chunks : ℕ) (payload : Text) (cq : CompletionQueue) (asked : List Action)
    → Succeeds chunks cq
    → Ended id chunks payload cq asked
    → asked ≡ start_upload ∷ (writes id payload 0 chunks ++ (writes_done ∷ finish ∷ shutdown ∷ []))
completes id chunks payload cq asked ok (not_started bad e) = absurd (cc (ok.starts, bad))
completes id chunks payload cq asked ok (write_failed k below bad e) =
    absurd (cc (ok.writes_all k below, bad))
completes id chunks payload cq asked ok (close_failed bad e) = absurd (cc (ok.closes, bad))
completes id chunks payload cq asked ok (finish_lost bad e) = absurd (cc (ok.finishes, bad))
completes id chunks payload cq asked ok (complete e) = e

-- A completion queue that reports success at each step of an upload of at least one message, and a server
-- whose disk does not fail: the task ends, and when the server's call has received the messages that
-- the task has written, the task's file holds the dummy data as often as there are messages,
-- `chunk_size` bytes each, and the call has answered with success.
pub run_upload_only_stores :
    (fuel n rest chunk_size id now : ℕ) (cq : CompletionQueue) (uuid peer cwd : Text)
    (files : Files)
    → IsDrained cq n
    → n < fuel
    → Succeeds (suc rest) cq
    → (payload : Text) × (t : Task) × (run_upload_only fuel cq (suc rest) chunk_size id ≡ some t)
      × Repeats chunk_size payload
      × (let u = receive_all (sent t.actions) (create now uuid peer cwd files) in
          (u.files (upload_path cwd (task_file id)) ≡ some (copies (suc rest) payload))
          × (length (copies (suc rest) payload) ≡ suc rest * chunk_size)
          × (u.response ≡ record { success = true; message = codes "upload complete" })
          × (u.status ≡ ok_status))
unfolding message
run_upload_only_stores fuel n rest chunk_size id now cq uuid peer cwd files d enough ok =
    let (payload, t, run, repeats, ended) =
      run_upload_only_ends fuel n (suc rest) chunk_size id cq d enough in
    let asked = completes id (suc rest) payload cq t.actions ok ended in
    let (content, others, response, status, requests) =
      receive_all_stores now uuid peer cwd files
        (record { filename = task_file id; payload = payload })
        (sent (writes id payload 1 rest ++ (writes_done ∷ finish ∷ shutdown ∷ []))) in
    (
      payload,
      t,
      run,
      repeats,
      rw asked (
        content
            ∙ ap (λ s. some (payload ++ s))
                (payloads-sent-writes id payload 1 rest (writes_done ∷ finish ∷ shutdown ∷ [])
                  refl),
        length-copies (suc rest) payload ∙ ap (λ k. suc rest * k) repeats.size,
        response,
        status,
      ),
    )
