-- ===== src/Client/Tasks/Tests.antt =====
-- Tasks of the load client on small completion queues, and their theorems at them.
use cccloud.Prelude.{
  ℕ_discrete, ◌+◌, none, ◌*◌, ◌<◌, ℕ, zero, suc, ◌≡◌, refl, arith, Bool, true, false, List, [], ◌∷◌,
  ◌++◌, some, length,
}
use cccloud.Text.{Text, codes}
use cccloud.Stream.Loop.{whole}
use cccloud.Server.{ok_status}
use cccloud.Service.Download.Sends.{concat}
use cccloud.Client.Simple.{is_ok}
use cccloud.Client.Bench.{task_file}
use cccloud.Client.Bench.Dummy.Repeats.{Repeats}
use cccloud.Client.Tasks.{Event, CompletionQueue, start_download, finish, shutdown, Task, IsDrained}
use cccloud.Client.Tasks.Upload.{failed, lost, run_upload_only}
use cccloud.Client.Tasks.Upload.Stores.{sent, copies, Succeeds, run_upload_only_stores}
use cccloud.Server.Upload.Many.{arrive_all, data_of, AreNamed, new_calls, comes_for}
use cccloud.Client.Tasks.Together.{tasks_upload_apart}
use cccloud.Server.Upload.{Chunk, create, upload_path}
use cccloud.Server.Upload.Stores.{receive_all}
use cccloud.Client.Tasks.Download.{Download, run_download_only, returns}
use cccloud.Client.Tasks.Download.Receives.{reads, run_download_only_receives}

-- The queue of these events.
abbrev of_list : List Event → CompletionQueue
of_list [] k = record { got = false; ok = false; tag = 0; message = [] }
of_list (e ∷ es) zero = e
of_list (e ∷ es) (suc k) = of_list es k

of_list-IsDrained : (es : List Event) → IsDrained (of_list es) (length es)
unfolding IsDrained
of_list-IsDrained [] m h = refl
of_list-IsDrained (e ∷ es) zero h = absurd (omega arith)
of_list-IsDrained (e ∷ es) (suc m) h = of_list-IsDrained es m (omega arith)

abbrev event : Bool → ℕ → Text → Event
event ok tag message = record { got = true; ok = ok; tag = tag; message = message }

-- The second write fails.
abbrev breaking : List Event
breaking = event true 0 [] ∷ event true 1 [] ∷ event false 1 [] ∷ event true 3 [] ∷ []

-- A call that delivers two messages.
abbrev delivering : List Event
delivering =
    event true 0 []
    ∷ event true 0 (codes "ab")
    ∷ event true 0 (codes "c")
    ∷ event false 0 []
    ∷ event true 0 []
    ∷ []

run_download_only_receives_example :
    (r : Download) × (run_download_only 6 (of_list delivering) true true whole ok_status 7
      ≡ returns r)
    × (r.output_file.content ≡ concat (codes "ab" ∷ codes "c" ∷ []))
    × (r.success ≡ is_ok ok_status)
    × (r.task.actions ≡ start_download (task_file 7) ∷ (reads 3 ++ (finish ∷ shutdown ∷ [])))
run_download_only_receives_example =
    run_download_only_receives 6 5 7 (of_list delivering) ok_status (codes "ab" ∷ codes "c" ∷ [])
      (refl, refl) ((refl, refl, refl, (refl, refl, refl, refl))) refl
      (of_list-IsDrained delivering) (omega arith) (omega arith)

-- An upload of two messages that goes well.
abbrev succeeding : List Event
succeeding =
    event true 0 [] ∷ event true 1 [] ∷ event true 1 [] ∷ event true 2 [] ∷ event true 3 [] ∷ []

succeeding-Succeeds : Succeeds 2 (of_list succeeding)
unfolding failed lost
succeeding-Succeeds = record { starts = refl; writes_all = each; closes = refl; finishes = refl }
  where
    each : (k : ℕ) → k < 2 → failed (of_list succeeding (k + 1)) 1 ≡ false
    each zero h = refl
    each (suc zero) h = refl
    each (suc (suc k)) h = absurd (omega arith)

run_upload_only_stores_example :
    (payload : Text) × (t : Task) × (run_upload_only 6 (of_list succeeding) 2 100 7 ≡ some t)
    × Repeats 100 payload
    × (let u =
          receive_all
            (sent t.actions)
            (create 7 (codes "id") (codes "ipv4:1.2.3.4:5") (codes "/srv") (λ q. none)) in
        (u.files (upload_path (codes "/srv") (task_file 7)) ≡ some (copies 2 payload))
        × (length (copies 2 payload) ≡ 2 * 100)
        × (u.response ≡ record { success = true; message = codes "upload complete" })
        × (u.status ≡ ok_status))
run_upload_only_stores_example =
    run_upload_only_stores 6 5 1 100 7 7 (of_list succeeding) (codes "id") (codes "ipv4:1.2.3.4:5")
      (codes "/srv") (λ q. none) (of_list-IsDrained succeeding) (omega arith) succeeding-Succeeds

-- The messages of two tasks, interleaved.
abbrev mixed : List (ℕ × Chunk)
mixed =
    (7, record { filename = task_file 7; payload = codes "ab" })
    ∷ (8, record { filename = task_file 8; payload = codes "x" })
    ∷ (7, record { filename = []; payload = codes "c" })
    ∷ []

mixed-AreNamed : AreNamed task_file (λ j. false) mixed
unfolding AreNamed ℕ_discrete
mixed-AreNamed = (λ e. refl, (λ e. refl, (λ e. absurd (cc (e)), tt)))

tasks_upload_apart_example :
    (arrive_all mixed
        (new_calls 5 (λ j. codes "id") (codes "ipv4:1.2.3.4:5") (codes "/srv") (λ q. none))).shared
      (upload_path (codes "/srv") (task_file 7))
    ≡ some (codes "abc")
unfolding data_of comes_for
tasks_upload_apart_example =
    tasks_upload_apart 5 (λ j. codes "id") (codes "ipv4:1.2.3.4:5") (codes "/srv") (λ q. none) mixed
      7 mixed-AreNamed refl
