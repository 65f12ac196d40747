-- ===== src/Client/Tasks/Upload.antt =====
-- client/async_client.cc, `run_upload_only`.
pub mod Ends
pub mod Stores
use cccloud.Prelude.{
  ℕ, zero, suc, ◌+◌, Bool, true, false, not, ◌||◌, List, [], ◌∷◌, ◌++◌, Option, none, some,
  if◌then◌else◌, ◌==◌,
}
use cccloud.Text.{Text}
use cccloud.Server.Upload.{Chunk}
use cccloud.Client.Bench.{task_file}
use cccloud.Client.Bench.Dummy.{generate_dummy_data}
use cccloud.Client.Tasks.{
  Event, CompletionQueue, Action, start_upload, write, writes_done, finish, Task, new_task, request,
  shutdown_and_drain_cq,
}

-- `UploadStep`: START, WRITE, WRITES_DONE and FINISH are 0 to 3. The test after `Next`.
unfoldable pub failed : Event → ℕ → Bool
failed e step = not e.got || (not e.ok || not (e.tag == step))

-- The test after the last `Next`, which does not read `ok_cq`.
unfoldable pub lost : Event → Bool
lost e = not e.got || not (e.tag == 3)

-- The message number `i`.
pub message : ℕ → Text → ℕ → Chunk
message id payload i = record { filename = if i == 0 then task_file id else []; payload = payload }

-- The loop, with `left` turns from `i` on; whether all messages were written.
pub write_chunks : ℕ → Text → CompletionQueue → ℕ → ℕ → Task → Bool × Task
unfolding failed message
write_chunks id payload cq zero i t = (true, t)
write_chunks id payload cq (suc left) i t =
    let t' = request (write (message id payload i)) t in
    let rest = write_chunks id payload cq left (i + 1) t' in
    if failed (cq t.polls) 1 then (false, request finish t') else rest

-- From `WritesDone` on.
pub close : ℕ → CompletionQueue → Bool × Task → Option Task
unfolding failed lost shutdown_and_drain_cq
close fuel cq (false, t) = some t
close fuel cq (true, t) =
    let done = request writes_done t in
    let finished = request finish done in
    let drained = shutdown_and_drain_cq fuel cq finished in
    if failed (cq t.polls) 2
    then some finished
    else (if lost (cq done.polls) then some finished else drained)

pub upload_all : ℕ → CompletionQueue → ℕ → Option Text → ℕ → Option Task
unfolding write_chunks close
upload_all fuel cq chunks none id = none
upload_all fuel cq chunks (some payload) id =
    let t = request start_upload new_task in
    let rest = close fuel cq (write_chunks id payload cq chunks 0 t) in
    if failed (cq 0) 0 then some t else rest

-- Fuel counts the calls of `Next` while the queue is drained.
pub run_upload_only : ℕ → CompletionQueue → ℕ → ℕ → ℕ → Option Task
unfolding upload_all
run_upload_only fuel cq chunks chunk_size id =
    upload_all fuel cq chunks (generate_dummy_data chunk_size) id
