-- ===== src/Client/Tasks/Download.antt =====
-- client/async_client.cc, `run_download_only`.
pub mod Receives
use cccloud.Prelude.{
  ℕ, zero, suc, ◌+◌, Bool, true, false, not, ◌&&◌, [], ◌∷◌, ◌++◌, Option, none, some, if◌then◌else◌,
}
use mathlib.Core.Option as Opt
use cccloud.Text.{Text}
use cccloud.Server.{Status}
use cccloud.Client.Simple.{is_ok, Local, write_local}
use cccloud.Client.Bench.{task_file}
use cccloud.Client.Tasks.{
  Event, CompletionQueue, start_download, read, finish, Task, new_task, request,
  shutdown_and_drain_cq,
}

-- The task, its output file, and whether it reports success.
pub record Download : Type 0 where
  pub task : Task
  pub output_file : Local
  pub success : Bool

abbrev pub empty_file : Local
empty_file = record { content = []; failed = false }

-- The loop over the messages; fuel counts the reads, and `none` is a loop that runs on. The write of
-- the message `i` gets as far as `written i` says.
pub read_messages : ℕ → CompletionQueue → (ℕ → Option ℕ) → ℕ → Task → Local → Option (Task × Local)
unfolding write_local
read_messages zero cq written i t l = none
read_messages (suc fuel) cq written i t l =
    let e = cq t.polls in
    let rest =
      read_messages fuel cq written (i + 1) (request read t)
        (write_local (written i) e.message l) in
    if e.got && e.ok then rest else some (request read t, l)

-- The label `download_cleanup`.
pub cleanup : ℕ → CompletionQueue → Task → Local → Bool → Option Download
unfolding shutdown_and_drain_cq
cleanup fuel cq t l success =
    Opt.map (λ t'. record { task = t'; output_file = l; success = success })
      (shutdown_and_drain_cq fuel cq t)

-- `Finish` sets the status to `final` if the wait for it succeeds; a status that is not set is OK.
pub finish_download : ℕ → CompletionQueue → Status → Option (Task × Local) → Option Download
unfolding cleanup is_ok
finish_download fuel cq final none = none
finish_download fuel cq final (some (t, l)) =
    cleanup fuel cq (request finish t) l (if (cq t.polls).got then is_ok final else true)

-- How the thread of a task goes: a loop that runs on, an exception that no one catches, which
-- terminates the program, or a return.
pub data Outcome {ℓ} (A : Type ℓ) : Type ℓ where
  runs_on : Outcome A
  terminates : Outcome A
  returns : A → Outcome A

unfoldable pub outcome {ℓ} : {A : Type ℓ} → Option A → Outcome A
outcome none = runs_on
outcome (some r) = returns r

-- `made` is whether the directory `downloads` is there or `create_directories` makes it: where it does
-- not, it throws. `opens` is whether the output file opens; where it does not, the task returns at once.
pub run_download_only :
    ℕ → CompletionQueue → Bool → Bool → (ℕ → Option ℕ) → Status → ℕ → Outcome Download
unfolding finish_download read_messages outcome
run_download_only fuel cq made opens written final id =
    let t = request (start_download (task_file id)) new_task in
    let refused = cleanup fuel cq t empty_file false in
    let received = finish_download fuel cq final (read_messages fuel cq written 0 t empty_file) in
    let called = outcome (if (cq 0).got && (cq 0).ok then received else refused) in
    let unopened =
      returns (record { task = new_task; output_file = empty_file; success = false }) in
    if made then (if opens then called else unopened) else terminates
