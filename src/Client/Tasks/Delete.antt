-- ===== src/Client/Tasks/Delete.antt =====
-- client/async_client.cc, `run_delete_only`.
use cccloud.Prelude.{ℕ, ◌<◌, ◌≡◌, refl, Bool, true, [], ◌∷◌, Option, some, if◌then◌else◌}
use mathlib.Core.Option as Opt
use cccloud.Server.{Status}
use cccloud.Client.Simple.{is_ok}
use cccloud.Client.Bench.{task_file}
use cccloud.Client.Tasks.{
  CompletionQueue, start_delete, finish, shutdown, Task, new_task, request, IsDrained,
  shutdown_and_drain_cq, shutdown_and_drain_cq_total,
}

-- The task, and whether it reports success: `Finish` sets the status to `final` if the wait for it
-- succeeds, and a status that is not set is OK.
pub run_delete_only : ℕ → CompletionQueue → Status → ℕ → Option (Task × Bool)
unfolding shutdown_and_drain_cq is_ok
run_delete_only fuel cq final id =
    let started : Task = record new_task { actions = start_delete (task_file id) ∷ [] } in
    Opt.map {B = Task × Bool} (λ t. (t, if (cq 0).got then is_ok final else true))
      (shutdown_and_drain_cq fuel cq (request finish started))

-- Whatever the completion queue reports, if it has nothing left after `n` calls of `Next`: a delete task
-- ends, has asked for the one call and its end, and has shut its queue down. It reports success if the
-- wait for the answer failed, and otherwise if the answer is OK.
pub run_delete_only_ends :
    (fuel n id : ℕ) (cq : CompletionQueue) (final : Status)
    → IsDrained cq n
    → n < fuel
    → (t : Task) × (run_delete_only fuel cq final id
        ≡ some (t, if (cq 0).got then is_ok final else true))
      × (t.actions ≡ start_delete (task_file id) ∷ finish ∷ shutdown ∷ [])
unfolding run_delete_only
run_delete_only_ends fuel n id cq final d enough =
    let started : Task = record new_task { actions = start_delete (task_file id) ∷ [] } in
    let (t, run, asked) = shutdown_and_drain_cq_total fuel n cq (request finish started) d enough in
    (t, rw run refl, asked)
