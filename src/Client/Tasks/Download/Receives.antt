-- ===== src/Client/Tasks/Download/Receives.antt =====
-- What a download task of the load client receives.
use cccloud.Prelude.{
  and_false, ℕ, zero, suc, ◌+◌, ◌<◌, ◌≡◌, refl, ap, ◌∙◌, subst, true, false, List, [], ◌∷◌, ◌++◌,
  some, arith, length,
}
use mathlib.Core.List.{append-nil, append_assoc}
use cccloud.Text.{Text}
use cccloud.Stream.Loop.{whole}
use cccloud.Server.{Status}
use cccloud.Service.Download.Sends.{concat}
use cccloud.Client.Simple.{is_ok, write_local}
use cccloud.Client.Bench.{task_file}
use cccloud.Client.Tasks.{
  CompletionQueue, Action, start_download, read, finish, shutdown, Task, new_task, request,
  IsDrained, shutdown_and_drain_cq_total,
}
use cccloud.Client.Tasks.Download.{
  Download, read_messages, cleanup, finish_download, run_download_only, outcome, returns,
}

-- From its event number `i` on the queue delivers these messages to reads, and then a read that finds
-- the stream at its end.
abbrev pub Delivers : CompletionQueue → ℕ → List Text → Type 0
Delivers cq i [] = (cq i).ok ≡ false
Delivers cq i (m ∷ ms) =
    ((cq i).got ≡ true) × ((cq i).ok ≡ true) × ((cq i).message ≡ m) × Delivers cq (i + 1) ms

abbrev pub reads : ℕ → List Action
reads zero = []
reads (suc n) = read ∷ reads n

read_messages-Delivers :
    (fuel i : ℕ) (messages : List Text) (cq : CompletionQueue) (t : Task) (s : Text)
    → Delivers cq t.polls messages
    → length messages < fuel
    → (t' : Task) × (read_messages fuel cq whole i t (record { content = s; failed = false })
        ≡ some (t', record { content = s ++ concat messages; failed = false }))
      × (t'.polls ≡ t.polls + length messages + 1)
      × (t'.actions ≡ t.actions ++ reads (suc (length messages)))
unfolding read_messages write_local
read_messages-Delivers zero i messages cq t s d h = absurd (omega arith)
read_messages-Delivers (suc fuel) i [] cq t s d h =
    (request read t, rw (d, and_false (cq t.polls).got, append-nil s) refl, omega arith, refl)
read_messages-Delivers (suc fuel) i (m ∷ ms) cq t s (got, ok, here, d) h =
    let (t', run, polls, asked) =
      read_messages-Delivers fuel (i + 1) ms cq (request read t) (s ++ m) d (omega (arith, h)) in
    (
      t',
      rw (got, ok, here)
          (run
            ∙ ap (λ c. some (t', record { content = c; failed = false }))
                (append_assoc s m (concat ms))),
      omega (arith, polls),
      asked ∙ append_assoc t.actions (read ∷ []) (reads (suc (length ms))),
    )

-- The output directory is there or is made and the output file opens, and the completion queue starts
-- the call, delivers some messages and then the end of the stream, and the
-- final status; and it has nothing left after `n` calls of `Next`. The output file then holds the
-- messages in order, the task reports what the final status says, and it has asked for one read more
-- than there are messages, for the status, and for the shutdown of its queue.
pub run_download_only_receives :
    (fuel n id : ℕ) (cq : CompletionQueue) (final : Status) (messages : List Text)
    → ((cq 0).got ≡ true) × ((cq 0).ok ≡ true)
    → Delivers cq 1 messages
    → (cq (length messages + 2)).got ≡ true
    → IsDrained cq n
    → n < fuel
    → length messages < fuel
    → (r : Download) × (run_download_only fuel cq true true whole final id ≡ returns r)
      × (r.output_file.content ≡ concat messages)
      × (r.success ≡ is_ok final)
      × (r.task.actions
          ≡ start_download (task_file id)
            ∷ (reads (suc (length messages)) ++ (finish ∷ shutdown ∷ [])))
unfolding run_download_only finish_download cleanup outcome
run_download_only_receives fuel n id cq final messages (got, ok) d end drained enough h =
    let (t, run, polls, asked) =
      read_messages-Delivers fuel 0 messages cq (request (start_download (task_file id)) new_task)
        [] d h in
    let (t', over, all) = shutdown_and_drain_cq_total fuel n cq (request finish t) drained enough in
    let answered : (cq t.polls).got ≡ true =
      subst (λ k. (cq k).got ≡ true) (omega (arith, polls)) end in
    (
      record {
        task = t';
        output_file = record { content = concat messages; failed = false };
        success = is_ok final;
      },
      rw (got, ok, run, answered, over) refl,
      refl,
      refl,
      all
          ∙ ap (λ s. (s ++ (finish ∷ [])) ++ (shutdown ∷ [])) asked
          ∙ append_assoc (start_download (task_file id) ∷ reads (suc (length messages)))
              (finish ∷ []) (shutdown ∷ []),
    )
