-- ===== src/Client/Tasks/Upload/Ends.antt =====
-- How an upload task of the load client ends.
use cccloud.Prelude.{
  ℕ, zero, suc, ◌+◌, ◌<◌, ◌≡◌, refl, ap, ◌∙◌, sym, subst, Bool, true, false, List, [], ◌∷◌, ◌++◌,
  some, arith, Bool-cases, inl, inr,
}
use mathlib.Core.List.{append-nil, append_assoc}
use cccloud.Text.{Text}
use cccloud.Client.Bench.Dummy.Repeats.{Repeats, generate_dummy_data-Repeats}
use cccloud.Client.Tasks.{
  CompletionQueue, Action, start_upload, write, writes_done, finish, shutdown, Task, new_task,
  request, IsDrained, shutdown_and_drain_cq_total,
}
use cccloud.Client.Tasks.Upload.{
  failed, lost, message, write_chunks, close, upload_all, run_upload_only,
}

-- The writes of `k` messages from number `i` on.
abbrev pub writes : ℕ → Text → ℕ → ℕ → List Action
writes id payload i zero = []
writes id payload i (suc k) = write (message id payload i) ∷ writes id payload (i + 1) k

-- What the task has asked for: where a call of `Next` reports a failure, the task stops, at a write or
-- later with `finish`; the queue is shut down where none does.
pub data Ended (id chunks : ℕ) (payload : Text) (cq : CompletionQueue) (asked : List Action)
    : Type 0 where
  not_started :
      failed (cq 0) 0 ≡ true → asked ≡ start_upload ∷ [] → Ended id chunks payload cq asked
  write_failed :
      (k : ℕ)
      → k < chunks
      → failed (cq (k + 1)) 1 ≡ true
      → asked ≡ start_upload ∷ (writes id payload 0 (suc k) ++ (finish ∷ []))
      → Ended id chunks payload cq asked
  close_failed :
      failed (cq (chunks + 1)) 2 ≡ true
      → asked ≡ start_upload ∷ (writes id payload 0 chunks ++ (writes_done ∷ finish ∷ []))
      → Ended id chunks payload cq asked
  finish_lost :
      lost (cq (chunks + 2)) ≡ true
      → asked ≡ start_upload ∷ (writes id payload 0 chunks ++ (writes_done ∷ finish ∷ []))
      → Ended id chunks payload cq asked
  complete :
      asked ≡ start_upload ∷ (writes id payload 0 chunks ++ (writes_done ∷ finish ∷ shutdown ∷ []))
      → Ended id chunks payload cq asked

-- The loop's result.
data Written (id i left : ℕ) (payload : Text) (cq : CompletionQueue) (t : Task) (r : Bool × Task)
    : Type 0 where
  all_written :
      r.0 ≡ true
      → r.1.polls ≡ t.polls + left
      → r.1.actions ≡ t.actions ++ writes id payload i left
      → Written id i left payload cq t r
  broken :
      (k : ℕ)
      → k < left
      → r.0 ≡ false
      → failed (cq (t.polls + k)) 1 ≡ true
      → r.1.actions ≡ t.actions ++ (writes id payload i (suc k) ++ (finish ∷ []))
      → Written id i left payload cq t r

plus_zero : (n : ℕ) → n ≡ n + 0
plus_zero n = omega arith

plus_suc : (n k : ℕ) → n + 1 + k ≡ n + suc k
plus_suc n k = omega arith

write_chunks-Written :
    (id i left : ℕ) (payload : Text) (cq : CompletionQueue) (t : Task)
    → Written id i left payload cq t (write_chunks id payload cq left i t)
unfolding write_chunks
write_chunks-Written id i zero payload cq t =
    all_written refl (omega arith) (sym (append-nil t.actions))
write_chunks-Written id i (suc left) payload cq t = elim (Bool-cases (failed (cq t.polls) 1)) [
  | inl bad ↦ rw bad (
      broken 0 (omega arith) refl (subst (λ m. failed (cq m) 1 ≡ true) (plus_zero t.polls) bad)
        (append_assoc t.actions (write (message id payload i) ∷ []) (finish ∷ [])))
  | inr good ↦ rw good (
      more (
        write_chunks-Written id (i + 1) left payload cq (request (write (message id payload i)) t)))
]
  where
    more :
        Written id
          (i + 1)
          left
          payload
          cq
          (request (write (message id payload i)) t)
          (write_chunks id payload cq left (i + 1) (request (write (message id payload i)) t))
        → Written id i
            (suc left)
            payload
            cq
            t
            (write_chunks id payload cq left (i + 1) (request (write (message id payload i)) t))
    more (all_written ok polls asked) = all_written ok (omega (arith, polls)) (
        asked
        ∙ append_assoc t.actions (write (message id payload i) ∷ [])
            (writes id payload (i + 1) left))
    more (broken k below ok bad asked) =
        broken (suc k) (omega arith) ok
          (subst (λ m. failed (cq m) 1 ≡ true) (plus_suc t.polls k) bad)
          (asked
            ∙ append_assoc t.actions (write (message id payload i) ∷ [])
                (writes id payload (i + 1) (suc k) ++ (finish ∷ [])))

closing :
    (t : Task) (before : List Action)
    → t.actions ≡ before
    → (request finish (request writes_done t)).actions ≡ before ++ (writes_done ∷ finish ∷ [])
closing t before e =
    append_assoc t.actions (writes_done ∷ []) (finish ∷ [])
    ∙ ap (λ s. s ++ (writes_done ∷ finish ∷ [])) e

module _ (fuel n id chunks : ℕ) (payload : Text) (cq : CompletionQueue) (d : IsDrained cq n)
    (enough : n < fuel) where
  -- `close` after the start and the loop.
  close-Ended :
      (r : Bool × Task)
      → Written id 0 chunks payload cq (request start_upload new_task) r
      → (t : Task) × (close fuel cq r ≡ some t) × Ended id chunks payload cq t.actions
  unfolding close
  close-Ended (true, t) (broken k below e bad asked) = absurd (cc e)
  close-Ended (false, t) (all_written e polls asked) = absurd (cc e)
  close-Ended (false, t) (broken k below e bad asked) =
      (t, refl, write_failed k below (subst (λ m. failed (cq m) 1 ≡ true) (one_plus k) bad) asked)
    where
      one_plus : (k : ℕ) → 1 + k ≡ k + 1
      one_plus k = omega arith
  close-Ended (true, t) (all_written e polls asked) = elim (Bool-cases (failed (cq t.polls) 2)) [
    | inl bad ↦ (
      request finish (request writes_done t),
      rw bad refl,
      close_failed (subst (λ m. failed (cq m) 2 ≡ true) (omega (arith, polls)) bad)
          (closing t (start_upload ∷ writes id payload 0 chunks) asked),
    )
    | inr good ↦ elim (Bool-cases (lost (cq (t.polls + 1)))) [
      | inl bad ↦ (
        request finish (request writes_done t),
        rw (good, bad) refl,
        finish_lost (subst (λ m. lost (cq m) ≡ true) (omega (arith, polls)) bad)
            (closing t (start_upload ∷ writes id payload 0 chunks) asked),
      )
      | inr fine ↦
          (let (t', run, all) =
              shutdown_and_drain_cq_total fuel n cq (request finish (request writes_done t)) d
                enough in
            (
              t',
              rw (good, fine) run,
              complete (
                  all
                  ∙ ap (λ s. s ++ (shutdown ∷ []))
                      (closing t (start_upload ∷ writes id payload 0 chunks) asked)
                  ∙ append_assoc (start_upload ∷ writes id payload 0 chunks)
                      (writes_done ∷ finish ∷ []) (shutdown ∷ [])),
            ))
    ]
  ]

  upload_all-Ended :
      (t : Task) × (upload_all fuel cq chunks (some payload) id ≡ some t)
      × Ended id chunks payload cq t.actions
  unfolding upload_all
  upload_all-Ended = elim (Bool-cases (failed (cq 0) 0)) [
    | inl bad ↦ (request start_upload new_task, rw bad refl, not_started bad refl)
    | inr good ↦
        (let (t, run, ended) =
            close-Ended (write_chunks id payload cq chunks 0 (request start_upload new_task))
              (write_chunks-Written id 0 chunks payload cq (request start_upload new_task)) in
          (t, rw good run, ended))
  ]

pub run_upload_only_ends :
    (fuel n chunks chunk_size id : ℕ) (cq : CompletionQueue)
    → IsDrained cq n
    → n < fuel
    → (payload : Text) × (t : Task) × (run_upload_only fuel cq chunks chunk_size id ≡ some t)
      × Repeats chunk_size payload
      × Ended id chunks payload cq t.actions
unfolding run_upload_only
run_upload_only_ends fuel n chunks chunk_size id cq d enough =
    let (payload, made, repeats) = generate_dummy_data-Repeats chunk_size in
    let (t, run, ended) = upload_all-Ended fuel n id chunks payload cq d enough in
    (payload, t, rw made run, repeats, ended)
