-- ===== src/Client/Tasks.antt =====
-- client/async_client.cc: what a task of the load client asks of gRPC, with its completion queue as a
-- parameter.
pub mod Upload
pub mod Download
pub mod Delete
pub mod Together
mod Tests
use cccloud.Prelude.{
  dec_lt, ℕ, zero, suc, ◌+◌, ◌<◌, ◌≤◌, ◌≡◌, refl, Bool, true, false, List, [], ◌∷◌, ◌++◌, Option,
  none, some, arith, if◌then◌else◌, Bool-cases, inl, inr,
}
use cccloud.Text.{Text}
use cccloud.Server.Upload.{Chunk}

-- The result of a call of `Next`: its value, `ok_cq` and `received_tag`, and the message of a `Read`
-- that it completes.
pub record Event : Type 0 where
  pub got : Bool
  pub ok : Bool
  pub tag : ℕ
  pub message : Text

-- A completion queue: the results of its calls of `Next`, by number.
abbrev pub CompletionQueue : Type 0
CompletionQueue = ℕ → Event

pub data Action : Type 0 where
  start_upload : Action
  write : Chunk → Action
  writes_done : Action
  start_download : (filename : Text) → Action
  read : Action
  start_delete : (filename : Text) → Action
  finish : Action
  shutdown : Action

-- What a task has asked for, in order, and how often it has called `Next`.
pub record Task : Type 0 where
  pub actions : List Action
  pub polls : ℕ

abbrev pub new_task : Task
new_task = record { actions = []; polls = 0 }

-- A request, and the call of `Next` that waits for it.
abbrev pub request : Action → Task → Task
request a t = record t { actions = t.actions ++ (a ∷ []); polls = t.polls + 1 }

-- The loop of `shutdown_and_drain_cq`. Fuel counts the calls of `Next`; `none` is a loop that runs on.
pub drain : ℕ → CompletionQueue → Task → Option Task
drain zero cq t = none
drain (suc fuel) cq t =
    let rest = drain fuel cq (record t { polls = t.polls + 1 }) in
    if (cq t.polls).got then rest else some (record t { polls = t.polls + 1 })

pub shutdown_and_drain_cq : ℕ → CompletionQueue → Task → Option Task
unfolding drain
shutdown_and_drain_cq fuel cq t =
    drain fuel cq (record t { actions = t.actions ++ (shutdown ∷ []) })

-- A queue that has nothing left after `n` calls of `Next`.
pub IsDrained : CompletionQueue → ℕ → Type 0
IsDrained cq n = (m : ℕ) → n ≤ m → (cq m).got ≡ false

pub polls_left : (n : ℕ) (cq : CompletionQueue) (k : ℕ) → IsDrained cq n → (cq k).got ≡ true → k < n
unfolding IsDrained
polls_left n cq k d more = elim (dec_lt k n) [
  | yes below ↦ below
  | no past ↦ absurd (cc (d k (omega (arith, past)), more))
]

drain_total :
    (fuel n : ℕ) (cq : CompletionQueue) (t : Task)
    → IsDrained cq n
    → n < fuel + t.polls
    → 0 < fuel
    → (t' : Task) × (drain fuel cq t ≡ some t') × (t'.actions ≡ t.actions)
unfolding drain
drain_total zero n cq t d h pos = absurd (omega arith)
drain_total (suc fuel) n cq t d h pos = elim (Bool-cases (cq t.polls).got) [
  | inr over ↦ (record t { polls = t.polls + 1 }, rw over refl, refl)
  | inl more ↦ rw more (
      drain_total fuel n cq (record t { polls = t.polls + 1 }) d (omega (arith, h))
        (omega (arith, h, polls_left n cq t.polls d more)))
]

-- A queue that has nothing left after some calls is drained.
pub shutdown_and_drain_cq_total :
    (fuel n : ℕ) (cq : CompletionQueue) (t : Task)
    → IsDrained cq n
    → n < fuel
    → (t' : Task) × (shutdown_and_drain_cq fuel cq t ≡ some t')
      × (t'.actions ≡ t.actions ++ (shutdown ∷ []))
unfolding shutdown_and_drain_cq
shutdown_and_drain_cq_total fuel n cq t d h =
    drain_total fuel n cq (record t { actions = t.actions ++ (shutdown ∷ []) }) d (omega (arith, h))
      (omega (arith, h))
