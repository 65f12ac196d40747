-- ===== src/Epoch/Safety.antt =====
-- What epochs do and do not protect.
use cccloud.Prelude.{
  ◌∙◌, ℕ, ◌<◌, ◌≡◌, refl, inl, inr, List, [], ◌∷◌, Option, none, some, arith, lookup, Option-cases,
}
use cccloud.Epoch.{
  Retired, Manager, reclaim, try_reclaim, store_local, push_retired, enter, leave, retire, inactive,
  register_thread_if_needed,
}
use cccloud.Epoch.History.{Call, enters, leaves, retires, bumps, unregisters, step, run}
use mathlib.Core.List.{append-nil}
use cccloud.Epoch.Accounts.{step-Accounts}
use cccloud.Epoch.Registry.{IsLinked, register-Registers}

-- The calls that `MPMCQueue` makes.
abbrev pub IsQueueCall : Call → Type 0
IsQueueCall (enters t) = Unit
IsQueueCall (leaves t) = Unit
IsQueueCall (retires t p) = Unit
IsQueueCall _ = ⊥

abbrev pub All {ℓ κ} : {A : Type ℓ} → (A → Type κ) → List A → Type κ
All P [] = Unit
All P (x ∷ xs) = P x × All P xs

-- Nothing is deleted and the global epoch stays.
pub record Keeps (m m' : Manager) : Type 0 where
  pub epoch : m'.global_epoch ≡ m.global_epoch
  pub freed : m'.freed ≡ m.freed

store_local-Keeps : (k e : ℕ) (m : Manager) → Keeps m (store_local k e m)
unfolding store_local
store_local-Keeps k e m = ground arith

push_retired-Keeps : (k : ℕ) (node : Retired) (m : Manager) → Keeps m (push_retired k node m)
unfolding push_retired
push_retired-Keeps k node m = ground arith

try_reclaim-Keeps : (k : ℕ) (m : Manager) → m.global_epoch < 2 → Keeps m (try_reclaim k m)
unfolding try_reclaim reclaim
try_reclaim-Keeps k m h = elim (Option-cases (lookup k m.registry)) [
  | inl e ↦ rw (e, try_reclaim) (record { epoch = refl; freed = refl })
  | inr (d, e) ↦
      rw (e, try_reclaim) (record { epoch = refl; freed = ground (arith, append-nil m.freed) })
]

Keeps-trans : {a b c : Manager} → Keeps a b → Keeps b c → Keeps a c
Keeps-trans f g = record { epoch = g.epoch ∙ f.epoch; freed = g.freed ∙ f.freed }

register-Keeps : (t : ℕ) (m : Manager) → IsLinked m → Keeps m (register_thread_if_needed t m)
register-Keeps t m ok =
    let r = register-Registers t m ok in record { epoch = r.epoch; freed = r.freed }

pub enter-Keeps : (t : ℕ) (m : Manager) → IsLinked m → Keeps m (enter t m)
unfolding enter
enter-Keeps t m ok =
    rw ((register-Registers t m ok).points, enter)
      (Keeps-trans (register-Keeps t m ok) (store_local-Keeps t _ (register_thread_if_needed t m)))

pub retire-Keeps : (t : ℕ) (q : Option ℕ) (m : Manager) → IsLinked m → Keeps m (retire t q m)
unfolding retire
retire-Keeps t none m ok = record { epoch = refl; freed = refl }
retire-Keeps t (some q) m ok =
    rw ((register-Registers t m ok).points, retire)
      (Keeps-trans (register-Keeps t m ok) (push_retired-Keeps t _ (register_thread_if_needed t m)))

leave-Keeps : (t : ℕ) (m : Manager) → m.global_epoch < 2 → Keeps m (leave t m)
unfolding leave
leave-Keeps t m h = elim (Option-cases (m.current t)) [
  | inl e ↦ rw (e, leave) (record { epoch = refl; freed = refl })
  | inr (k, e) ↦
      (let stored = store_local-Keeps k inactive m in
        rw (e, leave)
          (Keeps-trans stored (try_reclaim-Keeps k (store_local k inactive m) (rw stored.epoch h))))
]

pub step-Keeps :
    (c : Call) (m : Manager) → IsQueueCall c → IsLinked m → m.global_epoch < 2 → Keeps m (step c m)
unfolding step
step-Keeps (enters t) m q ok h = enter-Keeps t m ok
step-Keeps (leaves t) m q ok h = leave-Keeps t m h
step-Keeps (retires t p) m q ok h = retire-Keeps t p m ok
step-Keeps bumps m q ok h = elim q [ ]
step-Keeps (unregisters t) m q ok h = elim q [ ]

-- From a linked registry and a global epoch below 2, no history of `enter`, `leave` and `retire`, by
-- any threads in any order, deletes a node or moves the epoch.
pub queue_calls_delete_nothing :
    (cs : List Call) (m : Manager)
    → All IsQueueCall cs
    → IsLinked m
    → m.global_epoch < 2
    → ((run m cs).freed ≡ m.freed) × ((run m cs).global_epoch ≡ m.global_epoch)
unfolding run
queue_calls_delete_nothing [] m q ok h = (refl, refl)
queue_calls_delete_nothing (c ∷ cs) m q ok h =
    let one = step-Keeps c m q.0 ok h in
    let (freed, epoch) =
      queue_calls_delete_nothing cs (step c m) q.1 (step-Accounts c m ok).linked (rw one.epoch h) in
    (freed ∙ one.freed, epoch ∙ one.epoch)
