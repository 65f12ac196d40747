-- ===== src/Epoch/Accounts.antt =====
-- The calls of `EBRManager`, the registry, and the books of retired and deleted pointers.
use cccloud.Prelude.{
  ℕ, ◌+◌, ◌≡◌, ◌≢◌, inl, inr, Bool, List, [], ◌∷◌, ◌++◌, Option, none, some, arith, if◌then◌else◌,
  ◌==◌, update, lookup, insert, erase, lookup-insert, lookup-erase_ne, Option-cases, count,
  count-append,
}
use cccloud.Epoch.{
  Retired, ThreadData, Manager, ptrs, reclaim, try_reclaim, store_local, push_retired, enter, leave,
  retire, bump_epoch, unregister_thread, inactive, register_thread_if_needed,
}
use cccloud.Epoch.Registry.{
  Registers, IsLinked, register-Registers, pending-insert-some, pending-erase,
}
use cccloud.Epoch.Reclaim.{count-reclaim}
use cccloud.Epoch.History.{
  Call, enters, leaves, retires, bumps, unregisters, step, retires_once, balance,
}

-- A step keeps the registry linked and accounts for `n p` more retirements of each `p`.
pub record Accounts (n : ℕ → ℕ) (m m' : Manager) : Type 0 where
  pub linked : IsLinked m'
  pub books : (p : ℕ) → balance p m' ≡ balance p m + n p

-- Giving an entry that is there a new value.
pub IsLinked-insert :
    (k : ℕ) (d : ThreadData) (f : List ℕ) (m : Manager)
    → IsLinked m
    → IsLinked (record m { registry = insert k d m.registry; freed = f })
IsLinked-insert k d f m ok = record {
  own = ok.own;
  entry = λ t j h. ground (arith, ok.entry t j h, lookup-insert k t d m.registry);
}

pub try_reclaim-Accounts :
    (k : ℕ) (m : Manager) → IsLinked m → Accounts (λ _. 0) m (try_reclaim k m)
unfolding try_reclaim
try_reclaim-Accounts k m ok = elim (Option-cases (lookup k m.registry)) [
  | inl e ↦ rw (e, try_reclaim) (record { linked = ok; books = λ p. omega arith })
  | inr (d, e) ↦
      rw (e, try_reclaim)
        (record {
          linked = IsLinked-insert k _ _ m ok;
          books = λ p.
              unfold balance in
              omega (
                arith,
                count-append p m.freed (ptrs (reclaim m.global_epoch d).1),
                count-reclaim p m.global_epoch d,
                pending-insert-some p k (reclaim m.global_epoch d).0 d m.registry e,
              );
        })
]

store_local-Accounts :
    (k epoch : ℕ) (m : Manager) → IsLinked m → Accounts (λ _. 0) m (store_local k epoch m)
unfolding store_local balance
store_local-Accounts k epoch m ok = elim (Option-cases (lookup k m.registry)) [
  | inl e ↦ rw (e, store_local) (record { linked = ok; books = λ p. omega arith })
  | inr (d, e) ↦
      rw (e, store_local)
        (record {
          linked = IsLinked-insert k _ m.freed m ok;
          books = λ p.
              omega
                (arith, pending-insert-some p k (record d { local_epoch = epoch }) d m.registry e);
        })
]

count-ptrs_append :
    (p : ℕ) (xs : List Retired) (node : Retired)
    → count p (ptrs (xs ++ (node ∷ []))) ≡ count p (ptrs xs) + (if node.ptr == p then 1 else 0)
count-ptrs_append p [] node = omega arith
count-ptrs_append p (x ∷ xs) node = omega (arith, count-ptrs_append p xs node)

push_retired-Accounts :
    (k : ℕ) (node : Retired) (m : Manager)
    → IsLinked m
    → lookup k m.registry ≢ none
    → Accounts (λ p. if node.ptr == p then 1 else 0) m (push_retired k node m)
unfolding push_retired balance
push_retired-Accounts k node m ok here = elim (Option-cases (lookup k m.registry)) [
  | inl e ↦ absurd (here e)
  | inr (d, e) ↦
      rw (e, push_retired)
        (record {
          linked = IsLinked-insert k _ m.freed m ok;
          books = λ p. omega (
            arith,
            pending-insert-some p k (record d { retired_list = d.retired_list ++ (node ∷ []) }) d
                m.registry e,
            count-ptrs_append p d.retired_list node,
          );
        })
]

pub Accounts-trans :
    {n k : ℕ → ℕ} {a b c : Manager}
    → Accounts n a b
    → Accounts k b c
    → Accounts (λ p. n p + k p) a c
Accounts-trans f g = record { linked = g.linked; books = λ p. omega (arith, f.books p, g.books p) }

register-Accounts :
    (t : ℕ) (m : Manager) → IsLinked m → Accounts (λ _. 0) m (register_thread_if_needed t m)
unfolding balance
register-Accounts t m ok =
    let r = register-Registers t m ok in
    record { linked = r.linked; books = λ p. rw (r.freed, r.pends p) (omega arith) }

enter-Accounts : (t : ℕ) (m : Manager) → IsLinked m → Accounts (λ _. 0) m (enter t m)
unfolding enter
enter-Accounts t m ok =
    let r = register-Registers t m ok in
    rw (r.points, enter)
      (Accounts-trans (register-Accounts t m ok)
        (store_local-Accounts t _ (register_thread_if_needed t m) r.linked))

leave-Accounts : (t : ℕ) (m : Manager) → IsLinked m → Accounts (λ _. 0) m (leave t m)
unfolding leave
leave-Accounts t m ok = elim (Option-cases (m.current t)) [
  | inl e ↦ rw (e, leave) (record { linked = ok; books = λ p. omega arith })
  | inr (k, e) ↦
      rw (e, leave)
        (let stored = store_local-Accounts k inactive m ok in
          Accounts-trans stored (try_reclaim-Accounts k (store_local k inactive m) stored.linked))
]

retire-Accounts :
    (t : ℕ) (q : Option ℕ) (m : Manager)
    → IsLinked m
    → Accounts (λ p. retires_once p (retires t q)) m (retire t q m)
unfolding retire retires_once
retire-Accounts t none m ok = record { linked = ok; books = λ p. omega arith }
retire-Accounts t (some q) m ok =
    rw (r.points, retire)
      (record {
        linked = pushed.linked;
        books = λ p. omega (arith, pushed.books p, (register-Accounts t m ok).books p);
      })
  where
    m' : Manager
    m' = register_thread_if_needed t m

    r : Registers t m m'
    r = register-Registers t m ok

    node : Retired
    node = record { ptr = q; epoch = m'.global_epoch }

    pushed : Accounts (λ p. if q == p then 1 else 0) m' (push_retired t node m')
    pushed = push_retired-Accounts t node m' r.linked (rw r.mine (λ e. cc))

bump_epoch-Accounts : (m : Manager) → IsLinked m → Accounts (λ _. 0) m (bump_epoch m)
unfolding bump_epoch balance
bump_epoch-Accounts m ok = record {
  linked = record { own = ok.own; entry = ok.entry };
  books = λ p. omega arith;
}

-- Dropping the entry of a thread that points nowhere from then on.
IsLinked-erase :
    (t : ℕ) (f : List ℕ) (flags : ℕ → Bool) (m : Manager)
    → IsLinked m
    → IsLinked (record m {
      registry = erase t m.registry;
      freed = f;
      current = update m.current t none;
      needs_registration = flags;
    })
IsLinked-erase t f flags m ok = record {
  own = λ j k h. ground (arith, ok.own j k);
  entry = λ j k h. ground (arith, ok.entry j k, lookup-erase_ne t j m.registry);
}

unregister_thread-Accounts :
    (t : ℕ) (m : Manager) → IsLinked m → Accounts (λ _. 0) m (unregister_thread t m)
unfolding unregister_thread balance
unregister_thread-Accounts t m ok = elim (Option-cases (lookup t (try_reclaim t m).registry)) [
  | inl e ↦ rw (e, unregister_thread) (record { linked = ok; books = λ p. omega arith })
  | inr (d, e) ↦
      rw (e, unregister_thread)
        (let done = try_reclaim-Accounts t m ok in
          let m' = try_reclaim t m in
          record {
            linked = IsLinked-erase t _ _ m' done.linked;
            books = λ p. omega (
              arith,
              done.books p,
              pending-erase p t d m'.registry e,
              count-append p m'.freed (ptrs d.retired_list),
            );
          })
]

pub step-Accounts :
    (c : Call) (m : Manager) → IsLinked m → Accounts (λ p. retires_once p c) m (step c m)
unfolding step retires_once
step-Accounts (enters t) m ok = enter-Accounts t m ok
step-Accounts (leaves t) m ok = leave-Accounts t m ok
step-Accounts (retires t q) m ok = retire-Accounts t q m ok
step-Accounts bumps m ok = bump_epoch-Accounts m ok
step-Accounts (unregisters t) m ok = unregister_thread-Accounts t m ok
