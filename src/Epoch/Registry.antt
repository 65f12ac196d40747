-- ===== src/Epoch/Registry.antt =====
-- The registry of threads, the threads' pointers into it, and registration.
use cccloud.Prelude.{
  false, Bool-cases, ℕ, ◌+◌, ◌≡◌, ◌≢◌, refl, inl, inr, Bool, List, [], ◌∷◌, Option, none, some,
  arith, lookup, insert, erase, lookup-insert, Option-cases, count,
}
use cccloud.Epoch.{
  false, update, ThreadData, Manager, point_at, claim, register_flagged, register_missing,
  fresh_data, ptrs, register_thread_if_needed,
}

-- How many retired entries of `p` the registry holds.
unfoldable pub pending : ℕ → List (ℕ × ThreadData) → ℕ
pending p [] = 0
pending p ((key, d) ∷ entries) = count p (ptrs d.retired_list) + pending p entries

pub pending-insert-some :
    (p key : ℕ) (d' d : ThreadData) (m : List (ℕ × ThreadData))
    → lookup key m ≡ some d
    → pending p (insert key d' m) + count p (ptrs d.retired_list)
      ≡ pending p m + count p (ptrs d'.retired_list)
unfolding pending lookup insert
pending-insert-some p key d' d [] e = cc
pending-insert-some p key d' d ((j, w) ∷ m) e = ground (arith, pending-insert-some p key d' d m)

pub pending-insert-none :
    (p key : ℕ) (d' : ThreadData) (m : List (ℕ × ThreadData))
    → lookup key m ≡ none
    → pending p (insert key d' m) ≡ pending p m + count p (ptrs d'.retired_list)
unfolding pending lookup insert
pending-insert-none p key d' [] e = omega arith
pending-insert-none p key d' ((j, w) ∷ m) e = ground (arith, pending-insert-none p key d' m)

pub pending-erase :
    (p key : ℕ) (d : ThreadData) (m : List (ℕ × ThreadData))
    → lookup key m ≡ some d
    → pending p (erase key m) + count p (ptrs d.retired_list) ≡ pending p m
unfolding pending lookup erase
pending-erase p key d [] e = cc
pending-erase p key d ((j, w) ∷ m) e = ground (arith, pending-erase p key d m)

pub record IsLinked (m : Manager) : Type 0 where
  pub own : (t k : ℕ) → m.current t ≡ some k → k ≡ t
  pub entry : (t k : ℕ) → m.current t ≡ some k → lookup t m.registry ≢ none

-- The entry of a thread that registers: the one that is there, or a fresh one.
abbrev pub entry_or_fresh : Option ThreadData → ThreadData
entry_or_fresh none = fresh_data
entry_or_fresh (some d) = d

-- What registering thread `t` does: `t` points to its entry, and nothing else has changed.
pub record Registers (t : ℕ) (m m' : Manager) : Type 0 where
  pub linked : IsLinked m'
  pub points : m'.current t ≡ some t
  pub mine : lookup t m'.registry ≡ some (entry_or_fresh (lookup t m.registry))
  pub others : (j : ℕ) → t ≢ j → lookup j m'.registry ≡ lookup j m.registry
  pub epoch : m'.global_epoch ≡ m.global_epoch
  pub freed : m'.freed ≡ m.freed
  pub pends : (p : ℕ) → pending p m'.registry ≡ pending p m.registry

-- Pointing thread `t` at its entry, in a registry that has one.
point_at-Registers :
    (t : ℕ) (m : Manager) (d : ThreadData)
    → IsLinked m
    → lookup t m.registry ≡ some d
    → Registers t m (point_at t m)
unfolding point_at
point_at-Registers t m d ok e = record {
  linked = record {
    own = λ j k h. ground (arith, ok.own j k);
    entry = λ j k h. ground (arith, ok.entry j k);
  };
  points = ground arith;
  mine = rw e;
  others = λ j h. refl;
  epoch = refl;
  freed = refl;
  pends = λ p. refl;
}

-- A fresh entry where there was none.
new_entry-Registers :
    (t : ℕ) (m : Manager)
    → IsLinked m
    → lookup t m.registry ≡ none
    → Registers t m (point_at t (record m { registry = insert t fresh_data m.registry }))
unfolding point_at
new_entry-Registers t m ok e = record {
  linked = record {
    own = λ j k h. ground (arith, ok.own j k);
    entry = λ j k h. ground (arith, ok.entry j k, lookup-insert t j fresh_data m.registry);
  };
  points = ground arith;
  mine = rw e (ground (arith, lookup-insert t t fresh_data m.registry));
  others = λ j h. ground (arith, lookup-insert t j fresh_data m.registry);
  epoch = refl;
  freed = refl;
  pends = λ p. omega (arith, pending-insert-none p t fresh_data m.registry e);
}

claim-Registers : (t : ℕ) (m : Manager) → IsLinked m → Registers t m (claim t m)
unfolding claim
claim-Registers t m ok = elim (Option-cases (lookup t m.registry)) [
  | inl e ↦ rw (e, claim) (new_entry-Registers t m ok e)
  | inr (d, e) ↦ rw (e, claim) (point_at-Registers t m d ok e)
]

-- A thread that points to its entry keeps it.
pub Registers-self :
    (t : ℕ) (m : Manager) → IsLinked m → (k : ℕ) → m.current t ≡ some k → Registers t m m
Registers-self t m ok k e = elim (Option-cases (lookup t m.registry)) [
  | inl gone ↦ absurd (ok.entry t k e gone)
  | inr (d, f) ↦ record {
    linked = ok;
    points = ground (arith, ok.own t k);
    mine = rw f;
    others = λ j h. refl;
    epoch = refl;
    freed = refl;
    pends = λ p. refl;
  }
]

Registers-unflag :
    (t : ℕ) (m m' : Manager) (f : ℕ → Bool)
    → Registers t m m'
    → Registers t m (record m' { needs_registration = f })
Registers-unflag t m m' f g = record {
  linked = record { own = g.linked.own; entry = g.linked.entry };
  points = g.points;
  mine = g.mine;
  others = g.others;
  epoch = g.epoch;
  freed = g.freed;
  pends = g.pends;
}

register_missing-Registers :
    (t : ℕ) (m : Manager) → IsLinked m → Registers t m (register_missing t m)
unfolding register_missing
register_missing-Registers t m ok = elim (Option-cases (m.current t)) [
  | inr (k, e) ↦ rw (e, register_missing) (Registers-self t m ok k e)
  | inl e ↦ elim (Option-cases (lookup t m.registry)) [
    | inl f ↦ rw (e, register_missing, f) (claim-Registers t m ok)
    | inr (d, f) ↦ rw (e, register_missing, f) (point_at-Registers t m d ok f)
  ]
]

-- Once a thread points to its entry, the second half of the registration does nothing.
register_missing-idle : (t : ℕ) (m : Manager) → m.current t ≡ some t → register_missing t m ≡ m
unfolding register_missing
register_missing-idle t m e = rw (e, register_missing)

abbrev unflagged : ℕ → Manager → Manager
unflagged t m = record (claim t m) {
  needs_registration = update (claim t m).needs_registration t false;
}

-- From a linked registry, registering never fails: afterwards the thread points to its entry, the one that it had or a
-- fresh one, and no other entry, epoch or deletion has changed.
pub register-Registers :
    (t : ℕ) (m : Manager) → IsLinked m → Registers t m (register_thread_if_needed t m)
unfolding register_thread_if_needed register_flagged
register-Registers t m ok = elim (Bool-cases (m.needs_registration t)) [
  | inl e ↦ rw (e, register_missing-idle t (unflagged t m) (unflag.points)) unflag
  | inr e ↦ rw e (register_missing-Registers t m ok)
]
  where
    unflag : Registers t m (unflagged t m)
    unflag = Registers-unflag t m (claim t m) _ (claim-Registers t m ok)
