-- ===== src/Epoch.antt =====
-- tools/EBRQueue.hpp, `EBRManager`: retired nodes, epochs, and when nodes are deleted.
-- Threads are numbers. Each public call is one step: the registry is used under its mutex, and a
-- thread's data is written by that thread alone.
pub mod Registry
pub mod Reclaim
pub mod History
pub mod Accounts
pub mod Conservation
pub mod Safety
pub mod Readers
mod Tests
use cccloud.Prelude.{
  ℕ, zero, suc, ◌+◌, ◌-◌, ◌^◌, Bool, true, false, List, [], ◌∷◌, ◌++◌, map, Option, none, some,
  if◌then◌else◌, ltb, leb, u64, update, lookup, insert, erase,
}

-- `RetiredNode`. Its deleter is the same everywhere: `delete` at the node's type.
pub record Retired : Type 0 where
  pub ptr : ℕ
  pub epoch : ℕ

pub record ThreadData : Type 0 where
  pub local_epoch : ℕ
  pub retired_list : List Retired
  pub registered : Bool

-- `UINT64_MAX`: not active.
abbrev pub inactive : ℕ
inactive = 2 ^ 64 - 1

-- `current` is the thread local `current_thread_data`: the key of the entry that it points to.
-- `freed` lists the pointers that were deleted, in order.
pub record Manager : Type 0 where
  pub global_epoch : ℕ
  pub registry : List (ℕ × ThreadData)
  pub current : ℕ → Option ℕ
  pub needs_registration : ℕ → Bool
  pub freed : List ℕ

pub init : Manager
init = record {
  global_epoch = 0;
  registry = [];
  current = λ _. none;
  needs_registration = λ _. true;
  freed = [];
}

abbrev fresh_data : ThreadData
fresh_data = record { local_epoch = inactive; retired_list = []; registered = true }

point_at : ℕ → Manager → Manager
point_at tid m = record m { current = update m.current tid (some tid) }

-- Under the registry's mutex: find the thread's entry, or make one.
claim : ℕ → Manager → Manager
unfolding point_at
claim tid m = elim (lookup tid m.registry) [
  | none ↦ point_at tid (record m { registry = insert tid fresh_data m.registry })
  | some data' ↦ point_at tid m
]

register_flagged : ℕ → Manager → Manager
unfolding claim
register_flagged tid m =
    if m.needs_registration tid
    then (let m' = claim tid m in
        record m' { needs_registration = update m'.needs_registration tid false })
    else m

-- The entry is looked up under the shared lock, and again under the exclusive one.
register_missing : ℕ → Manager → Manager
unfolding claim
register_missing tid m = elim (m.current tid) [
  | some key ↦ m
  | none ↦ elim (lookup tid m.registry) [ some data' ↦ point_at tid m | none ↦ claim tid m ]
]

pub register_thread_if_needed : ℕ → Manager → Manager
unfolding register_flagged register_missing
register_thread_if_needed tid m = register_missing tid (register_flagged tid m)

-- The loop of `try_reclaim`: what stays retired, and what is to be deleted.
pub split_retired : ℕ → List Retired → List Retired × List Retired
split_retired safe_epoch [] = ([], [])
split_retired safe_epoch (node ∷ nodes) =
    let (still_retired, to_delete) = split_retired safe_epoch nodes in
    if leb node.epoch safe_epoch
    then (still_retired, node ∷ to_delete)
    else (node ∷ still_retired, to_delete)

abbrev pub ptrs : List Retired → List ℕ
ptrs = map (λ node. node.ptr)

-- `try_reclaim` on one thread's data at a global epoch: the data, and the nodes deleted.
pub reclaim : ℕ → ThreadData → ThreadData × List Retired
unfolding split_retired
reclaim epoch d =
    if ltb epoch 2
    then (d, [])
    else (let (still_retired, to_delete) = split_retired (epoch - 2) d.retired_list in
        (record d { retired_list = still_retired }, to_delete))

-- Where the thread has no entry (a null pointer in the source), nothing is done.
pub try_reclaim : ℕ → Manager → Manager
try_reclaim key m = elim (lookup key m.registry) [
  | none ↦ m
  | some d ↦
      (let (d', to_delete) = reclaim m.global_epoch d in
        record m { registry = insert key d' m.registry; freed = m.freed ++ ptrs to_delete })
]

pub store_local : ℕ → ℕ → Manager → Manager
store_local key epoch m = elim (lookup key m.registry) [
  | none ↦ m
  | some d ↦ record m { registry = insert key (record d { local_epoch = epoch }) m.registry }
]

pub push_retired : ℕ → Retired → Manager → Manager
push_retired key node m = elim (lookup key m.registry) [
  | none ↦ m
  | some d ↦ record m {
    registry = insert key (record d { retired_list = d.retired_list ++ (node ∷ []) }) m.registry;
  }
]

-- Where the thread has no data the call only reports an error.
pub enter : ℕ → Manager → Manager
enter tid m =
    let m' = register_thread_if_needed tid m in
    elim (m'.current tid) [ none ↦ m' | some key ↦ store_local key m'.global_epoch m' ]

pub leave : ℕ → Manager → Manager
leave tid m = elim (m.current tid) [
  | none ↦ m
  | some key ↦ try_reclaim key (store_local key inactive m)
]

-- A null pointer is `none`.
pub retire : ℕ → Option ℕ → Manager → Manager
retire tid none m = m
retire tid (some p) m =
    let m' = register_thread_if_needed tid m in
    elim (m'.current tid) [
      | none ↦ m'
      | some key ↦ push_retired key (record { ptr = p; epoch = m'.global_epoch }) m'
    ]

pub bump_epoch : Manager → Manager
bump_epoch m = record m { global_epoch = u64 (m.global_epoch + 1) }

bump_times : ℕ → Manager → Manager
unfolding bump_epoch
bump_times zero m = m
bump_times (suc n) m = bump_times n (bump_epoch m)

-- `bump_epoch_often`, less the sleep between two steps.
pub bump_epoch_often : Manager → Manager
unfolding bump_times
bump_epoch_often m = bump_times 5 m

-- `lookup` after `try_reclaim` sees the list that this left.
pub unregister_thread : ℕ → Manager → Manager
unregister_thread tid m =
    let m' = try_reclaim tid m in
    elim (lookup tid m'.registry) [
      | none ↦ m
      | some d ↦ record m' {
        registry = erase tid m'.registry;
        freed = m'.freed ++ ptrs d.retired_list;
        current = update m'.current tid none;
        needs_registration = update m'.needs_registration tid true;
      }
    ]

-- The destructor's loop: each entry is reclaimed, and then the rest of its list is deleted.
pub drain : ℕ → List (ℕ × ThreadData) → List ℕ
drain epoch [] = []
drain epoch ((key, d) ∷ entries) =
    let (d', to_delete) = reclaim epoch d in
    ptrs to_delete ++ (ptrs d'.retired_list ++ drain epoch entries)

pub destroy : Manager → Manager
unfolding drain
destroy m =
    let m' = bump_epoch_often (bump_epoch_often (bump_epoch_often m)) in
    record m' { registry = []; freed = m'.freed ++ drain m'.global_epoch m'.registry }
