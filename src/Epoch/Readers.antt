-- ===== src/Epoch/Readers.antt =====
-- A reader inside its critical section, and a writer that retires a node and leaves.
use cccloud.Prelude.{
  sym, ap, ◌^◌, count-append, count, ◌++◌, ◌+◌, ◌≤◌, ◌<◌, subst, ◌∙◌, ℕ, ◌<◌, ◌≡◌, ◌≢◌, refl, List,
  [], ◌∷◌, some, arith, lookup, insert, lookup-insert,
}
use cccloud.Epoch.{
  ptrs, bump_epoch, Retired, ThreadData, Manager, try_reclaim, store_local, push_retired, enter,
  leave, retire, inactive, register_thread_if_needed,
}
use cccloud.Epoch.Safety.{enter-Keeps, retire-Keeps}
use cccloud.Epoch.Accounts.{IsLinked-insert}
use cccloud.Epoch.Reclaim.{old, recent, reclaim_lem}
use cccloud.Epoch.History.{Call, enters, leaves, retires, bumps, step, run}
use cccloud.Epoch.Registry.{IsLinked, Registers, register-Registers, entry_or_fresh}

-- What a call of thread `t` leaves: its entry is `d`, and no other entry has changed.
pub record Leaves (t : ℕ) (d : ThreadData) (m m' : Manager) : Type 0 where
  pub linked : IsLinked m'
  pub points : m'.current t ≡ some t
  pub mine : lookup t m'.registry ≡ some d
  pub others : (j : ℕ) → t ≢ j → lookup j m'.registry ≡ lookup j m.registry
  pub epoch : m'.global_epoch ≡ m.global_epoch

Registers-Leaves :
    {t : ℕ} {m m' : Manager}
    → Registers t m m'
    → Leaves t (entry_or_fresh (lookup t m.registry)) m m'
Registers-Leaves r = record {
  linked = r.linked;
  points = r.points;
  mine = r.mine;
  others = r.others;
  epoch = r.epoch;
}

-- Giving the thread's entry another value.
Leaves-insert :
    (t : ℕ) {d : ThreadData} (d' : ThreadData) (f : List ℕ) {m m' : Manager}
    → Leaves t d m m'
    → Leaves t d' m (record m' { registry = insert t d' m'.registry; freed = f })
Leaves-insert t {d} d' f {m} {m'} l = record {
  linked = IsLinked-insert t d' f m' l.linked;
  points = l.points;
  mine = ground (arith, lookup-insert t t d' m'.registry);
  others = λ j h. ground (arith, l.others j h, lookup-insert t j d' m'.registry);
  epoch = l.epoch;
}

store_local-Leaves :
    (t e : ℕ) {d : ThreadData} {m m' : Manager}
    → Leaves t d m m'
    → Leaves t (record d { local_epoch = e }) m (store_local t e m')
unfolding store_local
store_local-Leaves t e {m'} l = rw (l.mine, store_local) (Leaves-insert t _ m'.freed l)

push_retired-Leaves :
    (t : ℕ) (node : Retired) {d : ThreadData} {m m' : Manager}
    → Leaves t d m m'
    → Leaves t
        (record d { retired_list = d.retired_list ++ (node ∷ []) })
        m
        (push_retired t node m')
unfolding push_retired
push_retired-Leaves t node {m'} l = rw (l.mine, push_retired) (Leaves-insert t _ m'.freed l)

-- From a linked registry: after `enter` the thread is registered and its local epoch is the
-- global one; its retired nodes and all other threads are as before.
pub enter-Leaves :
    (t : ℕ) (m : Manager)
    → IsLinked m
    → Leaves t
        (record (entry_or_fresh (lookup t m.registry)) { local_epoch = m.global_epoch })
        m
        (enter t m)
unfolding enter
enter-Leaves t m ok =
    rw (r.points, enter)
      (subst
        (λ e.
          Leaves t (record (entry_or_fresh (lookup t m.registry)) { local_epoch = e }) m
            (store_local t m'.global_epoch m'))
        r.epoch (store_local-Leaves t m'.global_epoch (Registers-Leaves r)))
  where
    m' : Manager
    m' = register_thread_if_needed t m

    r : Registers t m m'
    r = register-Registers t m ok

retire-Leaves :
    (t p : ℕ) (m : Manager)
    → IsLinked m
    → let d = entry_or_fresh (lookup t m.registry) in
      Leaves t
        (record d {
          retired_list = d.retired_list ++ (record { ptr = p; epoch = m.global_epoch } ∷ []);
        })
        m
        (retire t (some p) m)
unfolding retire
retire-Leaves t p m ok =
    rw (r.points, retire)
      (subst
        (λ e.
          let d = entry_or_fresh (lookup t m.registry) in
          Leaves t
            (record d { retired_list = d.retired_list ++ (record { ptr = p; epoch = e } ∷ []) }) m
            (push_retired t (record { ptr = p; epoch = m'.global_epoch }) m'))
        r.epoch (push_retired-Leaves t _ (Registers-Leaves r)))
  where
    m' : Manager
    m' = register_thread_if_needed t m

    r : Registers t m m'
    r = register-Registers t m ok

store_local-eq :
    (t e : ℕ) (d : ThreadData) (m : Manager)
    → lookup t m.registry ≡ some d
    → store_local t e m ≡ record m { registry = insert t (record d { local_epoch = e }) m.registry }
unfolding store_local
store_local-eq t e d m f = rw (f, store_local)

try_reclaim-eq :
    (t : ℕ) (d : ThreadData) (m : Manager)
    → lookup t m.registry ≡ some d
    → try_reclaim t m ≡ record m {
      registry =
          insert t (record d { retired_list = recent m.global_epoch d.retired_list }) m.registry;
      freed = m.freed ++ ptrs (old m.global_epoch d.retired_list);
    }
unfolding try_reclaim
try_reclaim-eq t d m f = rw (f, try_reclaim, reclaim_lem m.global_epoch d)

-- A thread that leaves deletes its nodes that are two epochs old, and touches no other entry.
leave_deletes :
    (t : ℕ) (d : ThreadData) (m : Manager)
    → m.current t ≡ some t
    → lookup t m.registry ≡ some d
    → ((leave t m).freed ≡ m.freed ++ ptrs (old m.global_epoch d.retired_list))
      × ((j : ℕ) → t ≢ j → lookup j (leave t m).registry ≡ lookup j m.registry)
unfolding leave
leave_deletes t d m e f =
    rw
      (
        e,
        leave,
        store_local-eq t inactive d m f,
        try_reclaim-eq t quiet (record m { registry = mid }) found,
      )
      (
        refl,
        λ j h. ground (arith, lookup-insert t j cleared mid, lookup-insert t j quiet m.registry),
      )
  where
    quiet : ThreadData
    quiet = record d { local_epoch = inactive }

    cleared : ThreadData
    cleared = record quiet { retired_list = recent m.global_epoch d.retired_list }

    mid : List (ℕ × ThreadData)
    mid = insert t quiet m.registry

    found : lookup t mid ≡ some quiet
    found = ground (arith, lookup-insert t t quiet m.registry)

-- A node at the end of the list that is old enough is deleted.
count-old-last :
    (epoch : ℕ) (nodes : List Retired) (node : Retired)
    → node.epoch + 2 ≤ epoch
    → 0 < count node.ptr (ptrs (old epoch (nodes ++ (node ∷ []))))
count-old-last epoch [] node h = ground arith
count-old-last epoch (x ∷ xs) node h = ground (arith, count-old-last epoch xs node h)

-- Thread `r` enters, thread `w` enters, retires `p` and, two epochs later, leaves.
unfoldable pub overlap : ℕ → ℕ → ℕ → List Call
overlap r w p = enters r ∷ enters w ∷ retires w (some p) ∷ bumps ∷ bumps ∷ leaves w ∷ []

-- For two threads, a linked registry and an epoch that does not wrap: `r` enters, `w` enters and
-- retires `p`, the epoch moves twice, and `w` leaves. Then `p` is deleted, although `r` has not left
-- and still shows the epoch of its entry.
pub deletes_under_reader :
    (r w p : ℕ) (m : Manager)
    → IsLinked m
    → r ≢ w
    → m.global_epoch + 2 < 2 ^ 64
    → let m' = run m (overlap r w p) in
      (count p m.freed < count p m'.freed)
      × ((d : ThreadData) × (lookup r m'.registry ≡ some d) × (d.local_epoch ≡ m.global_epoch))
unfolding run step overlap bump_epoch
deletes_under_reader r w p m ok ne small = (
  rw freed
      (omega (arith, count-append p m.freed (ptrs (old m₄.global_epoch d₃.retired_list)), hit)),
  (
    record (entry_or_fresh (lookup r m.registry)) { local_epoch = m.global_epoch },
    others r (λ e. ne (sym e))
        ∙ (retired.others r (λ e. ne (sym e))
            ∙ (entered.others r (λ e. ne (sym e)) ∙ reading.mine)),
    refl,
  ),
)
  where
    m₁ : Manager
    m₁ = enter r m

    m₂ : Manager
    m₂ = enter w m₁

    m₃ : Manager
    m₃ = retire w (some p) m₂

    m₄ : Manager
    m₄ = bump_epoch (bump_epoch m₃)

    reading :
        Leaves r
          (record (entry_or_fresh (lookup r m.registry)) { local_epoch = m.global_epoch })
          m
          m₁
    reading = enter-Leaves r m ok

    entered :
        Leaves w
          (record (entry_or_fresh (lookup w m₁.registry)) { local_epoch = m₁.global_epoch })
          m₁
          m₂
    entered = enter-Leaves w m₁ reading.linked

    d₂ : ThreadData
    d₂ = entry_or_fresh (lookup w m₂.registry)

    d₃ : ThreadData
    d₃ = record d₂ {
      retired_list = d₂.retired_list ++ (record { ptr = p; epoch = m₂.global_epoch } ∷ []);
    }

    retired : Leaves w d₃ m₂ m₃
    retired = retire-Leaves w p m₂ entered.linked

    hit : 0 < count p (ptrs (old m₄.global_epoch d₃.retired_list))
    hit =
        count-old-last m₄.global_epoch d₂.retired_list (record { ptr = p; epoch = m₂.global_epoch })
          (omega (arith, reading.epoch, entered.epoch, retired.epoch))

    others : (j : ℕ) → w ≢ j → lookup j (leave w m₄).registry ≡ lookup j m₃.registry
    others = (leave_deletes w d₃ m₄ retired.points retired.mine).1

    freed : (leave w m₄).freed ≡ m.freed ++ ptrs (old m₄.global_epoch d₃.retired_list)
    freed =
        (leave_deletes w d₃ m₄ retired.points retired.mine).0
        ∙ ap (λ f. f ++ ptrs (old m₄.global_epoch d₃.retired_list))
            ((retire-Keeps w (some p) m₂ entered.linked).freed
              ∙ ((enter-Keeps w m₁ reading.linked).freed ∙ (enter-Keeps r m ok).freed))
