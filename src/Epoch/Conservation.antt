-- ===== src/Epoch/Conservation.antt =====
-- Histories of calls of `EBRManager` that end with its destructor.
use cccloud.Prelude.{◌∙◌, ℕ, ◌≡◌, refl, List, [], ◌∷◌, ◌++◌, arith, count, count-append}
use cccloud.Epoch.{ThreadData, Manager, init, ptrs, reclaim, bump_epoch_often, drain, destroy}
use cccloud.Epoch.Registry.{IsLinked, pending}
use cccloud.Epoch.Reclaim.{count-reclaim}
use cccloud.Epoch.Accounts.{Accounts, Accounts-trans, step-Accounts}
use cccloud.Epoch.History.{Call, step, run, retirements, balance}

-- At every moment of every history each retirement of a pointer is either still pending or has
-- been followed by one deletion.
pub run-Accounts :
    (cs : List Call) (m : Manager) → IsLinked m → Accounts (λ p. retirements p cs) m (run m cs)
unfolding run retirements
run-Accounts [] m ok = record { linked = ok; books = λ p. omega arith }
run-Accounts (c ∷ cs) m ok =
    let first = step-Accounts c m ok in
    Accounts-trans first (run-Accounts cs (step c m) first.linked)

pub init-IsLinked : IsLinked init
unfolding init
init-IsLinked = record { own = λ t k h. cc; entry = λ t k h. cc }

pub init_start : (init.global_epoch ≡ 0) × (init.freed ≡ [])
unfolding init
init_start = (refl, refl)

pub balance-init : (p : ℕ) → balance p init ≡ 0
unfolding balance init pending
balance-init p = refl

count-drain :
    (p epoch : ℕ) (entries : List (ℕ × ThreadData))
    → count p (drain epoch entries) ≡ pending p entries
unfolding drain pending
count-drain p epoch [] = refl
count-drain p epoch ((key, d) ∷ entries) = omega (
  arith,
  count-append p (ptrs (reclaim epoch d).1)
      (ptrs (reclaim epoch d).0.retired_list ++ drain epoch entries),
  count-append p (ptrs (reclaim epoch d).0.retired_list) (drain epoch entries),
  count-reclaim p epoch d,
  count-drain p epoch entries,
)

pub count-destroy : (p : ℕ) (m : Manager) → count p (destroy m).freed ≡ balance p m
unfolding destroy bump_epoch_often balance
count-destroy p m = omega (
  arith,
  count-append p m.freed
      (drain (bump_epoch_often (bump_epoch_often (bump_epoch_often m))).global_epoch m.registry),
  count-drain p (bump_epoch_often (bump_epoch_often (bump_epoch_often m))).global_epoch m.registry,
)

-- After any history from the start, the destructor leaves every pointer deleted exactly as often
-- as it was retired: nothing is leaked, and nothing is deleted twice.
pub destroy_deletes_each_retired :
    (p : ℕ) (cs : List Call) → count p (destroy (run init cs)).freed ≡ retirements p cs
destroy_deletes_each_retired p cs =
    count-destroy p (run init cs)
    ∙ (run-Accounts cs init init-IsLinked).books p
    ∙ omega (arith, balance-init p)
