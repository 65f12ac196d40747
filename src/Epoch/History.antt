-- ===== src/Epoch/History.antt =====
-- Histories of calls of `EBRManager`, and the books of retired and deleted pointers.
use cccloud.Prelude.{ℕ, ◌+◌, List, [], ◌∷◌, Option, some, if◌then◌else◌, ◌==◌, count}
use cccloud.Epoch.{Manager, enter, leave, retire, bump_epoch, unregister_thread}
use cccloud.Epoch.Registry.{pending}

pub data Call : Type 0 where
  enters : ℕ → Call
  leaves : ℕ → Call
  retires : ℕ → Option ℕ → Call
  bumps : Call
  unregisters : ℕ → Call

unfoldable pub step : Call → Manager → Manager
step (enters t) m = enter t m
step (leaves t) m = leave t m
step (retires t p) m = retire t p m
step bumps m = bump_epoch m
step (unregisters t) m = unregister_thread t m

unfoldable pub run : Manager → List Call → Manager
run m [] = m
run m (c ∷ cs) = run (step c m) cs

-- How often a call, or a history, retires `p`.
unfoldable pub retires_once : ℕ → Call → ℕ
retires_once p (retires t (some q)) = if q == p then 1 else 0
retires_once p _ = 0

unfoldable pub retirements : ℕ → List Call → ℕ
retirements p [] = 0
retirements p (c ∷ cs) = retires_once p c + retirements p cs

-- The deletions of `p`, and its entries that still wait for theirs.
unfoldable pub balance : ℕ → Manager → ℕ
balance p m = count p m.freed + pending p m.registry
