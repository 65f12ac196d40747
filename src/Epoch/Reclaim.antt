-- ===== src/Epoch/Reclaim.antt =====
-- `try_reclaim`: which retired nodes it deletes, and which it keeps.
use mathlib.Core.List.{filter}
use native.Mathlib.Decide.{dec_le}
use cccloud.Prelude.{ℕ, ◌+◌, ◌-◌, ◌≤◌, ◌<◌, ◌≡◌, refl, List, [], ◌∷◌, arith, dec_lt, count}
use cccloud.Epoch.{Retired, ThreadData, ptrs, split_retired, reclaim}

-- The nodes at least two epochs old, and the others, at a global epoch.
abbrev pub old : ℕ → List Retired → List Retired
old epoch = filter (λ node. dec_le (node.epoch + 2) epoch)

abbrev pub recent : ℕ → List Retired → List Retired
recent epoch = filter (λ node. dec_lt epoch (node.epoch + 2))

split_retired-eq :
    (epoch : ℕ) (nodes : List Retired)
    → 2 ≤ epoch
    → split_retired (epoch - 2) nodes ≡ (recent epoch nodes, old epoch nodes)
unfolding split_retired
split_retired-eq epoch [] h = refl
split_retired-eq epoch (node ∷ nodes) h = ground (arith, split_retired-eq epoch nodes h)

none_old : (epoch : ℕ) (nodes : List Retired) → epoch < 2 → old epoch nodes ≡ []
none_old epoch [] h = refl
none_old epoch (node ∷ nodes) h = ground (arith, none_old epoch nodes)

all_recent : (epoch : ℕ) (nodes : List Retired) → epoch < 2 → recent epoch nodes ≡ nodes
all_recent epoch [] h = refl
all_recent epoch (node ∷ nodes) h = ground (arith, all_recent epoch nodes)

-- At every global epoch, also below 2: the nodes retired at least two epochs ago are deleted, in
-- order, the others stay in order, and the thread's other data is unchanged.
pub reclaim_lem :
    (epoch : ℕ) (d : ThreadData)
    → reclaim epoch d
      ≡ (record d { retired_list = recent epoch d.retired_list }, old epoch d.retired_list)
unfolding reclaim
reclaim_lem epoch d = ground (
  arith,
  split_retired-eq epoch d.retired_list,
  none_old epoch d.retired_list,
  all_recent epoch d.retired_list,
)

count-old-recent :
    (p epoch : ℕ) (nodes : List Retired)
    → count p (ptrs (old epoch nodes)) + count p (ptrs (recent epoch nodes)) ≡ count p (ptrs nodes)
count-old-recent p epoch [] = refl
count-old-recent p epoch (node ∷ nodes) = ground (arith, count-old-recent p epoch nodes)

-- Each node is either deleted or kept.
pub count-reclaim :
    (p epoch : ℕ) (d : ThreadData)
    → count p (ptrs (reclaim epoch d).1) + count p (ptrs (reclaim epoch d).0.retired_list)
      ≡ count p (ptrs d.retired_list)
count-reclaim p epoch d = rw (reclaim_lem epoch d) (count-old-recent p epoch d.retired_list)
