-- ===== src/Epoch/Tests.antt =====
-- Small histories of the epoch manager, and its theorems at them.
use cccloud.Prelude.{true, ◌<◌, ◌≡◌, List, [], ◌∷◌, some, arith, lookup, count}
use cccloud.Epoch.{ThreadData, init, destroy, reclaim}
use cccloud.Epoch.Reclaim.{old, recent, reclaim_lem}
use cccloud.Epoch.History.{Call, enters, leaves, retires, bumps, unregisters, run, retirements}
use cccloud.Epoch.Conservation.{init-IsLinked, init_start, destroy_deletes_each_retired}
use cccloud.Epoch.Readers.{overlap, deletes_under_reader}

-- Thread 1 retires 40 and 41, two epochs pass, thread 2 retires 42, thread 1 leaves.
abbrev history : List Call
history =
    enters 1
    ∷ retires 1 (some 40)
    ∷ retires 1 (some 41)
    ∷ bumps
    ∷ bumps
    ∷ enters 2
    ∷ retires 2 (some 42)
    ∷ leaves 1
    ∷ unregisters 2
    ∷ []

abbrev data_1 : ThreadData
data_1 = record {
  local_epoch = 0;
  retired_list = record { ptr = 40; epoch = 0 } ∷ record { ptr = 41; epoch = 3 } ∷ [];
  registered = true;
}

reclaim_lem_example :
    reclaim 4 data_1
    ≡ (record data_1 { retired_list = recent 4 data_1.retired_list }, old 4 data_1.retired_list)
reclaim_lem_example = reclaim_lem 4 data_1

destroy_deletes_each_retired_example :
    count 41 (destroy (run init history)).freed ≡ retirements 41 history
destroy_deletes_each_retired_example = destroy_deletes_each_retired 41 history

deletes_under_reader_example :
    let m' = run init (overlap 1 2 40) in
    (count 40 init.freed < count 40 m'.freed)
    × ((d : ThreadData) × (lookup 1 m'.registry ≡ some d) × (d.local_epoch ≡ init.global_epoch))
deletes_under_reader_example =
    deletes_under_reader 1 2 40 init init-IsLinked (omega arith) (omega (arith, init_start))
