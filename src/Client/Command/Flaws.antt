-- ===== src/Client/Command/Flaws.antt =====
-- Command lines that make no call.
use cccloud.Prelude.{◌≡◌, ◌≢◌, refl, List, [], ◌∷◌, arith}
use cccloud.Text.{Text, codes}
use cccloud.Client.Command.{usage, delete, action}

never_deletes : (args : List Text) (remote : Text) → action args ≢ delete remote
unfolding action
never_deletes args remote e = ground arith

-- No command line deletes a file: the one that the usage text gives has too few arguments for the
-- first test, and is answered with that text.
pub no_command_deletes :
    ((args : List Text) (remote : Text) → action args ≢ delete remote)
    × ((remote : Text) → action (codes "delete" ∷ remote ∷ []) ≡ usage)
unfolding action
no_command_deletes = (never_deletes, λ remote. refl)
