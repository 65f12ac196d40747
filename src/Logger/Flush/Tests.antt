-- ===== src/Logger/Flush/Tests.antt =====
-- A logger with two entries.
use cccloud.Prelude.{◌≡◌, refl, ◌∷◌, []}
use cccloud.Logger.{default_entry}
use cccloud.Logger.Flush.{Logger, start, append}

abbrev two_entries : Logger
two_entries = append (default_entry 2) (append (default_entry 1) start)

two_entries_queued : two_entries.queue ≡ default_entry 1 ∷ default_entry 2 ∷ []
unfolding append start
two_entries_queued = refl
