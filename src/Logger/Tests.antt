-- ===== src/Logger/Tests.antt =====
-- Small log files and lines, and their theorems at them.
use cccloud.Prelude.{true, map, ℕ, ◌+◌, ◌≡◌, ◌≢◌, refl, arith, false, [], ◌∷◌, none, some, length}
use cccloud.Text.{codes}
use cccloud.Logger.{LogEntry, default_entry}
use cccloud.Service.Download.Sends.{concat}
use cccloud.Logger.Flush.{Logger, stop, background_flush}
use cccloud.Logger.Stored.{queue_reaches_files}
use cccloud.Logger.Roll.{Roller, write_batches}
use cccloud.Logger.Roll.Keeps.{write_batches-keeps}
use cccloud.Logger.Roll.Day.{day_text, good_disk, Day}
use cccloud.Logger.Roll.Flaws.{new_date_keeps_number}
use cccloud.Logger.Format.{format_log_entry}
use cccloud.Logger.Format.Lines.{newlines, total_breaks, newlines-format_log_entry}

-- An empty directory of logs.
abbrev at_index : ℕ → Roller
at_index i = record { dated = λ d. false; files = λ d j. none; current_file_index = i }

write_batches-keeps_example :
    (r : Roller) × (write_batches good_disk
        (codes "2025-06-01")
        (codes "x" ∷ codes "yz" ∷ [])
        (at_index 1)
      ≡ some r)
    × Day (codes "2025-06-01") 2 r (concat (codes "x" ∷ codes "yz" ∷ []))
write_batches-keeps_example =
    write_batches-keeps (codes "2025-06-01") (codes "x") (codes "yz" ∷ []) 2 (at_index 1) refl
      (λ j. refl) refl (omega arith, (omega arith, tt))

new_date_keeps_number_example :
    (r : Roller) × (write_batches good_disk
        (codes "2025-06-02")
        (codes "x" ∷ codes "yz" ∷ [])
        (at_index 4)
      ≡ some r)
    × (r.current_file_index ≡ 4)
    × (r.files (codes "2025-06-02") 1 ≡ some (codes "x"))
    × (r.files (codes "2025-06-02") 4 ≡ some (codes "yz"))
    × ((j : ℕ) → j ≢ 1 → j ≢ 4 → r.files (codes "2025-06-02") j ≡ none)
new_date_keeps_number_example =
    new_date_keeps_number (codes "2025-06-02") (codes "x") (codes "yz") (at_index 4) refl
      (λ j. refl) (omega arith)

-- An entry whose params have a line break.
abbrev forged : LogEntry
forged = record (default_entry 7) { params = codes "filename=a\n[2025-06-01]" }

newlines-format_log_entry_example :
    newlines (format_log_entry (λ t. codes "2025-06-01_10:00:00") (λ t. t) (forged ∷ []))
    ≡ length (forged ∷ []) + total_breaks (forged ∷ [])
newlines-format_log_entry_example =
    newlines-format_log_entry (λ t. codes "2025-06-01_10:00:00") (λ t. t) (λ t. refl) (forged ∷ [])

-- A logger that holds one entry.
abbrev holding : Logger
holding = record {
  queue = forged ∷ [];
  running = true;
  unflushed_count = 1;
  notified = 0;
  written = [];
}

queue_reaches_files_example :
    (t : Logger) × (r : Roller) × (background_flush 2 (stop holding) ≡ some t)
    × (write_batches good_disk
          (codes "2025-06-01")
          (map (format_log_entry (λ t. codes "2025-06-01_10:00:00") (λ t. t)) t.written)
          (at_index 1)
        ≡ some r)
    × (day_text r.current_file_index (r.files (codes "2025-06-01"))
        ≡ format_log_entry (λ t. codes "2025-06-01_10:00:00") (λ t. t) (forged ∷ []))
queue_reaches_files_example =
    queue_reaches_files (λ t. codes "2025-06-01_10:00:00") (λ t. t) 2 holding (codes "2025-06-01")
      (at_index 1) refl (omega arith) refl (λ j. refl) refl
