-- ===== src/Logger/Stored.antt =====
-- From the queue of entries to the files of a day: Logger.Flush, Logger.Format and Logger.Roll
-- together.
use cccloud.Prelude.{
  ℕ, ◌<◌, ◌≤◌, ◌≡◌, refl, sym, ap, ◌∙◌, false, List, [], ◌∷◌, ◌++◌, map, Option, none, some, arith,
  length, length-append,
}
use mathlib.Core.List.{append_assoc}
use cccloud.Text.{Text}
use cccloud.Service.Download.Sends.{concat}
use cccloud.Logger.{LogEntry}
use cccloud.Logger.Flush.{Logger, stop, background_flush}
use cccloud.Logger.Flush.Drains.{entries_of, Drained, drained, stop_writes_all}
use cccloud.Logger.Format.{format_entry, format_log_entry}
use cccloud.Logger.Roll.{Roller, write_batches}
use cccloud.Logger.Roll.Keeps.{AreShort, write_batches-keeps}
use cccloud.Logger.Roll.Day.{good_disk, day_text}

AreShort-mono : (a b : ℕ) (texts : List Text) → a ≤ b → AreShort a texts → AreShort b texts
AreShort-mono a b [] h s = tt
AreShort-mono a b (text ∷ texts) h (l, s) = (omega (arith, h, l), AreShort-mono a b texts h s)

-- A text is not longer than all of them together.
AreShort-concat : (texts : List Text) → AreShort (length (concat texts)) texts
AreShort-concat [] = tt
AreShort-concat (text ∷ texts) = (
  omega (arith, length-append text (concat texts)),
  AreShort-mono (length (concat texts)) (length (text ++ concat texts)) texts
      (omega (arith, length-append text (concat texts))) (AreShort-concat texts),
)

module _ (date : Text) (r : Roller) (new : r.dated date ≡ false)
    (no_files : (j : ℕ) → r.files date j ≡ none) (one : r.current_file_index ≡ 1) where
  -- Whatever the batches are, the files of the date hold them in order.
  batches_in_files :
      (texts : List Text)
      → (r' : Roller) × (write_batches good_disk date texts r ≡ some r')
        × (day_text r'.current_file_index (r'.files date) ≡ concat texts)
  unfolding write_batches day_text
  batches_in_files [] = (r, refl, rw (one, no_files 1) refl)
  batches_in_files (text ∷ texts) =
      let (r', run, day) =
        write_batches-keeps date text texts (length (concat (text ∷ texts))) r new no_files one
          (AreShort-concat (text ∷ texts)) in
      (r', run, day.all)

none_before : (queue : List LogEntry) → entries_of [] ++ queue ≡ queue
unfolding entries_of
none_before queue = refl

module _ (put_time : ℕ → Text) (micros : ℕ → ℕ) where
  format_log_entry-append :
      (es fs : List LogEntry)
      → format_log_entry put_time micros (es ++ fs)
        ≡ format_log_entry put_time micros es ++ format_log_entry put_time micros fs
  unfolding format_log_entry
  format_log_entry-append [] fs = refl
  format_log_entry-append (e ∷ es) fs =
      ap (λ s. format_entry put_time micros e ++ s) (format_log_entry-append es fs)
      ∙ sym (
          append_assoc (format_entry put_time micros e) (format_log_entry put_time micros es)
            (format_log_entry put_time micros fs))

  concat-format :
      (batches : List (List LogEntry))
      → concat (map (format_log_entry put_time micros) batches)
        ≡ format_log_entry put_time micros (entries_of batches)
  unfolding entries_of format_log_entry
  concat-format [] = refl
  concat-format (b ∷ bs) =
      ap (λ s. format_log_entry put_time micros b ++ s) (concat-format bs)
      ∙ sym (format_log_entry-append b (entries_of bs))

  -- A logger that has written nothing yet, whose date has no directory and no files, on a disk that
  -- does not fail, while the date does not change and nobody appends: after `stop` the background
  -- thread ends within one turn more than there are entries, and the files of the date, one after the
  -- other, are the lines of all entries of the queue, in order.
  pub queue_reaches_files :
      (fuel : ℕ) (s : Logger) (date : Text) (r : Roller)
      → s.written ≡ []
      → length s.queue < fuel
      → r.dated date ≡ false
      → ((j : ℕ) → r.files date j ≡ none)
      → r.current_file_index ≡ 1
      → (t : Logger) × (r' : Roller) × (background_flush fuel (stop s) ≡ some t)
        × (write_batches good_disk date (map (format_log_entry put_time micros) t.written) r
            ≡ some r')
        × (day_text r'.current_file_index (r'.files date)
            ≡ format_log_entry put_time micros s.queue)
  queue_reaches_files fuel s date r fresh enough new no_files one =
      finish (background_flush fuel (stop s)) refl (stop_writes_all fuel s enough)
    where
      finish :
          (o : Option Logger)
          → background_flush fuel (stop s) ≡ o
          → Drained s o
          → (t : Logger) × (r' : Roller) × (background_flush fuel (stop s) ≡ some t)
            × (write_batches good_disk date (map (format_log_entry put_time micros) t.written) r
                ≡ some r')
            × (day_text r'.current_file_index (r'.files date)
                ≡ format_log_entry put_time micros s.queue)
      finish _ run (drained t all none_left) =
          let (r', written, held) =
            batches_in_files date r new no_files one
              (map (format_log_entry put_time micros) t.written) in
          (
            t,
            r',
            run,
            written,
            held
                ∙ concat-format t.written
                ∙ ap (format_log_entry put_time micros)
                    (all ∙ ap (λ bs. entries_of bs ++ s.queue) fresh ∙ none_before s.queue),
          )
