-- ===== src/Logger/Format/Lines.antt =====
-- The number of lines that a batch of entries becomes.
use cccloud.Prelude.{
  Bool-cases, inl, inr, ℕ, zero, suc, ◌+◌, ◌≡◌, refl, List, [], ◌∷◌, ◌++◌, arith, length,
  if◌then◌else◌, ◌==◌,
}
use cccloud.Text.{Text}
use cccloud.Text.Numbers.{to_string}
use cccloud.Text.Numbers.Digits.{AreDigits, AreDigits-to_string}
use cccloud.Logger.{
  Level, info, warn, error, LogType, prepare, commit, abort, OperationType, upload, download,
  delete, LogEntry, code_ok,
}
use cccloud.Logger.Format.{
  loglevel_to_string, logtype_to_string, operation_to_string, zeros, error_part, result_part,
  type_part, format_entry, format_log_entry,
}

-- The line breaks in a text.
abbrev pub newlines : Text → ℕ
newlines [] = 0
newlines (c ∷ s) = if c == 10 then suc (newlines s) else newlines s

newlines-append : (s t : Text) → newlines (s ++ t) ≡ newlines s + newlines t
newlines-append [] t = omega arith
newlines-append (c ∷ s) t = ground (arith, newlines-append s t)

newlines-digits : (s : Text) → AreDigits s → newlines s ≡ 0
newlines-digits [] d = refl
newlines-digits (c ∷ s) d = ground (arith, d.0, newlines-digits s d.2)

newlines-to_string : (n : ℕ) → newlines (to_string n) ≡ 0
newlines-to_string n = newlines-digits (to_string n) (AreDigits-to_string n)

newlines-zeros : (n : ℕ) → newlines (zeros n) ≡ 0
unfolding zeros
newlines-zeros zero = refl
newlines-zeros (suc n) = newlines-zeros n

newlines-error_part : (s : Text) → newlines (error_part s) ≡ newlines s
unfolding error_part
newlines-error_part [] = refl
newlines-error_part (c ∷ s) = refl

newlines-result_part : (e : LogEntry) → newlines (result_part e) ≡ newlines e.error_message
unfolding result_part
newlines-result_part e = elim (Bool-cases (e.status_code == code_ok)) [
  | inl ok ↦ rw ok (simp (newlines-append, newlines-to_string, newlines-error_part) (omega arith))
  | inr failed ↦
      rw failed (simp (newlines-append, newlines-to_string, newlines-error_part) (omega arith))
]

-- The line breaks in the fields that a line shows.
pub inner_breaks : LogType → LogEntry → ℕ
inner_breaks prepare e = newlines e.params
inner_breaks commit e = newlines e.error_message
inner_breaks abort e = newlines e.error_message

newlines-type_part : (t : LogType) (e : LogEntry) → newlines (type_part t e) ≡ inner_breaks t e
unfolding type_part inner_breaks
newlines-type_part prepare e = refl
newlines-type_part commit e = newlines-result_part e
newlines-type_part abort e = newlines-result_part e

newlines-level : (l : Level) → newlines (loglevel_to_string l) ≡ 0
unfolding loglevel_to_string
newlines-level info = refl
newlines-level warn = refl
newlines-level error = refl

newlines-log_type : (t : LogType) → newlines (logtype_to_string t) ≡ 0
unfolding logtype_to_string
newlines-log_type prepare = refl
newlines-log_type commit = refl
newlines-log_type abort = refl

newlines-operation : (o : OperationType) → newlines (operation_to_string o) ≡ 0
unfolding operation_to_string
newlines-operation upload = refl
newlines-operation download = refl
newlines-operation delete = refl

-- All that come from the fields of an entry.
pub entry_breaks : LogEntry → ℕ
unfolding inner_breaks
entry_breaks e =
    newlines e.uuid + newlines e.client_ip + newlines e.server_ip + inner_breaks e.log_type e

pub total_breaks : List LogEntry → ℕ
unfolding entry_breaks
total_breaks [] = 0
total_breaks (e ∷ es) = entry_breaks e + total_breaks es

module _ (put_time : ℕ → Text) (micros : ℕ → ℕ)
    (one_line : (t : ℕ) → newlines (put_time t) ≡ 0) where
  newlines-format_entry :
      (e : LogEntry) → newlines (format_entry put_time micros e) ≡ suc (entry_breaks e)
  unfolding format_entry entry_breaks
  newlines-format_entry e =
      simp
        (
          newlines-append, newlines-zeros, newlines-to_string, one_line, newlines-level,
          newlines-log_type, newlines-operation, newlines-type_part,
        )
        (omega arith)

  -- If the text of a time has no line break, then a batch becomes one line for each entry, and one more
  -- for each line break in an entry's uuid, addresses, and params or error message, of which a line
  -- shows one: nothing is escaped.
  pub newlines-format_log_entry :
      (entries : List LogEntry)
      → newlines (format_log_entry put_time micros entries) ≡ length entries + total_breaks entries
  unfolding format_log_entry total_breaks
  newlines-format_log_entry [] = refl
  newlines-format_log_entry (e ∷ entries) = omega (
    arith,
    newlines-append (format_entry put_time micros e) (format_log_entry put_time micros entries),
    newlines-format_entry e,
    newlines-format_log_entry entries,
  )
