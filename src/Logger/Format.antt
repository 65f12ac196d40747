-- ===== src/Logger/Format.antt =====
-- logger/async_logger.hpp, `format_log_entry`: the lines of the log. `put_time` and `micros` are the
-- C++ library's: the local date and time of a time stamp as text, and its microseconds.
pub mod Lines
use cccloud.Prelude.{
  zero, suc, suc, ℕ, ◌-◌, ◌%◌, ◌≡◌, Bool, true, false, List, [], ◌∷◌, ◌++◌, length, if◌then◌else◌,
  ◌==◌,
}
use cccloud.Text.{Text, codes}
use cccloud.Text.Numbers.{to_string}
use cccloud.Logger.{
  Level, info, warn, error, LogType, prepare, commit, abort, OperationType, upload, download,
  delete, LogEntry, code_ok,
}

pub loglevel_to_string : Level → Text
loglevel_to_string info = codes "INFO"
loglevel_to_string warn = codes "WARN"
loglevel_to_string error = codes "ERROR"

pub logtype_to_string : LogType → Text
logtype_to_string prepare = codes "PREPARE"
logtype_to_string commit = codes "COMMIT"
logtype_to_string abort = codes "ABORT"

pub operation_to_string : OperationType → Text
operation_to_string upload = codes "UPLOAD"
operation_to_string download = codes "DOWNLOAD"
operation_to_string delete = codes "DELETE"

pub zeros : ℕ → Text
zeros zero = []
zeros (suc n) = b'0' ∷ zeros n

-- `setfill('0')` and `setw(width)`.
pub padded : ℕ → Text → Text
unfolding zeros
padded width s = zeros (width - length s) ++ s

-- `error_message` where there is one.
pub error_part : Text → Text
error_part [] = []
error_part (c ∷ s) = codes " error=" ++ (c ∷ s)

-- What stands at the end of a COMMIT or ABORT line.
pub result_part : LogEntry → Text
unfolding error_part
result_part entry =
    codes " result="
    ++ ((if entry.status_code == code_ok then codes "OK" else codes "FAILED")
        ++ (codes " code="
            ++ (to_string entry.status_code
                ++ (error_part entry.error_message
                    ++ (codes " time=" ++ (to_string entry.duration_ms ++ codes "ms"))))))

pub type_part : LogType → LogEntry → Text
unfolding result_part
type_part prepare entry = codes " params=" ++ entry.params
type_part commit entry = result_part entry
type_part abort entry = result_part entry

-- An address and a port.
pub peer_part : Text → ℕ → Text
peer_part ip port = ip ++ (codes ":" ++ to_string port)

module _ (put_time : ℕ → Text) (micros : ℕ → ℕ) where
  pub time_part : LogEntry → Text
  unfolding padded
  time_part entry =
      codes "["
      ++ (put_time entry.timestamp
          ++ (codes "." ++ (padded 6 (to_string (micros entry.timestamp % 1000000)) ++ codes "]")))

  pub format_entry : LogEntry → Text
  unfolding time_part type_part peer_part loglevel_to_string logtype_to_string operation_to_string
  format_entry entry =
      time_part entry
      ++ (codes " ["
          ++ (entry.uuid
              ++ (codes "] ["
                  ++ (loglevel_to_string entry.level
                      ++ (codes "] ["
                          ++ (logtype_to_string entry.log_type
                              ++ (codes "] ["
                                  ++ (operation_to_string entry.operation
                                      ++ (codes "] client="
                                          ++ (peer_part entry.client_ip entry.client_port
                                              ++ (codes " server="
                                                  ++ (peer_part entry.server_ip entry.server_port
                                                      ++ (type_part entry.log_type entry
                                                          ++ codes "\n")))))))))))))

  unfoldable pub format_log_entry : List LogEntry → Text
  unfolding format_entry
  format_log_entry [] = []
  format_log_entry (entry ∷ entries) = format_entry entry ++ format_log_entry entries
