-- ===== src/Access.antt =====
-- logger/AccessLogger.hpp: the entries that the server's calls log. The clock and the peer name of
-- the gRPC context are arguments.
pub mod Peer
pub mod Entries
mod Tests
use cccloud.Prelude.{
  ℕ, ◌+◌, ◌-◌, ◌*◌, ◌^◌, ◌%◌, Bool, true, false, ◌&&◌, ◌||◌, [], ◌∷◌, none, some, if◌then◌else◌,
  ◌==◌, leb, ltb,
}
use cccloud.Text.{Text, codes, find, rfind, substr, drop}
use cccloud.Text.Numbers.{Parsed, value, invalid_argument, out_of_range, stoi}
use cccloud.Logger.{
  LogEntry, default_entry, info, error, prepare, commit, OperationType, StatusCode, code_ok,
}

-- The `int` stored to a `uint32_t`.
pub to_u32 : Bool → ℕ → ℕ
to_u32 true n = (2 ^ 32 - n) % 2 ^ 32
to_u32 false n = n % 2 ^ 32

-- The port, or the default that was there where `stoi` throws.
store_port : Parsed → LogEntry → LogEntry
unfolding to_u32
store_port (value negative n rest) log = record log { client_port = to_u32 negative n }
store_port invalid_argument log = log
store_port out_of_range log = log

store_peer : Text → ℕ → ℕ → LogEntry → LogEntry
unfolding store_port
store_peer peer first last log =
    if ltb first last
    then store_port (stoi (drop (last + 1) peer))
        (record log { client_ip = substr (first + 1) (last - (first + 1)) peer })
    else log

split_peer : Text → LogEntry → LogEntry
unfolding store_peer
split_peer peer log = elim (find b':' peer) [
  | none ↦ log
  | some first ↦ elim (rfind b':' peer) [ none ↦ log | some last ↦ store_peer peer first last log ]
]

-- A peer such as `ipv4:192.168.1.5:5000`.
pub parse_context_info : Text → LogEntry → LogEntry
unfolding split_peer
parse_context_info peer log =
    let log' = split_peer peer (record log { client_ip = codes "0.0.0.0"; client_port = 0 }) in
    record log' { server_ip = codes "0.0.0.0"; server_port = 9527 }

pub log_prepare : ℕ → Text → Text → OperationType → Text → LogEntry
log_prepare now uuid peer op params =
    let log = record (default_entry now) {
      uuid = uuid;
      log_type = prepare;
      level = info;
      operation = op;
    } in
    record (parse_context_info peer log) { params = params; status_code = code_ok }

pub log_commit : ℕ → Text → Text → OperationType → Text → StatusCode → ℕ → Text → LogEntry
log_commit now uuid peer op params code duration_ms error_msg =
    let log = record (default_entry now) {
      uuid = uuid;
      log_type = commit;
      level = if code == code_ok then info else error;
      operation = op;
    } in
    record (parse_context_info peer log) {
      params = params;
      status_code = code;
      duration_ms = duration_ms;
      error_message = error_msg;
    }

pub log_abort : ℕ → Text → Text → OperationType → StatusCode → Text → ℕ → LogEntry
unfolding log_commit
log_abort now uuid peer op code reason duration_ms =
    log_commit now uuid peer op [] code duration_ms reason
