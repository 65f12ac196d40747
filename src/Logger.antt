-- ===== src/Logger.antt =====
-- logger/async_logger.hpp: the log entry and its enumerations.
pub mod Flush
pub mod Roll
pub mod Format
pub mod Stored
pub mod Queued
mod Tests
use cccloud.Prelude.{[], ℕ}
use cccloud.Text.{Text}

pub data Level : Type 0 where
  info warn error : Level

pub data LogType : Type 0 where
  prepare commit abort : LogType

pub data OperationType : Type 0 where
  upload download delete : OperationType

-- `grpc::StatusCode` by its documented numbers; the program uses three of them.
abbrev pub StatusCode : Type 0
StatusCode = ℕ

abbrev pub code_ok : StatusCode
code_ok = 0

abbrev pub code_not_found : StatusCode
code_not_found = 5

abbrev pub code_internal : StatusCode
code_internal = 13

-- Times are counts; durations come from a clock that does not go back.
pub record LogEntry : Type 0 where
  pub timestamp : ℕ
  pub uuid : Text
  pub level : Level
  pub client_ip : Text
  pub server_ip : Text
  pub client_port : ℕ
  pub server_port : ℕ
  pub operation : OperationType
  pub params : Text
  pub log_type : LogType
  pub status_code : StatusCode
  pub error_message : Text
  pub duration_ms : ℕ

-- The default constructor, at the time `now`.
unfoldable pub default_entry : ℕ → LogEntry
default_entry now = record {
  timestamp = now;
  uuid = [];
  level = info;
  client_ip = [];
  server_ip = [];
  client_port = 0;
  server_port = 0;
  operation = upload;
  params = [];
  log_type = prepare;
  status_code = code_ok;
  error_message = [];
  duration_ms = 0;
}
