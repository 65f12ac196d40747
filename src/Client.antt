-- ===== src/Client.antt =====
-- client/: the clients of the file service.
pub mod Simple
pub mod Command
pub mod Bench
pub mod Tasks
mod Tests
