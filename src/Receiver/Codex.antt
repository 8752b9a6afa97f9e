-- ===== src/Receiver/Codex.antt =====
-- internal/receiver/codex_parser.go: the log records of the Codex CLI.
pub mod Tracker
pub mod Rows
pub mod Records
pub mod Dispatch
mod Tests
