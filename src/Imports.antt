-- ===== src/Imports.antt =====
-- internal/api/import_jobs.go: the one import job that a daemon has at a time, from the upload of a
-- database file over its inspection to the merge into the live database.
pub mod Job
pub mod Manager
pub mod Finish
pub mod Errors
pub mod Traces
pub mod Tasks
pub mod Ends
pub mod Keeps
pub mod Runs
pub mod Slot
pub mod Transitions
pub mod Orphans
mod Tests
