-- ===== src/Merge.antt =====
-- internal/dbmerge: the bounded batches in which the rows of an uploaded database are merged, and
-- the identities of the rows.
pub mod Batches
pub mod Identity
pub mod Accounts
pub mod Scans
mod Tests
