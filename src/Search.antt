-- ===== src/Search.antt =====
-- packages/core/src/commands.ts, jobs.ts and database.ts: search runs and the command pipeline.
pub mod State
pub mod Lease
pub mod Settle
pub mod Cancel
pub mod Collection
pub mod Create
pub mod Trace
pub mod Commits
pub mod Fences
pub mod Ownership
pub mod Exclusion
pub mod Runs
pub mod Idempotency
mod Examples
