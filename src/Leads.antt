-- ===== src/Leads.antt =====
-- packages/core/src/leads.ts: the leads that a user saves from search results, and their history.
pub mod State
pub mod Schema
pub mod Save
pub mod Update
pub mod Trace
pub mod Read
pub mod Cases
pub mod Replay
pub mod Replayed
pub mod Advance
pub mod Rules
mod Examples
