-- ===== src/Notify.antt =====
-- packages/core/src/notification-delivery.ts: which channels an event goes to, quiet hours, and the
-- delivery outbox.
pub mod Channels
pub mod Quiet
pub mod Outbox
mod Examples
