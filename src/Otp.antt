-- ===== src/Otp.antt =====
-- packages/core/src/email-otp.ts and email-otp-challenges.ts: one-time codes by email.
pub mod Code
pub mod Challenges
pub mod Consume
pub mod Budget
pub mod Single
mod Examples
