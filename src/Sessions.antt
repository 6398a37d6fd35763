-- ===== src/Sessions.antt =====
-- packages/core/src/auth.ts: sign-in, sessions and their access and refresh tokens.
pub mod State
pub mod Issue
pub mod Login
pub mod Accounts
pub mod Rotation
pub mod Revocation
pub mod Trace
pub mod Kept
pub mod KeptSignIn
pub mod KeptCalls
pub mod Single
pub mod Ended
pub mod Revoked
pub mod Live
pub mod Others
mod Examples
