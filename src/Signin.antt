-- ===== src/Signin.antt =====
-- backend/src/signin: signing in, and the sessions that it issues.
pub mod Tickets
pub mod Sessions
pub mod Totp
pub mod Audit
pub mod Recovery
mod Tests
pub mod Passkeys
pub mod Password
pub mod Token
