-- ===== src/Auth.antt =====
-- internal/auth
pub mod External
pub mod Errors
pub mod Email
pub mod Token
pub mod Repository
pub mod Service
pub mod Sessions
pub mod Handler
pub mod Rotation
pub mod Race
pub mod Otp
pub mod Sending
pub mod Login
