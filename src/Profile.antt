-- ===== src/Profile.antt =====
-- internal/profile
pub mod Errors
pub mod Ids
pub mod Validate
pub mod Repository
pub mod Photos
pub mod Service
pub mod PhotoService
pub mod Handler
pub mod Reading
pub mod Onboarding
pub mod Rules
pub mod PhotoLimit
pub mod Completion
