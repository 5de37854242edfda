-- ===== src/Meeting.antt =====
-- internal/meeting
pub mod Errors
pub mod Repository
pub mod Service
pub mod Candidates
pub mod Handler
pub mod Chats
pub mod OneActive
pub mod Requests
pub mod Rows
pub mod Likes
pub mod Publishing
pub mod Rules
pub mod Acceptance
pub mod Feed
