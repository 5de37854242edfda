-- ===== src/Meeting/Feed.antt =====
-- internal/meeting/feed_*.go: the discovery feed.
pub mod Filters
pub mod Cursor
pub mod Rows
pub mod Service
pub mod Order
pub mod Sorted
pub mod Candidates
pub mod Pages
pub mod RoundTrip
pub mod Answers
pub mod Scroll
pub mod Complete
pub mod Visible
pub mod Offered
pub mod Bounds
