-- ===== src/Tests.antt =====
-- The theorems at concrete inputs.
mod Fixtures
mod Auth
mod Profile
mod Meeting
mod Codec
mod Feed
mod Geo
mod Import
