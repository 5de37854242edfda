-- ===== src/Geo.antt =====
-- internal/geo: locations and cities.
pub mod Repository
pub mod Haversine
pub mod Service
pub mod Handler
pub mod Effective
pub mod Requests
pub mod Manual
pub mod Chosen
pub mod Search
pub mod Fixes
pub mod Errors
