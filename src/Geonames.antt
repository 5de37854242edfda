-- ===== src/Geonames.antt =====
-- cmd/geonames-import: the import of cities.
pub mod Parse
pub mod Names
pub mod Import
pub mod Best
pub mod Loaded
pub mod Kept
