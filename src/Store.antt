-- ===== src/Store.antt =====
-- The store crate (crates/ferry-store/src).
pub mod Format
pub mod Reader
pub mod Manifest
pub mod Index
pub mod Locations
pub mod Diff
