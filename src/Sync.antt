-- ===== src/Sync.antt =====
-- The sync engine (crates/ferry-sync-engine/src).
pub mod Decide
pub mod Plan
pub mod Gate
pub mod Fold
