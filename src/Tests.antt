-- ===== src/Tests.antt =====
-- The theorems at concrete data, one module for each part of the program.
pub mod Data
pub mod Messages
pub mod Trees
pub mod Walks
pub mod Merges
pub mod Indexes
pub mod Sessions
pub mod Fetches
