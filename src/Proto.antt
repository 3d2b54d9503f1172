-- ===== src/Proto.antt =====
-- The wire protocol (crates/ferry-proto/src).
pub mod Error
pub mod Version
pub mod Frame
pub mod Wire
pub mod Handshake
pub mod Transfer
pub mod Session
pub mod Engine
pub mod Advert
