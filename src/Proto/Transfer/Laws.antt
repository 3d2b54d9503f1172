-- ===== src/Proto/Transfer/Laws.antt =====
-- The transfer messages: what each parser accepts, and that it is what the writer makes.
pub mod Requests
pub mod Batches
