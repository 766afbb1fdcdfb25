-- ===== src/Api/Fan/Laws.antt =====
-- Fan modes: what is remembered, and what a write leaves behind.
pub mod Canonical
pub mod Writes
pub mod Accepted
