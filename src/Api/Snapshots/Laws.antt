-- ===== src/Api/Snapshots/Laws.antt =====
-- The laws of the snapshot operations, by what they are about.
pub mod Flags
pub mod Supported
pub mod Limits
pub mod Deletes
pub mod Accepted
