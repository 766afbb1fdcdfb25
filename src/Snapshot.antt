-- ===== src/Snapshot.antt =====
-- The snapshot helpers: custom_components/unifi_unas/snapshot_*.py.
pub mod Values
pub mod Schedule
pub mod Days
pub mod Clock
pub mod Write
pub mod Targets
pub mod Inventory
pub mod Buttons
pub mod Items
pub mod Payloads
