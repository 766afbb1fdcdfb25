-- ===== src/Api.antt =====
-- The API client: custom_components/unifi_unas/api*.py.
pub mod Session
pub mod Transport
pub mod Auth
pub mod Backup
pub mod System
pub mod Fan
pub mod Storage
pub mod Limits
pub mod Snapshots
