-- ===== src/Tests.antt =====
-- Concrete inputs, and each theorem applied to one of them.
pub mod Inputs
pub mod Client
pub mod Snapshots
pub mod Local
pub mod Coordinator
pub mod Inventory
pub mod Devices
