-- ===== src/Tests.antt =====
-- Each theorem at a concrete input, and small runs of the definitions.
pub mod Data
pub mod Files
pub mod Storage
pub mod Reports
pub mod Sealing
pub mod Space
pub mod Queues
pub mod Hand
pub mod Validation
pub mod Application
pub mod Blocks
pub mod Transfers
pub mod Disks
pub mod Server
pub mod Schedules
