-- ===== src/Disks.antt =====
-- The disks of the application and the work for the sealed space on them: app/process/Srd.cpp.
pub mod Defs
pub mod Fair
pub mod Change
pub mod Tasks
pub mod Reserved
pub mod InRange
pub mod Granted
pub mod Blocks
pub mod BlockChoice
