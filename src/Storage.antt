-- ===== src/Storage.antt =====
-- Sealing and deleting of files: enclave/storage/Storage.cpp.
pub mod Pending
pub mod Defs
pub mod Sorted
pub mod Outcome
pub mod Block
pub mod Seal
