-- ===== src/Workload.antt =====
-- The state of the enclave: class `Workload` (enclave/workload/Workload.h and Workload.cpp).
pub mod Cids
pub mod Defs
pub mod Gates
pub mod Info
pub mod Restore
pub mod Restored
pub mod Recover
pub mod Deleted
