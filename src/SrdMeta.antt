-- ===== src/SrdMeta.antt =====
-- The sealed space of the workload (enclave/workload/Workload.cpp and Workload.h).
pub mod Defs
pub mod Delete
pub mod Counts
pub mod Restore
