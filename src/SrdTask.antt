-- ===== src/SrdTask.antt =====
-- The task of sealing and giving back space: enclave/srd/Srd.cpp.
pub mod Defs
pub mod Bounds
pub mod Removal
pub mod Increase
pub mod Sealed
