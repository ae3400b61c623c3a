-- ===== src/Files.antt =====
-- The vector of sealed files of the workload (enclave/workload/Workload.cpp).
pub mod Defs
pub mod Search
pub mod Order
pub mod Place
