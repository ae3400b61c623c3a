-- ===== src/AppData.antt =====
-- src/app/process/EnclaveData.cpp: what the application keeps of the enclave.
pub mod Maps
pub mod Defs
pub mod Types
