-- ===== src/Queue.antt =====
-- The queue of the calls into the enclave: app/ecalls/EnclaveQueue.cpp.
pub mod Defs
pub mod Threads
pub mod Tally
pub mod Limits
