-- ===== src/Transfer.antt =====
-- Large data that crosses the border of the enclave in parts: `safe_ocall_store2` of
-- enclave/utils/EUtils.cpp, `safe_ecall_store2` of app/utils/Common.cpp, `ocall_safe_store2` of
-- app/ocalls/OCalls.cpp and `ecall_safe_store2` of enclave/Enclave.cpp; and the storing of a value
-- under a key in enclave/persistence/Persistence.cpp.
pub mod Defs
pub mod Buffers
pub mod Whole
pub mod Persist
pub mod Persisted
