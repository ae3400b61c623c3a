-- ===== src/Storage/Seal.antt =====
-- `storage_seal_file` (enclave/storage/Storage.cpp): the sealing of one block of a file.
pub mod Defs
pub mod Balance
