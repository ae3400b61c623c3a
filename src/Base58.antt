-- ===== src/Base58.antt =====
-- The text of content ids in base 58: enclave/utils/EUtils.cpp.
pub mod Defs
