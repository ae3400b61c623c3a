-- ===== src/Storage/Block.antt =====
-- The parser of IPFS blocks, `get_hashs_from_block` (enclave/storage/Storage.cpp).
pub mod Defs
pub mod Safe
pub mod RoundTrip
