-- ===== src/Identity.antt =====
-- What enclave/identity/Identity.cpp stores of the enclave, reads back, and hands to its successor.
pub mod Metadata
pub mod MetadataRoundTrip
pub mod Upgrade
pub mod Slots
pub mod HandOver
pub mod Accept
pub mod Refuse
