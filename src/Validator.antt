-- ===== src/Validator.antt =====
-- enclave/validator/Validator.cpp: entries of sealed space and files are drawn at random and checked
-- against what is on the disk. The threads of a round are taken one after the other, in the order in
-- which they draw from the shared iterator.
pub mod Choice
pub mod Space
pub mod Files
pub mod Outcome
pub mod Lost
