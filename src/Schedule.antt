-- ===== src/Schedule.antt =====
-- When the application asks the enclave for work reports: app/process/WorkReport.cpp.
pub mod Defs
pub mod Wait
pub mod Heights
pub mod PutOff
