-- ===== src/Report.antt =====
-- Work reports: enclave/report/Report.cpp, and `Workload::handle_report_result`.
pub mod Defs
pub mod Sizes
pub mod Limits
pub mod Generate
pub mod Once
