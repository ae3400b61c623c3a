-- ===== src/Server.antt =====
-- The server that the application offers, app/http/ApiHandler.h, and the turns of its main process,
-- app/process/Process.cpp.
pub mod Defs
pub mod Agree
pub mod Guarded
pub mod Exporter
pub mod Timeout
pub mod Requests
pub mod Gate
pub mod Url
pub mod UrlRoundTrip
pub mod Seal
