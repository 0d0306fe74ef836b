-- ===== src/Server.antt =====
-- src/server: the HTTP handlers.
pub mod Connection
pub mod Upload
pub mod Url
pub mod Request
pub mod Json
pub mod Targets
pub mod Handle
pub mod Life
pub mod Daemon
pub mod Spec
