-- ===== src/Conn.antt =====
-- crates/daemon/src/conn.rs: one client's connection.
pub mod State
pub mod Replies
pub mod Authenticate
pub mod Shells
pub mod Attachments
pub mod Upload
pub mod Forwards
pub mod Dispatch
pub mod Examples
