-- ===== src/Session.antt =====
-- crates/session-core: shells, attachments and the account policy.
pub mod Policy
pub mod Types
pub mod Manager
pub mod Attaching
pub mod Operations
pub mod Listing
pub mod Pump
pub mod Invariant
pub mod Steps
pub mod Examples
