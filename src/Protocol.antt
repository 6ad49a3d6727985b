-- ===== src/Protocol.antt =====
-- crates/protocol: framing, negotiation, identifiers and message validation.
pub mod Constants
pub mod Framing
pub mod Ids
pub mod Negotiate
pub mod Upload
