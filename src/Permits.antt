-- ===== src/Permits.antt =====
-- crates/daemon: the permits that bound concurrent work per user and over all.
pub mod Upload
