-- ===== src/UploadStore.antt =====
-- crates/upload-store: bounded temporary storage of uploads.
pub mod Names
pub mod Files
pub mod Writer
pub mod Finish
