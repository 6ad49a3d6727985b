-- ===== src/Protocol/Upload.antt =====
-- crates/protocol/src/upload.rs: validation of the file-upload messages. Lengths and offsets are
-- u64 or usize values of a 64-bit host.
pub mod Acceptance
mod Examples
use holdfast.Base.{
  ltb, ◌==◌, if◌then◌else◌, Bytes, bytes_eq, length, set, Result, ◌>>=◌, ◌>>◌, refuse, ok, err, ℕ,
  ◌+◌, ◌-◌, ◌*◌, ◌/◌, ◌^◌, min, max, not, ◌||◌, Option, none, some,
}
use holdfast.Protocol.Constants.{
  upload_chunk_bytes_max, upload_file_bytes_hard_max, upload_id_bytes,
  upload_original_name_bytes_max, upload_sha256_bytes,
}

-- The generated messages of protocol/messages.proto, with the fields that the uploads use.
pub record BeginUpload : Type 0 where
  pub original_name : Bytes
  pub total_bytes : ℕ
  pub sha256 : Bytes

pub record UploadChunk : Type 0 where
  pub upload_id : Bytes
  pub offset : ℕ
  pub payload : Bytes

pub data UploadValidationError : Type 0 where
  original_name_too_long invalid_digest invalid_upload_id empty_chunk : UploadValidationError
  exceeds_declared_length : UploadValidationError
  file_too_large : ℕ → ℕ → UploadValidationError
  chunk_too_large : ℕ → ℕ → UploadValidationError
  unexpected_offset : ℕ → ℕ → UploadValidationError

pub validate_begin : BeginUpload → ℕ → Result (Unit {0}) UploadValidationError
validate_begin begin configured_max_file_bytes = do
  refuse (ltb upload_original_name_bytes_max (length begin.original_name)) original_name_too_long
  refuse (not (length begin.sha256 == upload_sha256_bytes)) invalid_digest
  let maximum = min configured_max_file_bytes upload_file_bytes_hard_max
  refuse (ltb maximum begin.total_bytes) (file_too_large begin.total_bytes maximum)
  ok tt

-- `u64::checked_add`
abbrev pub checked_add : ℕ → ℕ → Option ℕ
checked_add a b = if ltb (a + b) (2 ^ 64) then some (a + b) else none

unfoldable pub fits_declared : Option ℕ → ℕ → Result (Unit {0}) UploadValidationError
fits_declared none total_bytes = err exceeds_declared_length
fits_declared (some end) total_bytes = refuse (ltb total_bytes end) exceeds_declared_length

unfoldable pub validate_chunk :
    UploadChunk → Bytes → ℕ → ℕ → ℕ → Result (Unit {0}) UploadValidationError
validate_chunk chunk expected_upload_id expected_offset maximum_chunk_bytes total_bytes = do
  refuse
      (not (length chunk.upload_id == upload_id_bytes)
        || not (bytes_eq chunk.upload_id expected_upload_id))
      invalid_upload_id
  refuse (length chunk.payload == 0) empty_chunk
  let maximum = min maximum_chunk_bytes upload_chunk_bytes_max
  refuse (ltb maximum (length chunk.payload)) (chunk_too_large (length chunk.payload) maximum)
  refuse (not (chunk.offset == expected_offset)) (unexpected_offset chunk.offset expected_offset)
  fits_declared (checked_add expected_offset (length chunk.payload)) total_bytes
