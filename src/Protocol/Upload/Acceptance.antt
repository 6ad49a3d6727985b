-- ===== src/Protocol/Upload/Acceptance.antt =====
-- Exactly which uploads and chunks pass validation.
use holdfast.Base.{Bytes, bytes_eq_iff, length, ok, ℕ, ◌+◌, ◌^◌, ◌≤◌, ◌<◌, ◌≡◌, ◌↔◌, arith}
use holdfast.Protocol.Constants.{upload_chunk_bytes_max, upload_file_bytes_hard_max}
use holdfast.Protocol.Upload.{
  BeginUpload, UploadChunk, validate_begin, validate_chunk, fits_declared,
}

pub record IsValidBegin (begin : BeginUpload) (configured : ℕ) : Type 0 where
  pub name : length begin.original_name ≤ 255
  pub digest : length begin.sha256 ≡ 32
  pub configured_limit : begin.total_bytes ≤ configured
  pub hard_limit : begin.total_bytes ≤ upload_file_bytes_hard_max

pub record IsNextChunk (chunk : UploadChunk) (id : Bytes) (offset maximum total : ℕ) : Type 0 where
  pub same_upload : chunk.upload_id ≡ id
  pub id_length : length chunk.upload_id ≡ 16
  pub not_empty : 0 < length chunk.payload
  pub selected_limit : length chunk.payload ≤ maximum
  pub protocol_limit : length chunk.payload ≤ upload_chunk_bytes_max
  pub in_order : chunk.offset ≡ offset
  pub within : offset + length chunk.payload ≤ total

-- The metadata check accepts exactly the valid declarations; the configuration can only narrow the
-- protocol's own limit.
pub validate_begin_iff :
    (begin : BeginUpload) (configured : ℕ)
    → (validate_begin begin configured ≡ ok tt) ↔ IsValidBegin begin configured
unfolding validate_begin
validate_begin_iff begin configured = (
  λ e. record {
    name = ground arith;
    digest = ground arith;
    configured_limit = ground arith;
    hard_limit = ground arith;
  },
  λ v. ground arith,
)

-- For a declared length in u64, the chunk check accepts exactly the next chunk in order: it has the
-- upload's id, is not empty, respects both chunk limits and stays within the declared length.
pub validate_chunk_iff :
    (chunk : UploadChunk) (id : Bytes) (offset maximum total : ℕ)
    → total < 2 ^ 64
    → (validate_chunk chunk id offset maximum total ≡ ok tt)
      ↔ IsNextChunk chunk id offset maximum total
unfolding validate_chunk fits_declared
validate_chunk_iff chunk id offset maximum total is_u64 = (
  λ e. record {
    same_upload = (bytes_eq_iff chunk.upload_id id).0 (ground arith);
    id_length = ground arith;
    not_empty = ground arith;
    selected_limit = ground arith;
    protocol_limit = ground arith;
    in_order = ground arith;
    within = ground arith;
  },
  λ v. ground (arith, (bytes_eq_iff chunk.upload_id id).1 v.same_upload),
)
