-- ===== src/Protocol/Upload/Examples.antt =====
-- A two-byte chunk at offset 3 of a five-byte upload.
use holdfast.Base.{Bytes, replicate, ok, ◌≡◌, ◌↔◌, [], ◌∷◌, arith}
use holdfast.Protocol.Upload.{UploadChunk, validate_chunk, BeginUpload, validate_begin}
use holdfast.Protocol.Upload.Acceptance.{
  IsNextChunk, validate_chunk_iff, IsValidBegin, validate_begin_iff,
}

abbrev id : Bytes
id = replicate 16 0x55

abbrev last_chunk : UploadChunk
last_chunk = record { upload_id = id; offset = 3; payload = 1 ∷ 2 ∷ [] }

validate_chunk_iff_example :
    (validate_chunk last_chunk id 3 4 5 ≡ ok tt) ↔ IsNextChunk last_chunk id 3 4 5
validate_chunk_iff_example = validate_chunk_iff last_chunk id 3 4 5 (omega arith)

abbrev archive : BeginUpload
archive = record { original_name = b'a' ∷ []; total_bytes = 12; sha256 = replicate 32 0x42 }

validate_begin_iff_example : (validate_begin archive 20 ≡ ok tt) ↔ IsValidBegin archive 20
validate_begin_iff_example = validate_begin_iff archive 20
