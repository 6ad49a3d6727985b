-- ===== src/Protocol/Constants.antt =====
-- The limits of crates/protocol/src/lib.rs.
use holdfast.Base.{ℕ, ◌*◌}

abbrev pub protocol_major : ℕ
protocol_major = 0

abbrev pub protocol_minor : ℕ
protocol_minor = 3

abbrev pub tcp_forward_protocol_minor : ℕ
tcp_forward_protocol_minor = 3

abbrev pub forward_data_bytes_max : ℕ
forward_data_bytes_max = 8 * 1024

abbrev pub file_transfer_protocol_minor : ℕ
file_transfer_protocol_minor = 2

abbrev pub upload_chunk_bytes_max : ℕ
upload_chunk_bytes_max = 64 * 1024

abbrev pub upload_file_bytes_default : ℕ
upload_file_bytes_default = 256 * 1024 * 1024

abbrev pub upload_file_bytes_hard_max : ℕ
upload_file_bytes_hard_max = 4 * 1024 * 1024 * 1024

abbrev pub upload_original_name_bytes_max : ℕ
upload_original_name_bytes_max = 255

abbrev pub upload_id_bytes : ℕ
upload_id_bytes = 16

abbrev pub upload_sha256_bytes : ℕ
upload_sha256_bytes = 32

abbrev pub frame_bytes_ceiling : ℕ
frame_bytes_ceiling = 1024 * 1024

abbrev pub frame_bytes_default : ℕ
frame_bytes_default = 256 * 1024

abbrev pub frame_bytes_floor : ℕ
frame_bytes_floor = 16 * 1024

abbrev pub upload_abort_reason_bytes_max : ℕ
upload_abort_reason_bytes_max = 128
