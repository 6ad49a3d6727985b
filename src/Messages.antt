-- ===== src/Messages.antt =====
-- protocol/messages.proto: the envelope and the messages between a client and the daemon, as far as
-- crates/daemon handles them. A signed or unsigned wire integer is a number.
use holdfast.Base.{Bytes, ℕ, Bool, Option, List}
use Prim.Native.String.{String}
use holdfast.Protocol.Negotiate.{ClientHello, ServerHello}
use holdfast.Protocol.Upload.{BeginUpload, UploadChunk}
use holdfast.Session.Types.{ShellState}

pub data ErrorCode : Type 0 where
  version unauthenticated forbidden not_found frame_too_large unknown_message : ErrorCode
  input_overflow too_slow not_ready token_expired token_replayed limit_exceeded : ErrorCode
  server_unavailable internal invalid_argument checksum_mismatch : ErrorCode

-- `authenticate::Method`
pub data Method : Type 0 where
  connection_grant : Bytes → Method
  ssh_challenge_request : (username public_key : Bytes) → Method
  ssh_challenge_response : (challenge signature : Bytes) → Method
  password_request : (username password : Bytes) → Method

pub record AuthenticationResult : Type 0 where
  pub is_ok : Bool
  pub user_id : Bytes
  pub expires_at_ms : ℕ
  pub error_code : Option ErrorCode
  pub error_message : String
  pub challenge : Bytes

pub record OpenShell : Type 0 where
  pub initial_cols : ℕ
  pub initial_rows : ℕ
  pub command : Bytes
  pub unix_account : Bytes
  pub idempotency_key : Bytes

pub record AttachShell : Type 0 where
  pub resume_token : Bytes
  pub cols : ℕ
  pub rows : ℕ

pub record OpenTcpForward : Type 0 where
  pub host : Bytes
  pub port : ℕ

-- `ServerInfo` of a `ServerList`
pub record ServerInfo : Type 0 where
  pub server_id : Bytes
  pub display_name : Bytes
  pub healthy : Bool

-- `ShellInfo` of a `ShellList`; its title is always empty.
pub record ShellSummary : Type 0 where
  pub server_id : Bytes
  pub shell_id : Bytes
  pub state : ShellState
  pub created_at_ms : ℕ
  pub last_attached_at_ms : ℕ

pub record ShellAttached : Type 0 where
  pub screen_snapshot : Bytes
  pub screen_revision : ℕ
  pub rotated_resume_token : Bytes
  pub oldest_history_line_id : ℕ
  pub newest_history_line_id : ℕ

pub record UploadFinished : Type 0 where
  pub upload_id : Bytes
  pub remote_path : Bytes
  pub bytes_written : ℕ
  pub sha256 : Bytes

-- `envelope::Message`. The payload of a message that the daemon does not read is left out.
pub data Msg : Type 0 where
  client_hello : ClientHello → Msg
  server_hello : ServerHello → Msg
  terminal_input : Bytes → Msg
  terminal_output : Bytes → Msg
  terminal_resize : (cols rows : ℕ) → Msg
  error : (code : ErrorCode) (human_message : String) (retryable : Bool) → Msg
  authenticate : Option Method → Msg
  authentication_result : AuthenticationResult → Msg
  list_servers : Msg
  server_list : List ServerInfo → Msg
  list_shells : Msg
  shell_list : List ShellSummary → Msg
  open_shell : OpenShell → Msg
  shell_opened : (resume_token : Bytes) (expires_at_ms : ℕ) → Msg
  attach_shell : AttachShell → Msg
  shell_attached : ShellAttached → Msg
  detach_shell : Msg
  terminate_shell : Msg
  shell_exited : (exit_code : ℕ) (signaled : Bool) → Msg
  request_history : (before_line_id maximum_lines maximum_bytes : ℕ) → Msg
  history_chunk : (first_line_id : ℕ) (lines : List Bytes) (truncated_by_eviction : Bool) → Msg
  history_end : (oldest_available_line_id : ℕ) → Msg
  screen_snapshot screen_delta ack_screen_revision : Msg
  ping : (nonce : ℕ) → Msg
  pong : (nonce : ℕ) → Msg
  close : Msg
  begin_upload : BeginUpload → Msg
  upload_accepted : (upload_id : Bytes) (maximum_chunk_bytes : ℕ) → Msg
  upload_chunk : UploadChunk → Msg
  finish_upload : (upload_id : Bytes) → Msg
  upload_finished : UploadFinished → Msg
  abort_upload : (upload_id reason : Bytes) → Msg
  open_tcp_forward : OpenTcpForward → Msg
  tcp_forward_opened : (bound_ip : Bytes) (bound_port : ℕ) → Msg
  tcp_forward_data : Bytes → Msg
  tcp_forward_eof tcp_forward_ack : Msg

-- An absent message is an empty envelope.
pub record Envelope : Type 0 where
  pub request_id : ℕ
  pub server_id : Bytes
  pub shell_id : Bytes
  pub message : Option Msg
