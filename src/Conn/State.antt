-- ===== src/Conn/State.antt =====
-- crates/daemon/src/conn.rs: the state of a connection, of the daemon behind it, and what a handler draws
-- from outside. A handler is one step on this state: other connections take their steps between handlers,
-- and during a shell's termination as its `meanwhile`.
use holdfast.Base.{Bytes, bytes_eq, any, Result, ℕ, Bool, true, false, Option, none, some, List, []}
use Prim.Native.String.{String}
use holdfast.Base.Map.{Map}
use holdfast.Protocol.Negotiate.{Negotiated, NegotiationError}
use holdfast.Protocol.Constants.{frame_bytes_default}
use holdfast.Protocol.Upload.{UploadChunk}
use holdfast.UploadStore.Writer.{StoreError}
use holdfast.Protocol.Upload.{UploadValidationError}
use holdfast.Permits.Upload.{Counts}
use holdfast.Grant.{Scheme}
use holdfast.RateLimiter.{RateLimiter}
use holdfast.Session.Types.{ShellId, Token, SessionError, TerminalModel, Runtime, ShellManager}
use holdfast.Session.Manager.{Start}
use holdfast.Messages.{Envelope}
use holdfast.Observability.{AuditEvent}
use holdfast.Authenticators.{AuthState}
use holdfast.Forwarding.{ForwardService}
use holdfast.Forwarding.Binding.{ForwardBinding}

abbrev pub keepalive_interval_ms : ℕ
keepalive_interval_ms = 15000

abbrev pub max_uploads_per_connection : ℕ
max_uploads_per_connection = 2

pub record Binding : Type 0 where
  pub shell_id : ShellId
  pub attachment_id : ℕ

pub data UploadCommand : Type 0 where
  chunk : UploadChunk → UploadCommand
  finish : Bytes → UploadCommand
  abort : UploadCommand

-- The sender of the actor's queue stands for itself: the actor is the one of this upload id.
pub record UploadBinding : Type 0 where
  pub upload_id : Bytes

pub record Conn : Type 0 where
  pub peer_ip : ℕ
  pub negotiated : Option Negotiated
  pub authenticated : Bool
  pub user_id : Bytes
  pub op_scope : Option (List Bytes)
  pub channel_binding : Bytes
  pub pending_challenge : Option (Bytes × Bytes)
  pub transport_datagrams : Bool
  pub attachments : Map ℕ Binding
  pub uploads : Map ℕ UploadBinding
  pub forwards : Map ℕ ForwardBinding

unfoldable pub new : ℕ → Bool → Bytes → Conn
new peer_ip transport_datagrams channel_binding = record {
  peer_ip = peer_ip;
  negotiated = none;
  authenticated = false;
  user_id = [];
  op_scope = none;
  channel_binding = channel_binding;
  pending_challenge = none;
  transport_datagrams = transport_datagrams;
  attachments = [];
  uploads = [];
  forwards = [];
}

unfoldable pub max_frame_bytes : Conn → ℕ
max_frame_bytes c = elim c.negotiated [ none ↦ frame_bytes_default | some n ↦ n.max_frame_bytes ]

unfoldable pub permits : Conn → Bytes → Bool
permits c op = elim c.op_scope [ none ↦ true | some ops ↦ any (λ o. bytes_eq o op) ops ]

-- `UploadError` of crates/daemon/src/uploads.rs.
pub data UploadError : Type 0 where
  validation : UploadValidationError → UploadError
  store : StoreError → UploadError
  spawner_forbidden spawner_failed : UploadError
  limit_exceeded missing_account malformed_backend_response non_utf8_path worker : UploadError

-- An `ActiveUpload`, as the connection reads it.
pub record ActiveUpload : Type 0 where
  pub upload_id : Bytes
  pub maximum_chunk_bytes : ℕ

-- `UploadService`; `through_spawner` says which backend it has.
pub record UploadService : Type 0 where
  pub through_spawner : Bool
  pub max_file_bytes : ℕ
  pub counts : Counts

-- What does not change while the daemon runs. The texts are the `Display` forms that thiserror
-- generates, and `is_ip` and `is_utf8` are the standard library's parser of IP addresses and test of UTF-8.
pub record App : Type 1 where
  pub terminal : TerminalModel
  pub token_hash : Token → Bytes
  pub scheme : Scheme
  pub auth : AuthState scheme
  pub server_id : Bytes
  pub is_ip : Bytes → Bool
  pub is_utf8 : Bytes → Bool
  pub session_text : SessionError → String
  pub upload_text : UploadError → String
  pub negotiation_text : NegotiationError → String

-- `writer_open` says whether the connection's writer still takes envelopes; `sent` are those it took, and
-- `commands` those that the actor of an upload took.
pub record World (Screen : Type 0) : Type 0 where
  pub conn : Conn
  pub manager : ShellManager Screen
  pub rate_limiter : RateLimiter
  pub uploads : Option UploadService
  pub forwards : ForwardService
  pub audit : List AuditEvent
  pub sent : List (ℕ × Envelope)
  pub commands : List (Bytes × UploadCommand)
  pub writer_open : Bool

-- What a handler draws: times (`failed_at` and `expiry_now_ms` are the second readings), random values, the answers of the PTY layer and of the upload backend,
-- and which upload actors still receive.
pub record Draws (Screen : Type 0) : Type 0 where
  pub now : ℕ
  pub failed_at : ℕ
  pub now_ms : ℕ
  pub expiry_now_ms : ℕ
  pub token : Token
  pub shell_id : ShellId
  pub challenge : Bytes
  pub jti : Bytes
  pub start : Start
  pub resize_ok : Bool
  pub write : Bytes → Bytes × Bool
  pub kill_ok : Bool
  pub meanwhile : Runtime Screen → Runtime Screen
  pub backend_begin : Option Bytes → ℕ → Result ActiveUpload UploadError
  pub actor_receives : ℕ → Bool
  pub command_taken : Bool
