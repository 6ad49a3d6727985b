-- ===== src/Conn/Upload.antt =====
-- crates/daemon/src/conn.rs: the upload channels. The backend's answer to a begin is drawn; what
-- `UploadService::begin` (crates/daemon/src/uploads.rs) checks before it is here.
pub mod Actor
pub mod Ending
mod Examples
use holdfast.Base.{
  ltb, leb, ◌==◌, if◌then◌else◌, Bytes, bytes_eq, length, take, drop, any, Result, ◌>>=◌, ◌>>◌,
  refuse, text, ok, err, ℕ, ◌+◌, ◌-◌, ◌*◌, ◌/◌, min, max, ap, Bool, true, false, not, ◌&&◌, ◌||◌,
  Option, none, some, List, [], ◌∷◌, ◌++◌,
}
use Prim.Native.String.{String}
use holdfast.Base.Map
use holdfast.Base.Map.{Map, nat_key}
use holdfast.Protocol.Constants.{upload_abort_reason_bytes_max, upload_chunk_bytes_max}
use holdfast.Protocol.Negotiate.{Capability, is, Negotiated}
use holdfast.Protocol.Upload.{BeginUpload, UploadChunk, validate_begin}
use holdfast.Permits.Upload.{Counts, try_acquire, release}
use holdfast.Session.Listing
use holdfast.Session.Types.{ShellId, ShellInfo, is_running}
use holdfast.Messages.{ErrorCode, Msg, Envelope}
use holdfast.Observability.{RejectReason, AuditEvent}
use holdfast.Conn.State.{
  max_uploads_per_connection, UploadCommand, UploadBinding, UploadError, ActiveUpload,
  UploadService, permits, max_frame_bytes, Conn, App, World, Draws,
}
use holdfast.Conn.Replies.{
  respond, upload_reject_reason, audited, send, reply_error, upload_error_envelope,
}
use holdfast.Conn.Shells.{from_wire, owner_is}

-- `negotiated.is_some_and(|n| n.capabilities.contains(&capability))`
unfoldable pub has_capability : Conn → Capability → Bool
has_capability c capability = elim c.negotiated [
  | none ↦ false
  | some n ↦ any (λ x. is x capability) n.capabilities
]

unfoldable pub upload_rejected : {S : Type 0} → World S → Option ShellId → RejectReason → World S
upload_rejected w shell_id reason =
    audited w (AuditEvent.upload_rejected w.conn.user_id shell_id reason)

-- `UploadService::begin`
unfoldable pub service_begin :
    UploadService
    → Option Bytes
    → BeginUpload
    → (Option Bytes → Result ActiveUpload UploadError)
    → Result ActiveUpload UploadError
service_begin service account metadata backend =
    elim (validate_begin metadata service.max_file_bytes) [
      | err e ↦ err (UploadError.validation e)
      | ok _ ↦
          if not service.through_spawner
          then backend none
          else elim account [ none ↦ err UploadError.missing_account | some a ↦ backend (some a) ]
    ]

-- The user's own running shell.
unfoldable pub upload_shell : {S : Type 0} → World S → ShellId → Option ShellInfo
upload_shell w shell_id = elim (Listing.shell_info w.manager shell_id) [
  | ok info ↦ if owner_is w.conn.user_id info && is_running info.state then some info else none
  | err e ↦ none
]

-- The chunk size that leaves room for the envelope.
unfoldable pub chunk_limit : Conn → ℕ
chunk_limit c = min (max_frame_bytes c - 512) upload_chunk_bytes_max

module _ (app : App) where
  open app use {terminal}
  open terminal use {Screen}

  unfoldable pub accepted_reply : Envelope → ActiveUpload → Envelope
  accepted_reply envelope active = record {
    request_id = envelope.request_id;
    server_id = app.server_id;
    shell_id = envelope.shell_id;
    message = some (Msg.upload_accepted active.upload_id active.maximum_chunk_bytes);
  }

  -- With the permit taken. It is dropped when the backend refuses; else the actor holds it.
  unfoldable pub begin_acquired :
      World Screen
      → Draws Screen
      → ℕ
      → Envelope
      → BeginUpload
      → UploadService
      → ShellInfo
      → Counts
      → World Screen × Bool
  begin_acquired w d channel envelope begin service shell counts =
      elim (service_begin service shell.account begin
        (λ account. d.backend_begin account (chunk_limit w.conn))) [
          | err e ↦
              send
                (upload_rejected
                  (record w {
                    uploads = some (record service { counts = release counts w.conn.user_id });
                  })
                  (some envelope.shell_id) (upload_reject_reason e))
                channel (upload_error_envelope app envelope.request_id e)
          | ok active ↦
              send
                (audited
                  (record w {
                    uploads = some (record service { counts = counts });
                    conn = record w.conn {
                      uploads =
                          Map.insert w.conn.uploads channel
                            (record { upload_id = active.upload_id });
                    };
                  })
                  (AuditEvent.upload_started w.conn.user_id envelope.shell_id begin.original_name
                    begin.total_bytes))
                channel (accepted_reply envelope active)
        ]

  -- For a shell that the user may upload to.
  unfoldable pub begin_owned :
      World Screen
      → Draws Screen
      → ℕ
      → Envelope
      → BeginUpload
      → UploadService
      → ShellInfo
      → World Screen × Bool
  begin_owned w d channel envelope begin service shell =
      if leb max_uploads_per_connection (length w.conn.uploads)
      then send (upload_rejected w (some envelope.shell_id) RejectReason.limit_exceeded) channel (
          respond envelope.request_id
            (Msg.error ErrorCode.limit_exceeded "too many uploads on this connection" true))
      else (let (counts, permit) = try_acquire service.counts w.conn.user_id in
          elim permit [
            | none ↦
                send (upload_rejected w (some envelope.shell_id) RejectReason.limit_exceeded)
                  channel (upload_error_envelope app envelope.request_id UploadError.limit_exceeded)
            | some _ ↦ begin_acquired w d channel envelope begin service shell counts
          ])

  unfoldable pub begin_enabled :
      World Screen → Draws Screen → ℕ → Envelope → BeginUpload → UploadService → World Screen × Bool
  begin_enabled w d channel envelope begin service =
      if not (has_capability w.conn Capability.file_transfer)
      then reply_error w channel envelope.request_id ErrorCode.unknown_message
          "file transfer was not negotiated"
      else if not (permits w.conn (text "upload"))
      then reply_error (upload_rejected w none RejectReason.forbidden) channel envelope.request_id
          ErrorCode.forbidden "grant does not permit upload"
      else if envelope.request_id == 0
          || Map.has_key w.conn.attachments channel
          || Map.has_key w.conn.uploads channel
      then reply_error (upload_rejected w none RejectReason.invalid_request) channel
          envelope.request_id ErrorCode.invalid_argument "invalid or reused upload channel"
      else elim (from_wire envelope.shell_id) [
        | none ↦
            reply_error (upload_rejected w none RejectReason.forbidden) channel envelope.request_id
              ErrorCode.forbidden "upload denied"
        | some shell_id ↦ elim (upload_shell w shell_id) [
          | none ↦
              reply_error (upload_rejected w (some shell_id) RejectReason.forbidden) channel
                envelope.request_id ErrorCode.forbidden "upload denied"
          | some shell ↦ begin_owned w d channel envelope begin service shell
        ]
      ]

  unfoldable pub begin_upload :
      World Screen → Draws Screen → ℕ → Envelope → BeginUpload → World Screen × Bool
  begin_upload w d channel envelope begin = elim w.uploads [
    | none ↦
        reply_error w channel envelope.request_id ErrorCode.unknown_message
          "file transfer is disabled"
    | some service ↦ begin_enabled w d channel envelope begin service
  ]

-- `binding.commands.send(command).await.is_ok()`
unfoldable pub command_sent :
    {S : Type 0} → World S → Draws S → UploadBinding → UploadCommand → World S × Bool
command_sent w d binding command =
    if not d.command_taken
    then (w, false)
    else (record w { commands = w.commands ++ (binding.upload_id, command) ∷ [] }, true)

unfoldable pub upload_chunk :
    {S : Type 0} → World S → Draws S → ℕ → ℕ → UploadChunk → World S × Bool
upload_chunk w d channel request_id chunk = elim (Map.get w.conn.uploads channel) [
  | none ↦ reply_error w channel request_id ErrorCode.invalid_argument "no upload on channel"
  | some binding ↦
      if not (bytes_eq chunk.upload_id binding.upload_id)
      then reply_error w channel request_id ErrorCode.invalid_argument "upload id mismatch"
      else command_sent w d binding (UploadCommand.chunk chunk)
]

unfoldable pub without_upload : {S : Type 0} → World S → ℕ → World S
without_upload w channel = record w {
  conn = record w.conn { uploads = Map.remove w.conn.uploads channel };
}

-- The binding is gone whatever the message says; a mismatch thereby ends the upload.
unfoldable pub finish_upload : {S : Type 0} → World S → Draws S → ℕ → ℕ → Bytes → World S × Bool
finish_upload w d channel request_id upload_id = elim (Map.get w.conn.uploads channel) [
  | none ↦ reply_error w channel request_id ErrorCode.invalid_argument "no upload on channel"
  | some binding ↦
      if not (bytes_eq upload_id binding.upload_id)
      then reply_error (without_upload w channel) channel request_id ErrorCode.invalid_argument
          "upload id mismatch"
      else command_sent (without_upload w channel) d binding (UploadCommand.finish upload_id)
]

unfoldable pub abort_upload :
    {S : Type 0} → World S → Draws S → ℕ → ℕ → Bytes → Bytes → World S × Bool
abort_upload w d channel request_id upload_id reason = elim (Map.get w.conn.uploads channel) [
  | none ↦ (w, true)
  | some binding ↦
      if ltb upload_abort_reason_bytes_max (length reason)
        || not (bytes_eq upload_id binding.upload_id)
      then reply_error (without_upload w channel) channel request_id ErrorCode.invalid_argument
          "invalid upload abort"
      else command_sent (without_upload w channel) d binding UploadCommand.abort
]
