-- ===== src/Conn/Replies.antt =====
-- crates/daemon/src/conn.rs: the envelopes that the daemon answers with, and the two ways in which every
-- handler acts on the outside: it records an audit event and it sends an envelope.
use holdfast.Base.{if◌then◌else◌, Bytes, text, ℕ, Bool, true, false, none, some, [], ◌∷◌, ◌++◌}
use Prim.Native.String.{String}
use holdfast.Protocol.Upload.{UploadValidationError}
use holdfast.UploadStore.Writer.{StoreError}
use holdfast.Session.Types.{SessionError}
use holdfast.Messages.{ErrorCode, Msg, Envelope}
use holdfast.Observability.{RejectReason, AuditEvent}
use holdfast.Conn.State.{UploadError, App, World}

unfoldable pub respond : ℕ → Msg → Envelope
respond request_id message = record {
  request_id = request_id;
  server_id = [];
  shell_id = [];
  message = some message;
}

unfoldable pub error_envelope : ℕ → ErrorCode → String → Bool → Envelope
error_envelope request_id code text retryable = respond request_id (Msg.error code text retryable)

-- `auth_ok`, with the challenge field that carries an issued grant.
unfoldable pub auth_ok_with : ℕ → Bytes → ℕ → Bytes → Envelope
auth_ok_with request_id user_id expires_at_ms challenge = respond request_id (
    Msg.authentication_result (record {
      is_ok = true;
      user_id = user_id;
      expires_at_ms = expires_at_ms;
      error_code = none;
      error_message = "";
      challenge = challenge;
    }))

unfoldable pub auth_ok : ℕ → Bytes → ℕ → Envelope
auth_ok request_id user_id expires_at_ms = auth_ok_with request_id user_id expires_at_ms []

unfoldable pub auth_failure : ℕ → ErrorCode → String → Envelope
auth_failure request_id code message = respond request_id (
    Msg.authentication_result (record {
      is_ok = false;
      user_id = [];
      expires_at_ms = 0;
      error_code = some code;
      error_message = message;
      challenge = [];
    }))

unfoldable pub reject_reason : SessionError → RejectReason
reject_reason SessionError.shell_not_found = RejectReason.not_found
reject_reason SessionError.not_running = RejectReason.not_running
reject_reason SessionError.too_many_shells = RejectReason.limit_exceeded
reject_reason SessionError.too_many_user_shells = RejectReason.limit_exceeded
reject_reason SessionError.too_many_attachments = RejectReason.limit_exceeded
reject_reason SessionError.forbidden = RejectReason.forbidden
reject_reason SessionError.invalid_token = RejectReason.invalid_token
reject_reason SessionError.token_replayed = RejectReason.token_replayed
reject_reason SessionError.pty = RejectReason.internal
reject_reason SessionError.internal = RejectReason.internal

unfoldable pub session_code : SessionError → ErrorCode × Bool
session_code SessionError.shell_not_found = (ErrorCode.not_found, false)
session_code SessionError.not_running = (ErrorCode.not_found, false)
session_code SessionError.too_many_shells = (ErrorCode.limit_exceeded, true)
session_code SessionError.too_many_user_shells = (ErrorCode.limit_exceeded, true)
session_code SessionError.too_many_attachments = (ErrorCode.limit_exceeded, true)
session_code SessionError.forbidden = (ErrorCode.forbidden, false)
session_code SessionError.invalid_token = (ErrorCode.token_expired, false)
session_code SessionError.token_replayed = (ErrorCode.token_replayed, false)
session_code SessionError.pty = (ErrorCode.internal, true)
session_code SessionError.internal = (ErrorCode.internal, true)

unfoldable pub upload_reject_reason : UploadError → RejectReason
upload_reject_reason UploadError.limit_exceeded = RejectReason.limit_exceeded
upload_reject_reason (UploadError.validation _) = RejectReason.invalid_request
upload_reject_reason (UploadError.store (StoreError.invalid_upload _)) =
    RejectReason.invalid_request
upload_reject_reason UploadError.spawner_forbidden = RejectReason.forbidden
upload_reject_reason UploadError.missing_account = RejectReason.forbidden
upload_reject_reason _ = RejectReason.internal

unfoldable pub validation_code : UploadValidationError → ErrorCode × Bool
validation_code (UploadValidationError.file_too_large _ _) = (ErrorCode.limit_exceeded, false)
validation_code _ = (ErrorCode.invalid_argument, false)

unfoldable pub store_code : StoreError → ErrorCode × Bool
store_code (StoreError.invalid_upload e) = validation_code e
store_code StoreError.checksum_mismatch = (ErrorCode.checksum_mismatch, false)
store_code (StoreError.length_mismatch _ _) = (ErrorCode.invalid_argument, false)
store_code StoreError.invalid_chunk_limit = (ErrorCode.invalid_argument, false)
store_code _ = (ErrorCode.internal, true)

unfoldable pub upload_code : UploadError → ErrorCode × Bool
upload_code UploadError.limit_exceeded = (ErrorCode.limit_exceeded, false)
upload_code (UploadError.validation e) = validation_code e
upload_code (UploadError.store e) = store_code e
upload_code UploadError.missing_account = (ErrorCode.invalid_argument, false)
upload_code UploadError.spawner_forbidden = (ErrorCode.forbidden, false)
upload_code _ = (ErrorCode.internal, true)

-- `observability.record(event)`
abbrev pub audited : {S : Type 0} → World S → AuditEvent → World S
audited w event = record w { audit = w.audit ++ event ∷ [] }

-- `self.send(channel, envelope)`: whether the writer took it.
unfoldable pub send : {S : Type 0} → World S → ℕ → Envelope → World S × Bool
send w channel envelope =
    if w.writer_open
    then (record w { sent = w.sent ++ (channel, envelope) ∷ [] }, true)
    else (w, false)

unfoldable pub send_error : {S : Type 0} → World S → ℕ → ErrorCode → String → World S × Bool
send_error w channel code text = send w channel (error_envelope 0 code text false)

-- `return self.send(channel, error_envelope(request_id, code, text, false))`
unfoldable pub reply_error : {S : Type 0} → World S → ℕ → ℕ → ErrorCode → String → World S × Bool
reply_error w channel request_id code text =
    send w channel (error_envelope request_id code text false)

module _ (app : App) where
  unfoldable pub session_error : ℕ → SessionError → Envelope
  session_error request_id e =
      let (code, retryable) = session_code e in
      error_envelope request_id code (app.session_text e) retryable

  unfoldable pub upload_error_envelope : ℕ → UploadError → Envelope
  upload_error_envelope request_id e =
      let (code, retryable) = upload_code e in
      error_envelope request_id code (app.upload_text e) retryable
