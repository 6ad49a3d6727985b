-- ===== src/Observability/Sanitizing.antt =====
-- crates/daemon/src/observability.rs: `sanitize_event`. A text is its code points here.
use holdfast.Base.{ltb, leb, Bytes, take, retain, ℕ, Bool, not, ◌&&◌, ◌||◌, Option, none, some}
use holdfast.Observability.{AuditEvent}

abbrev pub max_metadata_chars : ℕ
max_metadata_chars = 128

-- `char::is_control`
abbrev pub is_control : ℕ → Bool
is_control ch = ltb ch 32 || (leb 127 ch && leb ch 159)

unfoldable pub safe_metadata : Bytes → Bytes
safe_metadata value = take max_metadata_chars (retain (λ ch. not (is_control ch)) value)

unfoldable pub safe_account : Option Bytes → Option Bytes
safe_account none = none
safe_account (some account) = some (safe_metadata account)

unfoldable pub sanitize_event : AuditEvent → AuditEvent
sanitize_event (AuditEvent.authentication_succeeded user source_ip method) =
    AuditEvent.authentication_succeeded (safe_metadata user) source_ip method
sanitize_event (AuditEvent.authentication_failed source_ip reason) =
    AuditEvent.authentication_failed source_ip reason
sanitize_event (AuditEvent.shell_opened user shell_id account reused) =
    AuditEvent.shell_opened (safe_metadata user) shell_id (safe_account account) reused
sanitize_event (AuditEvent.shell_operation_rejected user shell_id operation reason) =
    AuditEvent.shell_operation_rejected (safe_metadata user) shell_id operation reason
sanitize_event (AuditEvent.shell_attached user shell_id) =
    AuditEvent.shell_attached (safe_metadata user) shell_id
sanitize_event (AuditEvent.shell_detached user shell_id) =
    AuditEvent.shell_detached (safe_metadata user) shell_id
sanitize_event (AuditEvent.shell_terminated user shell_id exit_code) =
    AuditEvent.shell_terminated (safe_metadata user) shell_id exit_code
sanitize_event (AuditEvent.shell_expired user shell_id exit_code) =
    AuditEvent.shell_expired (safe_metadata user) shell_id exit_code
sanitize_event (AuditEvent.upload_started user shell_id original_name bytes) =
    AuditEvent.upload_started (safe_metadata user) shell_id (safe_metadata original_name) bytes
sanitize_event (AuditEvent.upload_completed user shell_id stored_basename bytes duration_ms) =
    AuditEvent.upload_completed (safe_metadata user) shell_id (safe_metadata stored_basename) bytes
      duration_ms
sanitize_event (AuditEvent.upload_ended user shell_id outcome) =
    AuditEvent.upload_ended (safe_metadata user) shell_id outcome
sanitize_event (AuditEvent.upload_rejected user shell_id reason) =
    AuditEvent.upload_rejected (safe_metadata user) shell_id reason
