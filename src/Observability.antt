-- ===== src/Observability.antt =====
-- crates/daemon/src/observability.rs: the closed schema of audit events.
pub mod Sanitizing
pub mod Safety
pub mod Recorder
pub mod Retention
mod Examples
use holdfast.Base.{Bytes, ok, ℕ, suc, ◌-◌, ◌*◌, ◌/◌, min, Bool, not, Option}
use holdfast.Session.Types.{ShellId}

pub data AuthMethod : Type 0 where
  development connection_grant ssh_key password : AuthMethod

pub data ShellOperation : Type 0 where
  open_op attach_op detach_op terminate_op : ShellOperation

pub data UploadOutcome : Type 0 where
  cancelled timed_out failed : UploadOutcome

pub data RejectReason : Type 0 where
  rate_limited forbidden not_found invalid_token token_replayed limit_exceeded : RejectReason
  not_running invalid_request internal : RejectReason

pub data AuditEvent : Type 0 where
  authentication_succeeded : (user : Bytes) (source_ip : ℕ) (method : AuthMethod) → AuditEvent
  authentication_failed : (source_ip : ℕ) (reason : RejectReason) → AuditEvent
  shell_opened :
      (user : Bytes) (shell_id : ShellId) (account : Option Bytes) (reused : Bool) → AuditEvent
  shell_operation_rejected :
      (user : Bytes) (shell_id : Option ShellId) (operation : ShellOperation)
      (reason : RejectReason)
      → AuditEvent
  shell_attached : (user : Bytes) (shell_id : ShellId) → AuditEvent
  shell_detached : (user : Bytes) (shell_id : ShellId) → AuditEvent
  shell_terminated : (user : Bytes) (shell_id : ShellId) (exit_code : ℕ) → AuditEvent
  shell_expired : (user : Bytes) (shell_id : ShellId) (exit_code : ℕ) → AuditEvent
  upload_started :
      (user : Bytes) (shell_id : ShellId) (original_name : Bytes) (bytes : ℕ) → AuditEvent
  upload_completed :
      (user : Bytes) (shell_id : ShellId) (stored_basename : Bytes) (bytes duration_ms : ℕ)
      → AuditEvent
  upload_ended : (user : Bytes) (shell_id : ShellId) (outcome : UploadOutcome) → AuditEvent
  upload_rejected : (user : Bytes) (shell_id : Option ShellId) (reason : RejectReason) → AuditEvent
