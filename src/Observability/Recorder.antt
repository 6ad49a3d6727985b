-- ===== src/Observability/Recorder.antt =====
-- crates/daemon/src/observability.rs: `Observability`, the bounded ring of audit records and the counters. A
-- text is its code points here. The log line of an event is left out.
use holdfast.Base.{
  ◌==◌, if◌then◌else◌, Bytes, length, drop, ℕ, ◌+◌, ◌-◌, ◌%◌, ◌^◌, min, Bool, true, false, List, [],
  ◌∷◌, ◌++◌,
}
use holdfast.Observability.Sanitizing.{sanitize_event}
use holdfast.Observability.{UploadOutcome, RejectReason, AuditEvent}

abbrev pub default_audit_capacity : ℕ
default_audit_capacity = 4096

pub record AuditRecord : Type 0 where
  pub timestamp_ms : ℕ
  pub server_id : Bytes
  pub event : AuditEvent

-- `AtomicU64` wraps.
pub record Counters : Type 0 where
  pub authentication_succeeded : ℕ
  pub authentication_failed : ℕ
  pub authentication_rate_limited : ℕ
  pub shells_opened : ℕ
  pub shell_opens_reused : ℕ
  pub shell_operations_rejected : ℕ
  pub attachments_opened : ℕ
  pub attachments_detached : ℕ
  pub shells_terminated : ℕ
  pub limit_hits : ℕ
  pub token_replays_detected : ℕ
  pub shells_expired : ℕ
  pub uploads_active : ℕ
  pub uploads_completed : ℕ
  pub uploads_cancelled : ℕ
  pub uploads_timed_out : ℕ
  pub uploads_failed : ℕ
  pub uploads_rejected : ℕ
  pub upload_bytes_completed : ℕ

pub record AuditRing : Type 0 where
  pub capacity : ℕ
  pub records : List AuditRecord

pub record Observability : Type 0 where
  pub server_id : Bytes
  pub audit : AuditRing
  pub counters : Counters

abbrev pub no_counts : Counters
no_counts = record {
  authentication_succeeded = 0;
  authentication_failed = 0;
  authentication_rate_limited = 0;
  shells_opened = 0;
  shell_opens_reused = 0;
  shell_operations_rejected = 0;
  attachments_opened = 0;
  attachments_detached = 0;
  shells_terminated = 0;
  limit_hits = 0;
  token_replays_detected = 0;
  shells_expired = 0;
  uploads_active = 0;
  uploads_completed = 0;
  uploads_cancelled = 0;
  uploads_timed_out = 0;
  uploads_failed = 0;
  uploads_rejected = 0;
  upload_bytes_completed = 0;
}

unfoldable pub new : Bytes → ℕ → Observability
new server_id audit_capacity = record {
  server_id = server_id;
  audit = record { capacity = min audit_capacity default_audit_capacity; records = [] };
  counters = no_counts;
}

-- `fetch_add(n)`
abbrev pub added : ℕ → ℕ → ℕ
added counter n = (counter + n) % 2 ^ 64

abbrev pub is_rate_limited : RejectReason → Bool
is_rate_limited RejectReason.rate_limited = true
is_rate_limited _ = false

abbrev pub is_limit_exceeded : RejectReason → Bool
is_limit_exceeded RejectReason.limit_exceeded = true
is_limit_exceeded _ = false

abbrev pub is_token_replayed : RejectReason → Bool
is_token_replayed RejectReason.token_replayed = true
is_token_replayed _ = false

abbrev pub one_if : Bool → ℕ
one_if true = 1
one_if false = 0

unfoldable pub upload_outcome_counted : Counters → UploadOutcome → Counters
upload_outcome_counted c UploadOutcome.cancelled = record c {
  uploads_cancelled = added c.uploads_cancelled 1;
}
upload_outcome_counted c UploadOutcome.timed_out = record c {
  uploads_timed_out = added c.uploads_timed_out 1;
}
upload_outcome_counted c UploadOutcome.failed = record c {
  uploads_failed = added c.uploads_failed 1;
}

unfoldable pub increment : Counters → AuditEvent → Counters
increment c (AuditEvent.authentication_succeeded user source_ip method) = record c {
  authentication_succeeded = added c.authentication_succeeded 1;
}
increment c (AuditEvent.authentication_failed source_ip reason) = record c {
  authentication_failed = added c.authentication_failed 1;
  authentication_rate_limited =
      added c.authentication_rate_limited (one_if (is_rate_limited reason));
}
increment c (AuditEvent.shell_opened user shell_id account reused) =
    if reused
    then record c { shell_opens_reused = added c.shell_opens_reused 1 }
    else record c { shells_opened = added c.shells_opened 1 }
increment c (AuditEvent.shell_operation_rejected user shell_id operation reason) = record c {
  shell_operations_rejected = added c.shell_operations_rejected 1;
  limit_hits = added c.limit_hits (one_if (is_limit_exceeded reason));
  token_replays_detected = added c.token_replays_detected (one_if (is_token_replayed reason));
}
increment c (AuditEvent.shell_attached user shell_id) = record c {
  attachments_opened = added c.attachments_opened 1;
}
increment c (AuditEvent.shell_detached user shell_id) = record c {
  attachments_detached = added c.attachments_detached 1;
}
increment c (AuditEvent.shell_terminated user shell_id exit_code) = record c {
  shells_terminated = added c.shells_terminated 1;
}
increment c (AuditEvent.shell_expired user shell_id exit_code) = record c {
  shells_expired = added c.shells_expired 1;
}
increment c (AuditEvent.upload_started user shell_id original_name bytes) = record c {
  uploads_active = added c.uploads_active 1;
}
increment c (AuditEvent.upload_completed user shell_id stored_basename bytes duration_ms) =
    record c {
      uploads_active = c.uploads_active - 1;
      uploads_completed = added c.uploads_completed 1;
      upload_bytes_completed = added c.upload_bytes_completed bytes;
    }
increment c (AuditEvent.upload_ended user shell_id outcome) =
    upload_outcome_counted (record c { uploads_active = c.uploads_active - 1 }) outcome
increment c (AuditEvent.upload_rejected user shell_id reason) = record c {
  uploads_rejected = added c.uploads_rejected 1;
  limit_hits = added c.limit_hits (one_if (is_limit_exceeded reason));
}

-- The oldest record makes room in a full ring.
unfoldable pub push_record : AuditRing → AuditRecord → AuditRing
push_record ring entry =
    if ring.capacity == 0
    then ring
    else if length ring.records == ring.capacity
    then record ring { records = drop 1 ring.records ++ entry ∷ [] }
    else record ring { records = ring.records ++ entry ∷ [] }

-- `record`
unfoldable pub record_event : Observability → ℕ → AuditEvent → Observability
record_event o now_ms event =
    let sanitized = sanitize_event event in
    record o {
      audit =
          push_record o.audit
            (record { timestamp_ms = now_ms; server_id = o.server_id; event = sanitized });
      counters = increment o.counters sanitized;
    }

unfoldable pub audit_events : Observability → List AuditRecord
audit_events o = o.audit.records

unfoldable pub metrics : Observability → Counters
metrics o = o.counters
