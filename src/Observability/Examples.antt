-- ===== src/Observability/Examples.antt =====
-- Two events, the first with a line feed in the user name, in a trail that holds one.
use holdfast.Base.{length, All, text, ℕ, ◌≤◌, ◌≡◌, List, [], ◌∷◌}
use holdfast.Observability.{AuditEvent}
use holdfast.Observability.Sanitizing.{sanitize_event, safe_metadata}
use holdfast.Observability.Recorder.{AuditRecord, new, audit_events}
use holdfast.Observability.Retention.{record_all, trail, trail_latest, IsSafeRecord}

abbrev log : List (ℕ × AuditEvent)
log =
    (1, AuditEvent.shell_attached (10 ∷ text "bob") (9 ∷ []))
    ∷ (2, AuditEvent.shell_detached (10 ∷ text "bob") (9 ∷ []))
    ∷ []

abbrev shown : List AuditRecord
shown = audit_events (record_all (new (3 ∷ []) 1) log)

abbrev the_detach : AuditRecord
the_detach = record {
  timestamp_ms = 2;
  server_id = 3 ∷ [];
  event = AuditEvent.shell_detached (text "bob") (9 ∷ []);
}

trail_latest_example : (shown ≡ the_detach ∷ []) × (length shown ≤ 4096) × All IsSafeRecord shown
unfolding trail sanitize_event safe_metadata
trail_latest_example = trail_latest (3 ∷ []) 1 log
