-- ===== src/Observability/Safety.antt =====
-- What sanitizing promises of every text in an audit event.
use holdfast.Base.{
  Bytes, length, take, All, all, retain, length-take, ℕ, zero, suc, ◌≤◌, ◌≡◌, refl, Bool, true, not,
  none, some, List, [], ◌∷◌, arith,
}
use holdfast.Observability.{AuditEvent}
use holdfast.Observability.Sanitizing.{
  max_metadata_chars, is_control, safe_metadata, safe_account, sanitize_event,
}

-- The texts of an event.
unfoldable pub texts_of : AuditEvent → List Bytes
texts_of (AuditEvent.authentication_succeeded user source_ip method) = user ∷ []
texts_of (AuditEvent.authentication_failed source_ip reason) = []
texts_of (AuditEvent.shell_opened user shell_id none reused) = user ∷ []
texts_of (AuditEvent.shell_opened user shell_id (some account) reused) = user ∷ account ∷ []
texts_of (AuditEvent.shell_operation_rejected user shell_id operation reason) = user ∷ []
texts_of (AuditEvent.shell_attached user shell_id) = user ∷ []
texts_of (AuditEvent.shell_detached user shell_id) = user ∷ []
texts_of (AuditEvent.shell_terminated user shell_id exit_code) = user ∷ []
texts_of (AuditEvent.shell_expired user shell_id exit_code) = user ∷ []
texts_of (AuditEvent.upload_started user shell_id original_name bytes) = user ∷ original_name ∷ []
texts_of (AuditEvent.upload_completed user shell_id basename bytes duration_ms) =
    user ∷ basename ∷ []
texts_of (AuditEvent.upload_ended user shell_id outcome) = user ∷ []
texts_of (AuditEvent.upload_rejected user shell_id reason) = user ∷ []

pub record IsSafeText (value : Bytes) : Type 0 where
  pub short : length value ≤ max_metadata_chars
  pub printable : all (λ ch. not (is_control ch)) value ≡ true

all-take-retain : (p : ℕ → Bool) (n : ℕ) (xs : Bytes) → all p (take n (retain p xs)) ≡ true
all-take-retain p zero xs = refl
all-take-retain p (suc n) [] = refl
all-take-retain p (suc n) (x ∷ xs) =
    ground (arith, all-take-retain p (suc n) xs, all-take-retain p n xs)

safe_metadata-IsSafeText : (value : Bytes) → IsSafeText (safe_metadata value)
unfolding safe_metadata
safe_metadata-IsSafeText value = record {
  short = ground (arith, length-take max_metadata_chars (retain (λ ch. not (is_control ch)) value));
  printable = all-take-retain (λ ch. not (is_control ch)) max_metadata_chars value;
}

pub sanitize_event-safe : (event : AuditEvent) → All IsSafeText (texts_of (sanitize_event event))
unfolding sanitize_event texts_of safe_account
sanitize_event-safe (AuditEvent.authentication_succeeded user source_ip method) =
    (safe_metadata-IsSafeText user, tt)
sanitize_event-safe (AuditEvent.authentication_failed source_ip reason) = tt
sanitize_event-safe (AuditEvent.shell_opened user shell_id none reused) =
    (safe_metadata-IsSafeText user, tt)
sanitize_event-safe (AuditEvent.shell_opened user shell_id (some account) reused) =
    (safe_metadata-IsSafeText user, (safe_metadata-IsSafeText account, tt))
sanitize_event-safe (AuditEvent.shell_operation_rejected user shell_id operation reason) =
    (safe_metadata-IsSafeText user, tt)
sanitize_event-safe (AuditEvent.shell_attached user shell_id) = (safe_metadata-IsSafeText user, tt)
sanitize_event-safe (AuditEvent.shell_detached user shell_id) = (safe_metadata-IsSafeText user, tt)
sanitize_event-safe (AuditEvent.shell_terminated user shell_id exit_code) =
    (safe_metadata-IsSafeText user, tt)
sanitize_event-safe (AuditEvent.shell_expired user shell_id exit_code) =
    (safe_metadata-IsSafeText user, tt)
sanitize_event-safe (AuditEvent.upload_started user shell_id original_name bytes) =
    (safe_metadata-IsSafeText user, (safe_metadata-IsSafeText original_name, tt))
sanitize_event-safe (AuditEvent.upload_completed user shell_id basename bytes duration_ms) =
    (safe_metadata-IsSafeText user, (safe_metadata-IsSafeText basename, tt))
sanitize_event-safe (AuditEvent.upload_ended user shell_id outcome) =
    (safe_metadata-IsSafeText user, tt)
sanitize_event-safe (AuditEvent.upload_rejected user shell_id reason) =
    (safe_metadata-IsSafeText user, tt)
