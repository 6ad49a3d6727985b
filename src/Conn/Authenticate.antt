-- ===== src/Conn/Authenticate.antt =====
-- crates/daemon/src/conn.rs: `handle_authenticate`, with the grant, the SSH challenge and response and the
-- password.
pub mod Evidence
pub mod Challenge
use holdfast.Base.{
  leb, ◌==◌, if◌then◌else◌, Bytes, bytes_eq, length, take, any, all, text, ok, err, ℕ, suc, ◌+◌,
  ◌-◌, ◌*◌, ◌/◌, min, max, ap, Bool, true, false, not, ◌&&◌, ◌||◌, Option, none, some, List, [],
  ◌∷◌,
}
use Prim.Native.String.{String}
use holdfast.Grant
use holdfast.Grant.{GrantClaims, i64_max}
use holdfast.RateLimiter.{check, record_failure, record_success}
use holdfast.Messages.{ErrorCode, Method, Msg}
use holdfast.Observability.{AuthMethod, RejectReason, AuditEvent}
use holdfast.Authenticators.{SshVerifier, ssh_verifier, password_verifier, is_dev}
use holdfast.Conn.State.{Conn, App, World, Draws}
use holdfast.Conn.Replies.{respond, auth_ok, auth_ok_with, auth_failure, audited, send}

abbrev pub max_username_bytes : ℕ
max_username_bytes = 128

abbrev pub max_password_bytes : ℕ
max_password_bytes = 1024

-- The log-in of a user: the connection's state, the limiter and the audit trail.
unfoldable pub logged_in :
    {S : Type 0} → World S → Bytes → Option (List Bytes) → AuthMethod → World S
logged_in w user scope method =
    let c = record w.conn { authenticated = true; user_id = user; op_scope = scope } in
    audited (record w { conn = c; rate_limiter = record_success w.rate_limiter w.conn.peer_ip })
      (AuditEvent.authentication_succeeded user w.conn.peer_ip method)

unfoldable pub fail_auth : {S : Type 0} → World S → Draws S → ℕ → String → World S × Bool
fail_auth w d request_id message =
    send
      (audited
        (record w { rate_limiter = record_failure w.rate_limiter w.conn.peer_ip d.failed_at })
        (AuditEvent.authentication_failed w.conn.peer_ip RejectReason.invalid_request))
      0 (auth_failure request_id ErrorCode.unauthenticated message)

-- `(!claims.ops.is_empty()).then(|| claims.ops)`
unfoldable pub scope_of : List Bytes → Option (List Bytes)
scope_of [] = none
scope_of (op ∷ ops) = some (op ∷ ops)

module _ (app : App) where
  open app use {terminal}
  open terminal use {Screen}

  unfoldable pub session_claims : Draws Screen → Bytes → GrantClaims
  session_claims d username = record {
    sub = username;
    aud = app.auth.audience;
    servers = [];
    ops = [];
    iat_ms = d.now_ms;
    exp_ms = min (d.expiry_now_ms + 12 * 3600 * 1000) i64_max;
    jti = d.jti;
  }

  unfoldable pub succeed_issuing_grant :
      World Screen → Draws Screen → ℕ → Bytes → AuthMethod → World Screen × Bool
  succeed_issuing_grant w d request_id username method =
      let claims = session_claims d username in
      send (logged_in w username w.conn.op_scope method) 0 (
        auth_ok_with request_id username claims.exp_ms
          (Grant.issue app.scheme app.auth.grant_signer claims))

  unfoldable pub with_grant : World Screen → Draws Screen → ℕ → Bytes → World Screen × Bool
  with_grant w d request_id bytes =
      if not (app.is_utf8 bytes)
      then fail_auth w d request_id "malformed grant"
      else elim (Grant.verify app.scheme app.auth.grant_verifier bytes app.auth.audience d.now_ms) [
        | ok claims ↦
            send (logged_in w claims.sub (scope_of claims.ops) AuthMethod.connection_grant) 0
              (auth_ok request_id claims.sub claims.exp_ms)
        | err e ↦ fail_auth w d request_id "invalid grant"
      ]

  unfoldable pub offered_key_authorized : Bytes → Bytes → Bool
  offered_key_authorized username public_key = elim (ssh_verifier app.auth username) [
    | none ↦ false
    | some v ↦ v.is_authorized public_key
  ]

  unfoldable pub ssh_challenge :
      World Screen → Draws Screen → ℕ → Bytes → Bytes → World Screen × Bool
  ssh_challenge w d request_id username public_key =
      if not (offered_key_authorized username public_key)
      then fail_auth w d request_id "authentication failed"
      else send
          (record w { conn = record w.conn { pending_challenge = some (username, d.challenge) } }) 0
          (respond request_id (
            Msg.authentication_result (record {
              is_ok = false;
              user_id = [];
              expires_at_ms = 0;
              error_code = none;
              error_message = "";
              challenge = d.challenge;
            })))

  unfoldable pub response_verified : Conn → Bytes → Bytes → Bytes → Bool
  response_verified c username expected signature = elim (ssh_verifier app.auth username) [
    | none ↦ false
    | some v ↦ v.verify_response c.channel_binding expected signature
  ]

  -- `pending_challenge.take()` comes first, so that every response uses the challenge up.
  unfoldable pub ssh_response :
      World Screen → Draws Screen → ℕ → Bytes → Bytes → World Screen × Bool
  ssh_response w d request_id challenge signature = elim w.conn.pending_challenge [
    | none ↦ fail_auth w d request_id "no challenge in progress"
    | some (username, expected) ↦
        (let taken = record w { conn = record w.conn { pending_challenge = none } } in
          if not (bytes_eq challenge expected)
          then fail_auth taken d request_id "challenge mismatch"
          else if response_verified w.conn username expected signature
          then succeed_issuing_grant taken d request_id username AuthMethod.ssh_key
          else fail_auth taken d request_id "authentication failed")
  ]

  unfoldable pub password_accepted : Bytes → Bytes → Bool
  password_accepted username password = elim (password_verifier app.auth username) [
    | none ↦ false
    | some verify ↦
        not (length username == 0)
        && leb (length username) max_username_bytes
        && not (length password == 0)
        && leb (length password) max_password_bytes
        && verify username password
  ]

  unfoldable pub with_password :
      World Screen → Draws Screen → ℕ → Bytes → Bytes → World Screen × Bool
  with_password w d request_id username password =
      if password_accepted username password
      then succeed_issuing_grant w d request_id username AuthMethod.password
      else fail_auth w d request_id "authentication failed"

  unfoldable pub with_method : World Screen → Draws Screen → ℕ → Option Method → World Screen × Bool
  with_method w d request_id (some (Method.connection_grant bytes)) =
      with_grant w d request_id bytes
  with_method w d request_id (some (Method.ssh_challenge_request username public_key)) =
      ssh_challenge w d request_id username public_key
  with_method w d request_id (some (Method.ssh_challenge_response challenge signature)) =
      ssh_response w d request_id challenge signature
  with_method w d request_id (some (Method.password_request username password)) =
      with_password w d request_id username password
  with_method w d request_id none = fail_auth w d request_id "no authentication method"

  unfoldable pub handle_authenticate :
      World Screen → Draws Screen → ℕ → Option Method → World Screen × Bool
  handle_authenticate w d request_id method =
      let (limiter, allowed) = check w.rate_limiter w.conn.peer_ip d.now in
      let checked = record w { rate_limiter = limiter } in
      if not allowed
      then send
          (audited checked
            (AuditEvent.authentication_failed w.conn.peer_ip RejectReason.rate_limited))
          0 (auth_failure request_id ErrorCode.limit_exceeded "too many attempts")
      else if is_dev app.auth.mode
      then send (logged_in checked (text "dev") w.conn.op_scope AuthMethod.development) 0
          (auth_ok request_id (text "dev") 0)
      else with_method checked d request_id method
