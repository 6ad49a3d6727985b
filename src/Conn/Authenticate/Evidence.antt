-- ===== src/Conn/Authenticate/Evidence.antt =====
-- crates/daemon/src/conn.rs: what a connection has shown when it is authenticated, and that an SSH challenge
-- serves once.
use holdfast.Base.{
  Bool-cases, Option-cases, Bytes, bytes_eq_iff, length, Result-cases, text, ok, ℕ, ◌≤◌, ◌≡◌, inl,
  inr, Bool, true, false, Option, none, some, arith,
}
use holdfast.Base.Map.{bytes_key}
use holdfast.Grant
use holdfast.Grant.{GrantClaims}
use holdfast.RateLimiter.{check}
use holdfast.Messages.{Method}
use holdfast.Authenticators.{SshVerifier, ssh_verifier, password_verifier, is_dev}
use holdfast.Conn.State.{Conn, App, World, Draws}
use holdfast.Conn.Replies.{send}
use holdfast.Conn.Authenticate.{
  max_username_bytes, max_password_bytes, scope_of, logged_in, fail_auth, succeed_issuing_grant,
  with_grant, ssh_challenge, response_verified, ssh_response, password_accepted, with_password,
  with_method, handle_authenticate,
}

module _ (app : App) where
  open app use {terminal}
  open terminal use {Screen}

  -- Why the connection `c` may act for its user, given the one before the message.
  pub data Evidence (before : Conn) (d : Draws Screen) (c : Conn) : Option Method → Type 0 where
    development :
        (method : Option Method)
        → is_dev app.auth.mode ≡ true
        → c.user_id ≡ text "dev"
        → c.op_scope ≡ before.op_scope
        → Evidence before d c method
    connection_grant :
        (bytes : Bytes) (claims : GrantClaims)
        → Grant.verify app.scheme app.auth.grant_verifier bytes app.auth.audience d.now_ms
          ≡ ok claims
        → c.user_id ≡ claims.sub
        → c.op_scope ≡ scope_of claims.ops
        → Evidence before d c (some (Method.connection_grant bytes))
    ssh_key :
        (username challenge signature : Bytes) (v : SshVerifier)
        → before.pending_challenge ≡ some (username, challenge)
        → ssh_verifier app.auth username ≡ some v
        → v.verify_response before.channel_binding challenge signature ≡ true
        → c.user_id ≡ username
        → c.op_scope ≡ before.op_scope
        → Evidence before d c (some (Method.ssh_challenge_response challenge signature))
    password :
        (username given : Bytes) (verify : Bytes → Bytes → Bool)
        → password_verifier app.auth username ≡ some verify
        → verify username given ≡ true
        → length username ≤ max_username_bytes
        → length given ≤ max_password_bytes
        → c.user_id ≡ username
        → c.op_scope ≡ before.op_scope
        → Evidence before d c (some (Method.password_request username given))

  with_grant-Evidence :
      (w : World Screen) (d : Draws Screen) (request_id : ℕ) (bytes : Bytes)
      → w.conn.authenticated ≡ false
      → (with_grant app w d request_id bytes).0.conn.authenticated ≡ true
      → Evidence w.conn d
          (with_grant app w d request_id bytes).0.conn
          (some (Method.connection_grant bytes))
  unfolding with_grant fail_auth logged_in send
  with_grant-Evidence w d request_id bytes unauth auth =
      elim (Result-cases
        (Grant.verify app.scheme app.auth.grant_verifier bytes app.auth.audience d.now_ms)) [
          | inr (e, invalid) ↦ absurd (ground (arith, unauth, auth, invalid))
          | inl (claims, valid) ↦
              Evidence.connection_grant bytes claims valid (ground (arith, unauth, auth, valid))
                (ground (arith, unauth, auth, valid))
        ]

  ssh_response-Evidence :
      (w : World Screen) (d : Draws Screen) (request_id : ℕ) (challenge signature : Bytes)
      → w.conn.authenticated ≡ false
      → (ssh_response app w d request_id challenge signature).0.conn.authenticated ≡ true
      → Evidence w.conn d
          (ssh_response app w d request_id challenge signature).0.conn
          (some (Method.ssh_challenge_response challenge signature))
  unfolding ssh_response fail_auth logged_in send succeed_issuing_grant response_verified
  ssh_response-Evidence w d request_id challenge signature unauth auth =
      elim (Option-cases w.conn.pending_challenge) [
        | inl no_challenge ↦ absurd (ground (arith, unauth, auth, no_challenge))
        | inr ((username, expected), pending) ↦
            elim (Option-cases (ssh_verifier app.auth username)) [
              | inl unknown ↦ absurd (ground (arith, unauth, auth, pending, unknown))
              | inr (v, known) ↦
                  Evidence.ssh_key username challenge signature v
                    (ground (arith, unauth, auth, pending, known, bytes_eq_iff challenge expected))
                    known
                    (ground (arith, unauth, auth, pending, known, bytes_eq_iff challenge expected))
                    (ground (arith, unauth, auth, pending, known))
                    (ground (arith, unauth, auth, pending, known))
            ]
      ]

  with_password-Evidence :
      (w : World Screen) (d : Draws Screen) (request_id : ℕ) (username given : Bytes)
      → w.conn.authenticated ≡ false
      → (with_password app w d request_id username given).0.conn.authenticated ≡ true
      → Evidence w.conn d
          (with_password app w d request_id username given).0.conn
          (some (Method.password_request username given))
  unfolding with_password fail_auth logged_in send succeed_issuing_grant password_accepted
  with_password-Evidence w d request_id username given unauth auth =
      elim (Option-cases (password_verifier app.auth username)) [
        | inl not_listed ↦ absurd (ground (arith, unauth, auth, not_listed))
        | inr (verify, listed) ↦
            Evidence.password username given verify listed (ground (arith, unauth, auth, listed))
              (ground (arith, unauth, auth, listed)) (ground (arith, unauth, auth, listed))
              (ground (arith, unauth, auth, listed)) (ground (arith, unauth, auth, listed))
      ]

  with_method-Evidence :
      (w : World Screen) (d : Draws Screen) (request_id : ℕ) (method : Option Method)
      → w.conn.authenticated ≡ false
      → (with_method app w d request_id method).0.conn.authenticated ≡ true
      → Evidence w.conn d (with_method app w d request_id method).0.conn method
  unfolding with_method fail_auth send ssh_challenge
  with_method-Evidence w d request_id (some (Method.connection_grant bytes)) unauth auth =
      with_grant-Evidence w d request_id bytes unauth auth
  with_method-Evidence w d request_id (some (Method.ssh_challenge_request username key)) unauth
        auth =
      absurd (ground (arith, unauth, auth))
  with_method-Evidence w d request_id (some (Method.ssh_challenge_response challenge signature))
        unauth auth =
      ssh_response-Evidence w d request_id challenge signature unauth auth
  with_method-Evidence w d request_id (some (Method.password_request username given)) unauth auth =
      with_password-Evidence w d request_id username given unauth auth
  with_method-Evidence w d request_id none unauth auth = absurd (ground (arith, unauth, auth))

  pub handle_authenticate-Evidence :
      (w : World Screen) (d : Draws Screen) (request_id : ℕ) (method : Option Method)
      → w.conn.authenticated ≡ false
      → (handle_authenticate app w d request_id method).0.conn.authenticated ≡ true
      → ((check w.rate_limiter w.conn.peer_ip d.now).1 ≡ true)
        × Evidence w.conn d (handle_authenticate app w d request_id method).0.conn method
  unfolding handle_authenticate logged_in send
  handle_authenticate-Evidence w d request_id method unauth auth =
      elim (Bool-cases (check w.rate_limiter w.conn.peer_ip d.now).1) [
        | inr locked ↦ absurd (ground (arith, unauth, auth, locked))
        | inl allowed ↦ (
          allowed,
          elim (Bool-cases (is_dev app.auth.mode)) [
            | inl dev ↦
                Evidence.development method dev (ground (arith, allowed, dev))
                  (ground (arith, allowed, dev))
            | inr strict ↦
                rw (allowed, strict)
                  (with_method-Evidence
                    (record w { rate_limiter = (check w.rate_limiter w.conn.peer_ip d.now).0 }) d
                    request_id method unauth (ground (arith, unauth, auth, allowed, strict)))
          ],
        )
      ]
