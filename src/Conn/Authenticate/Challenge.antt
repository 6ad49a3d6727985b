-- ===== src/Conn/Authenticate/Challenge.antt =====
-- crates/daemon/src/conn.rs: `pending_challenge` is taken by the first response.
use holdfast.Base.{Bytes, ℕ, ◌≡◌, true, false, none, some, arith}
use holdfast.RateLimiter.{check}
use holdfast.Messages.{Method}
use holdfast.Authenticators.{is_dev}
use holdfast.Conn.State.{App, World, Draws}
use holdfast.Conn.Replies.{send}
use holdfast.Conn.Authenticate.{
  logged_in, fail_auth, succeed_issuing_grant, ssh_response, with_method, handle_authenticate,
}

module _ (app : App) where
  open app use {terminal}
  open terminal use {Screen}

  response_spends :
      (w : World Screen) (d : Draws Screen) (request_id : ℕ) (challenge signature : Bytes)
      → (check w.rate_limiter w.conn.peer_ip d.now).1 ≡ true
      → is_dev app.auth.mode ≡ false
      → (handle_authenticate app w d request_id
          (some (Method.ssh_challenge_response challenge signature))).0.conn.pending_challenge
        ≡ none
  unfolding handle_authenticate with_method ssh_response fail_auth succeed_issuing_grant logged_in
      send
  response_spends w d request_id challenge signature allowed strict =
      ground (arith, allowed, strict)

  unasked_response :
      (w : World Screen) (d : Draws Screen) (request_id : ℕ) (challenge signature : Bytes)
      → is_dev app.auth.mode ≡ false
      → w.conn.pending_challenge ≡ none
      → (handle_authenticate app w d request_id
          (some (Method.ssh_challenge_response challenge signature))).0.conn
        ≡ w.conn
  unfolding handle_authenticate with_method ssh_response fail_auth send
  unasked_response w d request_id challenge signature strict nothing =
      ground (arith, strict, nothing)

  -- Outside the development mode a challenge serves one response: once the limiter has let a response
  -- through, right or wrong, a further response leaves the connection as the first one left it.
  pub challenge_once :
      (w : World Screen) (d d' : Draws Screen) (r r' : ℕ) (c s c' s' : Bytes)
      → (check w.rate_limiter w.conn.peer_ip d.now).1 ≡ true
      → is_dev app.auth.mode ≡ false
      → let after = (handle_authenticate app w d r (some (Method.ssh_challenge_response c s))).0 in
        (handle_authenticate app after d' r' (some (Method.ssh_challenge_response c' s'))).0.conn
        ≡ after.conn
  challenge_once w d d' r r' c s c' s' allowed strict =
      unasked_response (handle_authenticate app w d r (some (Method.ssh_challenge_response c s))).0
        d' r' c' s' strict (response_spends w d r c s allowed strict)
