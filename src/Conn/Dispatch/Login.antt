-- ===== src/Conn/Dispatch/Login.antt =====
-- crates/daemon/src/conn.rs: the only ways in which a connection becomes authenticated.
use holdfast.Base.{
  ◌==◌, Bool-cases, Option-cases, ℕ, ◌≡◌, refl, inl, inr, true, false, Option, some, arith,
}
use holdfast.Base.Map
use holdfast.Base.Map.{Map, nat_key}
use holdfast.Protocol.Negotiate.{Negotiated}
use holdfast.RateLimiter.{check}
use holdfast.Messages.{Method, Msg, Envelope}
use holdfast.Conn.State.{Conn, App, World, Draws}
use holdfast.Conn.Replies.{send, send_error, reply_error}
use holdfast.Conn.Authenticate.{handle_authenticate}
use holdfast.Conn.Authenticate.Evidence.{Evidence, handle_authenticate-Evidence}
use holdfast.Conn.Shells.{hello}
use holdfast.Conn.Forwards.{forward_message, put_forward}
use holdfast.Conn.Dispatch.{
  live_uploads, is_pre_auth, unexpected, authenticate, route_control, route_channel, route,
  dispatch_message, dispatch,
}

module _ (app : App) where
  open app use {terminal}
  open terminal use {Screen}

  -- What is known when a message on a channel authenticates the connection.
  pub record Admitted (w : World Screen) (d : Draws Screen) (channel : ℕ) (message : Msg) (c : Conn)
      : Type 0 where
    pub method : Option Method
    pub asked : message ≡ Msg.authenticate method
    pub control : channel ≡ 0
    pub negotiated : Negotiated
    pub after_hello : w.conn.negotiated ≡ some negotiated
    pub allowed : (check w.rate_limiter w.conn.peer_ip d.now).1 ≡ true
    pub shown : Evidence app w.conn d c method

  route-Admitted :
      (w : World Screen) (d : Draws Screen) (channel : ℕ) (envelope : Envelope) (message : Msg)
      → w.conn.authenticated ≡ false
      → is_pre_auth message ≡ true
      → (route app w d channel envelope message).0.conn.authenticated ≡ true
      → Admitted w d channel message (route app w d channel envelope message).0.conn
  unfolding is_pre_auth route route_control route_channel unexpected reply_error send authenticate
      hello
  route-Admitted w d channel envelope (Msg.authenticate method) unauth pre auth =
      elim (Bool-cases (channel == 0)) [
        | inr other ↦ absurd (ground (arith, unauth, auth, other))
        | inl zero_channel ↦ elim (Option-cases w.conn.negotiated) [
          | inl before_hello ↦ absurd (ground (arith, unauth, auth, zero_channel, before_hello))
          | inr (n, greeted) ↦
              (let e =
                  handle_authenticate-Evidence app w d envelope.request_id method unauth
                    (ground (arith, auth, zero_channel, greeted)) in
                let at : authenticate app w d envelope.request_id method
                    ≡ handle_authenticate app w d envelope.request_id method =
                  ground (arith, greeted) in
                record {
                  method = method;
                  asked = refl;
                  control = ground (arith, zero_channel);
                  negotiated = n;
                  after_hello = greeted;
                  allowed = e.0;
                  shown = rw (zero_channel, at) e.1;
                })
        ]
      ]
  route-Admitted w d channel envelope message unauth pre auth =
      absurd (ground (arith, unauth, pre, auth))

  dispatch_message-Admitted :
      (w : World Screen) (d : Draws Screen) (channel : ℕ) (envelope : Envelope) (message : Msg)
      → w.conn.authenticated ≡ false
      → (dispatch_message app w d channel envelope message).0.conn.authenticated ≡ true
      → Admitted w d channel message (dispatch_message app w d channel envelope message).0.conn
  unfolding dispatch_message forward_message put_forward send_error reply_error send
  dispatch_message-Admitted w d channel envelope message unauth auth =
      elim (Bool-cases (is_pre_auth message)) [
        | inr early ↦ absurd (ground (arith, early, unauth, auth))
        | inl pre ↦ elim (Option-cases (Map.get w.conn.forwards channel)) [
          | inr (binding, bound) ↦ absurd (ground (arith, pre, bound, unauth, auth))
          | inl unbound ↦
              let at : dispatch_message app w d channel envelope message
                  ≡ route app w d channel envelope message =
                ground (arith, pre, unbound, unauth) in
              rw at (
                route-Admitted w d channel envelope message unauth pre
                  (ground (arith, pre, unbound, unauth, auth)))
        ]
      ]

  Evidence-live_uploads :
      (w : World Screen) (d : Draws Screen) (c : Conn) (method : Option Method)
      → Evidence app (live_uploads w d).conn d c method
      → Evidence app w.conn d c method
  unfolding live_uploads
  Evidence-live_uploads w d c _ (Evidence.development method dev user scope) =
      Evidence.development method dev user scope
  Evidence-live_uploads w d c _ (Evidence.connection_grant bytes claims valid user scope) =
      Evidence.connection_grant bytes claims valid user scope
  Evidence-live_uploads w d c _
        (Evidence.ssh_key username challenge signature v pending known valid user scope) =
      Evidence.ssh_key username challenge signature v pending known valid user scope
  Evidence-live_uploads w d c _
        (Evidence.password username given verify listed valid short small user scope) =
      Evidence.password username given verify listed valid short small user scope

  -- A message that authenticates a connection is an Authenticate on the control channel, after a hello, from
  -- an address that the limiter allows, and it shows one of: the development mode; a grant that verifies, whose
  -- subject and operations the connection gets; a signature, by a key of the user, over the channel binding and
  -- the pending challenge of that user; a password that the back end accepts for an allowlisted user.
  pub authenticated_by_evidence :
      (w : World Screen) (d : Draws Screen) (channel : ℕ) (envelope : Envelope)
      → w.conn.authenticated ≡ false
      → (dispatch app w d channel envelope).0.conn.authenticated ≡ true
      → (message : Msg) × (envelope.message ≡ some message)
        × Admitted w d channel message (dispatch app w d channel envelope).0.conn
  unfolding dispatch live_uploads reply_error send
  authenticated_by_evidence w d channel envelope unauth auth =
      elim (Option-cases envelope.message) [
        | inl empty ↦ absurd (ground (arith, empty, unauth, auth))
        | inr (message, full) ↦
            let at : dispatch app w d channel envelope
                ≡ dispatch_message app (live_uploads w d) d channel envelope message =
              ground (arith, full) in
            let a =
              dispatch_message-Admitted (live_uploads w d) d channel envelope message unauth
                (ground (arith, full, auth)) in
            (
              message,
              full,
              rw at (record {
                method = a.method;
                asked = a.asked;
                control = a.control;
                negotiated = a.negotiated;
                after_hello = a.after_hello;
                allowed = a.allowed;
                shown = Evidence-live_uploads w d _ a.method a.shown;
              }),
            )
      ]
