-- ===== src/Conn/Dispatch/Effects.antt =====
-- crates/daemon/src/conn.rs: what a connection can change before it has authenticated.
use holdfast.Base.{Bool-cases, Option-cases, ℕ, ◌≡◌, inl, inr, true, false, Option, arith}
use Prim.Native.String.{String}
use holdfast.Base.Map
use holdfast.Base.Map.{Map, nat_key}
use holdfast.Protocol.Negotiate.{ClientHello}
use holdfast.RateLimiter.{check}
use holdfast.Messages.{Method, Msg, Envelope}
use holdfast.Forwarding.Binding.{ForwardBinding}
use holdfast.Conn.State.{App, World, Draws}
use holdfast.Conn.Replies.{send, send_error, reply_error}
use holdfast.Conn.Authenticate.{
  handle_authenticate, logged_in, fail_auth, with_method, with_grant, ssh_challenge, ssh_response,
  with_password, succeed_issuing_grant,
}
use holdfast.Conn.Shells.{hello}
use holdfast.Conn.Forwards.{forward_message, put_forward}
use holdfast.Conn.Dispatch.{
  live_uploads, is_pre_auth, unexpected, authenticate, route_control, route_channel, route,
  dispatch_message, dispatch,
}

-- What the connection shares with the rest of the daemon, except the limiter and the audit trail, and its
-- own attachments.
pub record SameShared {S : Type 0} (w w' : World S) : Type 0 where
  pub manager : w'.manager ≡ w.manager
  pub uploads : w'.uploads ≡ w.uploads
  pub forwards : w'.forwards ≡ w.forwards
  pub commands : w'.commands ≡ w.commands
  pub attachments : w'.conn.attachments ≡ w.conn.attachments

send-SameShared :
    {S : Type 0} (w : World S) (channel : ℕ) (envelope : Envelope)
    → SameShared w (send w channel envelope).0
unfolding send
send-SameShared w channel envelope = ground arith

fail_auth-SameShared :
    {S : Type 0} (w : World S) (d : Draws S) (request_id : ℕ) (message : String)
    → SameShared w (fail_auth w d request_id message).0
unfolding send fail_auth
fail_auth-SameShared w d request_id message = ground arith

module _ (app : App) where
  open app use {terminal}
  open terminal use {Screen}

  with_method-SameShared :
      (w : World Screen) (d : Draws Screen) (request_id : ℕ) (method : Option Method)
      → SameShared w (with_method app w d request_id method).0
  unfolding send fail_auth with_method with_grant ssh_challenge ssh_response with_password
      succeed_issuing_grant logged_in
  with_method-SameShared w d request_id method = ground arith

  handle_authenticate-SameShared :
      (w : World Screen) (d : Draws Screen) (request_id : ℕ) (method : Option Method)
      → SameShared w (handle_authenticate app w d request_id method).0
  unfolding send handle_authenticate logged_in
  handle_authenticate-SameShared w d request_id method =
      let checked : World Screen = record w {
        rate_limiter = (check w.rate_limiter w.conn.peer_ip d.now).0;
      } in
      let s = with_method-SameShared checked d request_id method in
      ground (arith, s.manager, s.uploads, s.forwards, s.commands, s.attachments)

  hello-SameShared :
      (w : World Screen) (request_id : ℕ) (h : ClientHello)
      → SameShared w (hello app w request_id h).0
  unfolding hello send reply_error
  hello-SameShared w request_id h = ground arith

  pub forward_message-SameShared :
      (w : World Screen) (channel : ℕ) (binding : ForwardBinding) (envelope : Envelope)
      → SameShared w (forward_message w channel binding envelope).0
  unfolding forward_message put_forward send_error send
  forward_message-SameShared w channel binding envelope = ground arith

  -- The pre-authentication messages, on either kind of channel.
  pub route-SameShared :
      (w : World Screen) (d : Draws Screen) (channel : ℕ) (envelope : Envelope) (message : Msg)
      → is_pre_auth message ≡ true
      → SameShared w (route app w d channel envelope message).0
  unfolding is_pre_auth route route_control route_channel unexpected reply_error send authenticate
  route-SameShared w d channel envelope (Msg.client_hello h) pre =
      let s = hello-SameShared w envelope.request_id h in
      ground (arith, s.manager, s.uploads, s.forwards, s.commands, s.attachments)
  route-SameShared w d channel envelope (Msg.authenticate method) pre =
      let s = handle_authenticate-SameShared w d envelope.request_id method in
      ground (arith, s.manager, s.uploads, s.forwards, s.commands, s.attachments)
  route-SameShared w d channel envelope message pre = ground arith

  dispatch_message-SameShared :
      (w : World Screen) (d : Draws Screen) (channel : ℕ) (envelope : Envelope) (message : Msg)
      → w.conn.authenticated ≡ false
      → SameShared w (dispatch_message app w d channel envelope message).0
  unfolding dispatch_message reply_error send
  dispatch_message-SameShared w d channel envelope message unauth =
      elim (Bool-cases (is_pre_auth message)) [
        | inr early ↦ ground (arith, early, unauth)
        | inl pre ↦ elim (Option-cases (Map.get w.conn.forwards channel)) [
          | inl unbound ↦
              (let s = route-SameShared w d channel envelope message pre in
                ground (
                  arith, pre, unbound, s.manager, s.uploads, s.forwards, s.commands, s.attachments,
                ))
          | inr (binding, bound) ↦
              (let s = forward_message-SameShared w channel binding envelope in
                ground
                  (arith, pre, bound, s.manager, s.uploads, s.forwards, s.commands, s.attachments))
        ]
      ]

  -- Until a connection has authenticated, no message on any channel changes the shells, the upload permits,
  -- the forwarding permits, what the upload actors were sent, or the connection's attachments.
  pub unauthenticated_harmless :
      (w : World Screen) (d : Draws Screen) (channel : ℕ) (envelope : Envelope)
      → w.conn.authenticated ≡ false
      → SameShared w (dispatch app w d channel envelope).0
  unfolding dispatch live_uploads reply_error send
  unauthenticated_harmless w d channel envelope unauth = elim (Option-cases envelope.message) [
    | inl empty ↦ ground (arith, empty)
    | inr (message, full) ↦
        (let s = dispatch_message-SameShared (live_uploads w d) d channel envelope message unauth in
          ground (arith, full, s.manager, s.uploads, s.forwards, s.commands, s.attachments))
  ]
