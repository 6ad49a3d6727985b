-- ===== src/Conn/Dispatch/Limits.antt =====
-- crates/daemon/src/conn.rs: how many uploads and forwards one connection has.
use holdfast.Base.{
  leb, Bool-cases, Option-cases, length, length-retain-le, Result-cases, ℕ, ◌≤◌, ◌<◌, ◌≡◌, ◌≢◌, inl,
  inr, Option, none, some, arith,
}
use holdfast.Base.Map
use holdfast.Base.Map.{Map, nat_key, length-insert-le, length-insert_known, length-remove-le}
use holdfast.Protocol.Upload.{BeginUpload}
use holdfast.RateLimiter.{check}
use holdfast.Messages.{Method, AttachShell, OpenTcpForward, Msg, Envelope}
use holdfast.Forwarding.{max_per_connection}
use holdfast.Forwarding.Binding.{ForwardBinding, message, spawn, abort}
use holdfast.Permits.Upload.{Counts, try_acquire}
use holdfast.Session.Types.{ShellInfo}
use holdfast.Conn.State.{UploadService, max_uploads_per_connection, Conn, App, World, Draws}
use holdfast.Conn.Replies.{send, send_error, reply_error}
use holdfast.Conn.Authenticate.{
  handle_authenticate, logged_in, fail_auth, with_method, with_grant, ssh_challenge, ssh_response,
  with_password, succeed_issuing_grant,
}
use holdfast.Conn.Shells.{
  from_wire, hello, list_servers, list_shells, open_shell, open_permitted, terminate_shell,
  terminate_own, rejected,
}
use holdfast.Conn.Attachments.{
  bind, detach_binding, drop_attachment, detach_shell, attach, attach_bound, terminal_input,
  terminal_resize, history_reply, request_history,
}
use holdfast.Conn.Upload.{
  service_begin, chunk_limit, upload_shell, upload_rejected, begin_acquired, begin_owned,
  begin_enabled, begin_upload, command_sent, upload_chunk, without_upload, finish_upload,
  abort_upload,
}
use holdfast.Conn.Forwards.{
  put_forward, forward_message, forward_refused, forward_started, open_forward,
}
use holdfast.Conn.Dispatch.{
  live_uploads, unexpected, authenticate, route_control, route_channel, route, dispatch_message,
  dispatch,
}

pub record IsBounded (c : Conn) : Type 0 where
  pub uploads : length c.uploads ≤ max_uploads_per_connection
  pub forwards : length c.forwards ≤ max_per_connection

record SameTables (c c' : Conn) : Type 0 where
  uploads : c'.uploads ≡ c.uploads
  forwards : c'.forwards ≡ c.forwards

SameTables-IsBounded : (c c' : Conn) → SameTables c c' → IsBounded c → IsBounded c'
SameTables-IsBounded c c' s b = ground (arith, s.uploads, s.forwards, b.uploads, b.forwards)

module _ (app : App) where
  open app use {terminal}
  open terminal use {Screen}

  with_method-SameTables :
      (w : World Screen) (d : Draws Screen) (request_id : ℕ) (method : Option Method)
      → SameTables w.conn (with_method app w d request_id method).0.conn
  unfolding send fail_auth with_method with_grant ssh_challenge ssh_response with_password
      succeed_issuing_grant logged_in
  with_method-SameTables w d request_id method = ground arith

  authenticate-SameTables :
      (w : World Screen) (d : Draws Screen) (request_id : ℕ) (method : Option Method)
      → SameTables w.conn (authenticate app w d request_id method).0.conn
  unfolding send authenticate reply_error handle_authenticate logged_in
  authenticate-SameTables w d request_id method =
      let checked : World Screen = record w {
        rate_limiter = (check w.rate_limiter w.conn.peer_ip d.now).0;
      } in
      let s = with_method-SameTables checked d request_id method in
      ground (arith, s.uploads, s.forwards)

  control-SameTables :
      (w : World Screen) (d : Draws Screen) (envelope : Envelope) (message : Msg)
      → SameTables w.conn (route_control app w d envelope message).0.conn
  unfolding route_control send reply_error unexpected hello list_servers list_shells open_shell
      open_permitted terminate_shell terminate_own rejected
  control-SameTables w d envelope (Msg.authenticate method) =
      authenticate-SameTables w d envelope.request_id method
  control-SameTables w d envelope message = ground arith

  attach-SameTables :
      (w : World Screen) (d : Draws Screen) (channel : ℕ) (envelope : Envelope)
      (request : AttachShell)
      → SameTables w.conn (attach app w d channel envelope request).0.conn
  unfolding attach attach_bound bind rejected send reply_error
  attach-SameTables w d channel envelope request = ground arith

  begin_acquired-IsBounded :
      (w : World Screen) (d : Draws Screen) (channel : ℕ) (envelope : Envelope)
      (begin : BeginUpload) (service : UploadService) (shell : ShellInfo) (counts : Counts)
      → length w.conn.uploads < max_uploads_per_connection
      → IsBounded w.conn
      → IsBounded (begin_acquired app w d channel envelope begin service shell counts).0.conn
  unfolding begin_acquired send upload_rejected
  begin_acquired-IsBounded w d channel envelope begin service shell counts few b =
      elim (Result-cases (
        service_begin service shell.account begin
          (λ account. d.backend_begin account (chunk_limit w.conn)))) [
            | inr (e, refused) ↦ ground (arith, refused, b.uploads, b.forwards)
            | inl (active, begun) ↦ ground (
              arith,
              begun,
              few,
              b.forwards,
              length-insert-le w.conn.uploads channel (record { upload_id = active.upload_id }),
            )
          ]

  begin_owned-IsBounded :
      (w : World Screen) (d : Draws Screen) (channel : ℕ) (envelope : Envelope)
      (begin : BeginUpload) (service : UploadService) (shell : ShellInfo)
      → IsBounded w.conn
      → IsBounded (begin_owned app w d channel envelope begin service shell).0.conn
  unfolding begin_owned send upload_rejected
  begin_owned-IsBounded w d channel envelope begin service shell b =
      elim (Bool-cases (leb max_uploads_per_connection (length w.conn.uploads))) [
        | inl full ↦ ground (arith, full, b.uploads, b.forwards)
        | inr room ↦
            (let counts = (try_acquire service.counts w.conn.user_id).0 in
              let r =
                begin_acquired-IsBounded w d channel envelope begin service shell counts
                  (ground (arith, room)) b in
              ground (arith, room, b.uploads, b.forwards, r.uploads, r.forwards))
      ]

  begin_upload-IsBounded :
      (w : World Screen) (d : Draws Screen) (channel : ℕ) (envelope : Envelope)
      (begin : BeginUpload)
      → IsBounded w.conn
      → IsBounded (begin_upload app w d channel envelope begin).0.conn
  unfolding begin_upload begin_enabled from_wire send reply_error upload_rejected
  begin_upload-IsBounded w d channel envelope begin b = elim (Option-cases w.uploads) [
    | inl disabled ↦ ground (arith, disabled, b.uploads, b.forwards)
    | inr (service, enabled) ↦ elim (Option-cases (upload_shell w envelope.shell_id)) [
      | inl denied ↦ ground (arith, enabled, denied, b.uploads, b.forwards)
      | inr (shell, own) ↦
          (let r = begin_owned-IsBounded w d channel envelope begin service shell b in
            ground (arith, enabled, own, b.uploads, b.forwards, r.uploads, r.forwards))
    ]
  ]

  forward_message-IsBounded :
      (w : World Screen) (channel : ℕ) (binding : ForwardBinding) (envelope : Envelope)
      → Map.get w.conn.forwards channel ≡ some binding
      → IsBounded w.conn
      → IsBounded (forward_message w channel binding envelope).0.conn
  unfolding forward_message put_forward send_error send
  forward_message-IsBounded w channel binding envelope bound b =
      let known : Map.get w.conn.forwards channel ≢ none = λ e. ground (arith, e, bound) in
      let next = (message binding envelope).0 in
      ground (
        arith,
        b.uploads,
        b.forwards,
        length-insert_known w.conn.forwards channel next known,
        length-insert_known w.conn.forwards channel (abort next) known,
      )

  open_forward-IsBounded :
      (w : World Screen) (channel : ℕ) (envelope : Envelope) (request : OpenTcpForward)
      → IsBounded w.conn
      → IsBounded (open_forward app w channel envelope request).0.conn
  unfolding open_forward forward_refused forward_started put_forward send reply_error
  open_forward-IsBounded w channel envelope request b =
      ground (arith, b.uploads, b.forwards, length-insert-le w.conn.forwards channel spawn)

  channel-IsBounded :
      (w : World Screen) (d : Draws Screen) (channel : ℕ) (envelope : Envelope) (message : Msg)
      → IsBounded w.conn
      → IsBounded (route_channel app w d channel envelope message).0.conn
  unfolding route_channel send reply_error unexpected detach_shell drop_attachment detach_binding
      terminal_input terminal_resize request_history history_reply upload_chunk without_upload
      command_sent finish_upload abort_upload
  channel-IsBounded w d channel envelope (Msg.open_tcp_forward request) b =
      open_forward-IsBounded w channel envelope request b
  channel-IsBounded w d channel envelope (Msg.begin_upload begin) b =
      begin_upload-IsBounded w d channel envelope begin b
  channel-IsBounded w d channel envelope (Msg.attach_shell request) b =
      SameTables-IsBounded _ _ (attach-SameTables w d channel envelope request) b
  channel-IsBounded w d channel envelope message b =
      ground (arith, b.uploads, b.forwards, length-remove-le w.conn.uploads channel)

  -- No message makes a connection have more than 2 uploads or more than 16 forwards.
  pub dispatch-IsBounded :
      (w : World Screen) (d : Draws Screen) (channel : ℕ) (envelope : Envelope)
      → IsBounded w.conn
      → IsBounded (dispatch app w d channel envelope).0.conn
  unfolding dispatch dispatch_message route live_uploads reply_error send
  dispatch-IsBounded w d channel envelope b =
      let live : IsBounded (live_uploads w d).conn = ground (
        arith,
        b.uploads,
        b.forwards,
        length-retain-le (λ p. d.actor_receives p.0) w.conn.uploads,
      ) in
      elim (Option-cases envelope.message) [
        | inl empty ↦ ground (arith, empty, live.uploads, live.forwards)
        | inr (message, full) ↦ elim (Option-cases (Map.get w.conn.forwards channel)) [
          | inr (binding, bound) ↦
              (let r =
                  forward_message-IsBounded (live_uploads w d) channel binding envelope bound
                    live in
                ground (arith, full, bound, live.uploads, live.forwards, r.uploads, r.forwards))
          | inl unbound ↦
              (let r = channel-IsBounded (live_uploads w d) d channel envelope message live in
                let r' : IsBounded
                    (route_control app (live_uploads w d) d envelope message).0.conn =
                  SameTables-IsBounded _ _
                    (control-SameTables (live_uploads w d) d envelope message) live in
                ground (
                  arith, full, unbound, live.uploads, live.forwards, r.uploads, r.forwards,
                  r'.uploads, r'.forwards,
                ))
        ]
      ]
