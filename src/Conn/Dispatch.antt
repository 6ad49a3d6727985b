-- ===== src/Conn/Dispatch.antt =====
-- crates/daemon/src/conn.rs: `dispatch`. `false` beside the new state means that the connection must close.
pub mod Effects
pub mod Login
pub mod Refusals
pub mod Scope
pub mod Limits
pub mod Isolation
use holdfast.Base.{
  ◌==◌, if◌then◌else◌, retain, err, ℕ, ◌-◌, ◌*◌, ◌/◌, min, ap, Bool, true, false, not, ◌&&◌, Option,
  none, some,
}
use Prim.Native.String.{String}
use holdfast.Base.Map
use holdfast.Base.Map.{Map, nat_key}
use holdfast.Messages.{ErrorCode, Method, Msg, Envelope}
use holdfast.Conn.State.{UploadBinding, Conn, App, World, Draws}
use holdfast.Conn.Replies.{respond, send, reply_error}
use holdfast.Conn.Authenticate.{handle_authenticate}
use holdfast.Conn.Shells.{hello, list_servers, list_shells, open_shell, terminate_shell}
use holdfast.Conn.Attachments.{
  attach, terminal_input, terminal_resize, request_history, detach_shell,
}
use holdfast.Conn.Upload.{begin_upload, upload_chunk, finish_upload, abort_upload}
use holdfast.Conn.Forwards.{forward_message, open_forward}

-- `uploads.retain(|_, binding| !binding.commands.is_closed())`
unfoldable pub live_uploads : {S : Type 0} → World S → Draws S → World S
live_uploads w d = record w {
  conn = record w.conn { uploads = retain (λ p. d.actor_receives p.0) w.conn.uploads };
}

unfoldable pub is_pre_auth : Msg → Bool
is_pre_auth (Msg.client_hello _) = true
is_pre_auth (Msg.authenticate _) = true
is_pre_auth (Msg.ping _) = true
is_pre_auth (Msg.pong _) = true
is_pre_auth Msg.close = true
is_pre_auth _ = false

unfoldable pub unexpected : {S : Type 0} → World S → ℕ → ℕ → World S × Bool
unexpected w channel request_id =
    reply_error w channel request_id ErrorCode.unknown_message "unexpected message for this channel"

module _ (app : App) where
  open app use {terminal}
  open terminal use {Screen}

  unfoldable pub authenticate :
      World Screen → Draws Screen → ℕ → Option Method → World Screen × Bool
  authenticate w d request_id method = elim w.conn.negotiated [
    | none ↦ reply_error w 0 request_id ErrorCode.unknown_message "hello first"
    | some _ ↦ handle_authenticate app w d request_id method
  ]

  -- The arms of the match for the control channel.
  unfoldable pub route_control : World Screen → Draws Screen → Envelope → Msg → World Screen × Bool
  route_control w d envelope (Msg.client_hello h) = hello app w envelope.request_id h
  route_control w d envelope (Msg.authenticate method) = authenticate w d envelope.request_id method
  route_control w d envelope (Msg.ping nonce) =
      send w 0 (respond envelope.request_id (Msg.pong nonce))
  route_control w d envelope Msg.close = (w, false)
  route_control w d envelope Msg.list_servers = list_servers app w envelope.request_id
  route_control w d envelope Msg.list_shells = list_shells app w envelope.request_id
  route_control w d envelope (Msg.open_shell request) =
      open_shell app w d envelope.request_id request
  route_control w d envelope Msg.terminate_shell = terminate_shell app w d envelope
  route_control w d envelope _ = unexpected w 0 envelope.request_id

  -- Those for the channels that the client opens.
  unfoldable pub route_channel :
      World Screen → Draws Screen → ℕ → Envelope → Msg → World Screen × Bool
  route_channel w d channel envelope (Msg.ping nonce) =
      send w channel (respond envelope.request_id (Msg.pong nonce))
  route_channel w d channel envelope (Msg.open_tcp_forward request) =
      open_forward app w channel envelope request
  route_channel w d channel envelope (Msg.begin_upload begin) =
      begin_upload app w d channel envelope begin
  route_channel w d channel envelope (Msg.upload_chunk chunk) =
      upload_chunk w d channel envelope.request_id chunk
  route_channel w d channel envelope (Msg.finish_upload upload_id) =
      finish_upload w d channel envelope.request_id upload_id
  route_channel w d channel envelope (Msg.abort_upload upload_id reason) =
      abort_upload w d channel envelope.request_id upload_id reason
  route_channel w d channel envelope (Msg.attach_shell request) =
      attach app w d channel envelope request
  route_channel w d channel envelope (Msg.terminal_input bytes) =
      terminal_input app w d channel envelope.request_id bytes
  route_channel w d channel envelope (Msg.terminal_resize cols rows) =
      terminal_resize app w d channel cols rows
  route_channel w d channel envelope (Msg.request_history before lines bytes) =
      request_history app w channel envelope.request_id before lines bytes
  route_channel w d channel envelope Msg.detach_shell = detach_shell w channel
  route_channel w d channel envelope _ = unexpected w channel envelope.request_id

  unfoldable pub route : World Screen → Draws Screen → ℕ → Envelope → Msg → World Screen × Bool
  route w d channel envelope message =
      if channel == 0
      then route_control w d envelope message
      else route_channel w d channel envelope message

  unfoldable pub dispatch_message :
      World Screen → Draws Screen → ℕ → Envelope → Msg → World Screen × Bool
  dispatch_message w d channel envelope message =
      if not w.conn.authenticated && not (is_pre_auth message)
      then reply_error w channel envelope.request_id ErrorCode.unauthenticated "authenticate first"
      else elim (Map.get w.conn.forwards channel) [
        | some binding ↦ forward_message w channel binding envelope
        | none ↦ route w d channel envelope message
      ]

  unfoldable pub dispatch : World Screen → Draws Screen → ℕ → Envelope → World Screen × Bool
  dispatch w d channel envelope = elim envelope.message [
    | none ↦ (
      (reply_error (live_uploads w d) channel envelope.request_id ErrorCode.unknown_message
          "empty envelope").0,
      false,
    )
    | some message ↦ dispatch_message (live_uploads w d) d channel envelope message
  ]
