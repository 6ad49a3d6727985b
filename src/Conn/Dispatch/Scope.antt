-- ===== src/Conn/Dispatch/Scope.antt =====
-- crates/daemon/src/conn.rs: a scoped grant restricts the operations of its connection.
use holdfast.Base.{
  ◌==◌, Bool-cases, Bytes, text, ℕ, ◌≡◌, inl, inr, false, not, ◌&&◌, Option, none, some, arith,
}
use holdfast.Base.Map
use holdfast.Base.Map.{Map, nat_key}
use holdfast.Observability.{AuditEvent, ShellOperation, RejectReason}
use holdfast.Messages.{ErrorCode, Msg, Envelope}
use holdfast.Conn.State.{App, World, Draws, permits}
use holdfast.Conn.Replies.{audited, reply_error}
use holdfast.Conn.Shells.{list_shells, open_shell, terminate_shell, rejected}
use holdfast.Conn.Attachments.{attach}
use holdfast.Conn.Dispatch.{
  is_pre_auth, unexpected, route_control, route_channel, route, dispatch_message,
}
use holdfast.Conn.Dispatch.Refusals.{
  Refused, reply_error-Refused, audited_error-Refused, begin_upload-Refused, open_forward-Refused,
}

-- The operation that a message asks for, as a grant names it.
unfoldable pub asked_op : Msg → Option Bytes
asked_op Msg.list_shells = some (text "list")
asked_op (Msg.open_shell _) = some (text "open")
asked_op Msg.terminate_shell = some (text "terminate")
asked_op (Msg.attach_shell _) = some (text "attach")
asked_op (Msg.begin_upload _) = some (text "upload")
asked_op (Msg.open_tcp_forward _) = some (text "tcp-forward")
asked_op _ = none

module _ (app : App) where
  open app use {terminal}
  open terminal use {Screen}

  -- On the control channel.
  control-Refused :
      (w : World Screen) (d : Draws Screen) (envelope : Envelope) (message : Msg) (op : Bytes)
      → asked_op message ≡ some op
      → permits w.conn op ≡ false
      → Refused w (route_control app w d envelope message).0 0
  unfolding asked_op route_control unexpected list_shells open_shell terminate_shell rejected
  control-Refused w d envelope Msg.list_shells op asked forbidden =
      let at : list_shells app w envelope.request_id
          ≡ reply_error w 0 envelope.request_id ErrorCode.forbidden "grant does not permit list" =
        ground (arith, asked, forbidden) in
      rw at (reply_error-Refused w 0 envelope.request_id _ _)
  control-Refused w d envelope (Msg.open_shell request) op asked forbidden =
      let at : open_shell app w d envelope.request_id request
          ≡ reply_error
              (audited w (
                AuditEvent.shell_operation_rejected w.conn.user_id none ShellOperation.open_op
                  RejectReason.forbidden))
              0 envelope.request_id ErrorCode.forbidden "grant does not permit open" =
        ground (arith, asked, forbidden) in
      rw at (audited_error-Refused w _ 0 envelope.request_id _ _)
  control-Refused w d envelope Msg.terminate_shell op asked forbidden =
      let at : terminate_shell app w d envelope
          ≡ reply_error
              (audited w (
                AuditEvent.shell_operation_rejected w.conn.user_id none ShellOperation.terminate_op
                  RejectReason.forbidden))
              0 envelope.request_id ErrorCode.forbidden "grant does not permit terminate" =
        ground (arith, asked, forbidden) in
      rw at (audited_error-Refused w _ 0 envelope.request_id _ _)
  control-Refused w d envelope (Msg.attach_shell request) op asked forbidden =
      reply_error-Refused w 0 envelope.request_id _ _
  control-Refused w d envelope (Msg.begin_upload begin) op asked forbidden =
      reply_error-Refused w 0 envelope.request_id _ _
  control-Refused w d envelope (Msg.open_tcp_forward request) op asked forbidden =
      reply_error-Refused w 0 envelope.request_id _ _
  control-Refused w d envelope message op asked forbidden = absurd (ground (arith, asked))

  -- On a channel that the client opened.
  channel-Refused :
      (w : World Screen) (d : Draws Screen) (channel : ℕ) (envelope : Envelope) (message : Msg)
      (op : Bytes)
      → asked_op message ≡ some op
      → permits w.conn op ≡ false
      → Refused w (route_channel app w d channel envelope message).0 channel
  unfolding asked_op route_channel unexpected attach rejected
  channel-Refused w d channel envelope (Msg.attach_shell request) op asked forbidden =
      let at : attach app w d channel envelope request
          ≡ reply_error
              (audited w (
                AuditEvent.shell_operation_rejected w.conn.user_id none ShellOperation.attach_op
                  RejectReason.forbidden))
              channel envelope.request_id ErrorCode.forbidden "grant does not permit attach" =
        ground (arith, asked, forbidden) in
      rw at (audited_error-Refused w _ channel envelope.request_id _ _)
  channel-Refused w d channel envelope (Msg.begin_upload begin) op asked forbidden =
      begin_upload-Refused app w d channel envelope begin (ground (arith, asked, forbidden))
  channel-Refused w d channel envelope (Msg.open_tcp_forward request) op asked forbidden =
      open_forward-Refused app w channel envelope request (ground (arith, asked, forbidden))
  channel-Refused w d channel envelope Msg.list_shells op asked forbidden =
      reply_error-Refused w channel envelope.request_id _ _
  channel-Refused w d channel envelope (Msg.open_shell request) op asked forbidden =
      reply_error-Refused w channel envelope.request_id _ _
  channel-Refused w d channel envelope Msg.terminate_shell op asked forbidden =
      reply_error-Refused w channel envelope.request_id _ _
  channel-Refused w d channel envelope message op asked forbidden = absurd (ground (arith, asked))

  -- A message for an operation that the connection's scope does not name, on a channel that carries no
  -- forward, is answered with at most one error and changes no shell, no permit, no upload actor's commands and
  -- no attachment.
  pub scope_enforced :
      (w : World Screen) (d : Draws Screen) (channel : ℕ) (envelope : Envelope) (message : Msg)
      (op : Bytes)
      → asked_op message ≡ some op
      → permits w.conn op ≡ false
      → Map.get w.conn.forwards channel ≡ none
      → Refused w (dispatch_message app w d channel envelope message).0 channel
  unfolding dispatch_message route
  scope_enforced w d channel envelope message op asked forbidden unbound =
      elim (Bool-cases (not w.conn.authenticated && not (is_pre_auth message))) [
        | inl early ↦
            (let at : dispatch_message app w d channel envelope message
                  ≡ reply_error w channel envelope.request_id ErrorCode.unauthenticated
                      "authenticate first" =
                ground (arith, early) in
              rw at (reply_error-Refused w channel envelope.request_id _ _))
        | inr late ↦ elim (Bool-cases (channel == 0)) [
          | inl control ↦
              (let at : dispatch_message app w d channel envelope message
                    ≡ route_control app w d envelope message =
                  ground (arith, late, unbound, control) in
                let zero_channel : channel ≡ 0 = ground (arith, control) in
                rw (at, zero_channel) (control-Refused w d envelope message op asked forbidden))
          | inr other ↦
              (let at : dispatch_message app w d channel envelope message
                    ≡ route_channel app w d channel envelope message =
                  ground (arith, late, unbound, other) in
                rw at (channel-Refused w d channel envelope message op asked forbidden))
        ]
      ]
