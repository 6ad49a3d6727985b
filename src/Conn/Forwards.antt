-- ===== src/Conn/Forwards.antt =====
-- crates/daemon/src/conn.rs: `open_forward` and the messages of a channel that carries a forward.
use holdfast.Base.{
  leb, ◌==◌, if◌then◌else◌, bytes_eq, length, text, ℕ, Bool, true, not, ◌&&◌, ◌||◌, Option, none,
  some,
}
use Prim.Native.String.{String}
use holdfast.Base.Map
use holdfast.Base.Map.{Map, nat_key}
use holdfast.Protocol.Negotiate.{Capability}
use holdfast.Messages.{ErrorCode, OpenTcpForward, Envelope}
use holdfast.Forwarding
use holdfast.Forwarding.{max_per_connection, valid_destination, acquire}
use holdfast.Forwarding.Binding.{ForwardBinding, spawn, message, abort}
use holdfast.Conn.State.{permits, App, World}
use holdfast.Conn.Replies.{send_error, reply_error}
use holdfast.Conn.Upload.{has_capability}

unfoldable pub put_forward : {S : Type 0} → World S → ℕ → ForwardBinding → World S
put_forward w channel binding = record w {
  conn = record w.conn { forwards = Map.insert w.conn.forwards channel binding };
}

-- A message of a channel that carries a forward never reaches another handler.
unfoldable pub forward_message :
    {S : Type 0} → World S → ℕ → ForwardBinding → Envelope → World S × Bool
forward_message w channel binding envelope =
    let (binding', accepted) = message binding envelope in
    if accepted
    then (put_forward w channel binding', true)
    else send_error (put_forward w channel (abort binding')) channel ErrorCode.invalid_argument
        "invalid TCP forwarding frame"

module _ (app : App) where
  open app use {terminal}
  open terminal use {Screen}

  unfoldable pub bad_request : World Screen → ℕ → Envelope → OpenTcpForward → Bool
  bad_request w channel envelope request =
      envelope.request_id == 0
      || not (length envelope.shell_id == 0)
      || (not (length envelope.server_id == 0) && not (bytes_eq envelope.server_id app.server_id))
      || Map.has_key w.conn.attachments channel
      || Map.has_key w.conn.uploads channel
      || not (valid_destination app.is_ip request.host request.port)

  -- The first objection to the request.
  unfoldable pub forward_refused :
      World Screen → ℕ → Envelope → OpenTcpForward → Option (ErrorCode × String)
  forward_refused w channel envelope request =
      if not (has_capability w.conn Capability.tcp_forward)
      then some (ErrorCode.unknown_message, "TCP forwarding is not enabled")
      else if not (permits w.conn (text "tcp-forward"))
          || not (Forwarding.permits w.forwards w.conn.user_id)
      then some (ErrorCode.forbidden, "TCP forwarding is not allowed for this user")
      else if bad_request w channel envelope request
      then some (ErrorCode.invalid_argument, "invalid TCP forwarding request")
      else if leb max_per_connection (length w.conn.forwards)
      then some (ErrorCode.limit_exceeded, "too many TCP forwards")
      else none

  unfoldable pub forward_started : World Screen → ℕ → Envelope → World Screen × Bool
  forward_started w channel envelope =
      let (service, permit) = acquire w.forwards w.conn.user_id in
      elim permit [
        | none ↦
            reply_error w channel envelope.request_id ErrorCode.limit_exceeded
              "too many TCP forwards"
        | some _ ↦ (put_forward (record w { forwards = service }) channel spawn, true)
      ]

  unfoldable pub open_forward : World Screen → ℕ → Envelope → OpenTcpForward → World Screen × Bool
  open_forward w channel envelope request = elim (forward_refused w channel envelope request) [
    | some (code, message') ↦ reply_error w channel envelope.request_id code message'
    | none ↦ forward_started w channel envelope
  ]
