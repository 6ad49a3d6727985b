-- ===== src/Conn/Shells.antt =====
-- crates/daemon/src/conn.rs: the handlers of the control channel for the hello and for shells as a whole.
use holdfast.Base.{
  ◌==◌, if◌then◌else◌, Bytes, bytes_eq, length, retain, text, ok, err, ℕ, ◌%◌, ◌^◌, Bool, true,
  false, not, ◌&&◌, Option, none, some, List, [], ◌∷◌, ◌++◌, map,
}
use holdfast.Protocol.Constants.{frame_bytes_default}
use holdfast.Protocol.Negotiate
use holdfast.Protocol.Negotiate.{ClientHello, Capability, negotiate_server}
use holdfast.Session.Manager
use holdfast.Session.Operations
use holdfast.Session.Listing
use holdfast.Session.Types.{ShellId, OpenShellRequest, ShellInfo}
use holdfast.Messages.{ErrorCode, ShellSummary, OpenShell, Msg, Envelope}
use holdfast.Observability.{ShellOperation, RejectReason, AuditEvent}
use holdfast.Forwarding.{enabled}
use holdfast.Conn.State.{keepalive_interval_ms, permits, App, World, Draws}
use holdfast.Conn.Replies.{respond, reject_reason, audited, send, reply_error, session_error}

unfoldable pub on_if : {A : Type 0} → Bool → A → List A
on_if true a = a ∷ []
on_if false a = []

unfoldable pub is_some : {A : Type 0} → Option A → Bool
is_some none = false
is_some (some a) = true

-- `ShellId::from_wire`: an identifier of 16 bytes.
unfoldable pub from_wire : Bytes → Option Bytes
from_wire bytes = if length bytes == 16 then some bytes else none

-- `(!s.is_empty()).then(|| s)`
unfoldable pub non_empty_of : Bytes → Option Bytes
non_empty_of [] = none
non_empty_of (b ∷ s) = some (b ∷ s)

unfoldable pub owner_is : Bytes → ShellInfo → Bool
owner_is user info = bytes_eq info.owner user

module _ (app : App) where
  open app use {terminal}
  open terminal use {Screen}

  unfoldable pub server_capabilities : World Screen → List Capability
  server_capabilities w =
      on_if (is_some w.uploads) Capability.file_transfer
      ++ on_if (enabled w.forwards) Capability.tcp_forward

  unfoldable pub hello : World Screen → ℕ → ClientHello → World Screen × Bool
  hello w request_id h =
      elim (negotiate_server h (server_capabilities w) frame_bytes_default 1200
        w.conn.transport_datagrams) [
          | ok negotiated ↦
              send (record w { conn = record w.conn { negotiated = some negotiated } }) 0
                (respond request_id
                  (Msg.server_hello (Negotiate.server_hello negotiated keepalive_interval_ms)))
          | err e ↦
              ((reply_error w 0 request_id ErrorCode.version (app.negotiation_text e)).0, false)
        ]

  unfoldable pub list_servers : World Screen → ℕ → World Screen × Bool
  list_servers w request_id = send w 0 (
      respond request_id (
        Msg.server_list
          (record { server_id = app.server_id; display_name = text "local"; healthy = true } ∷ [])))

  unfoldable pub summary_of : ShellInfo → ShellSummary
  summary_of info = record {
    server_id = app.server_id;
    shell_id = info.shell_id;
    state = info.state;
    created_at_ms = info.created_at_ms;
    last_attached_at_ms = info.last_attached_at_ms;
  }

  unfoldable pub own_shells : World Screen → List ShellInfo
  own_shells w = retain (owner_is w.conn.user_id) (Listing.list_shells w.manager)

  unfoldable pub list_shells : World Screen → ℕ → World Screen × Bool
  list_shells w request_id =
      if not (permits w.conn (text "list"))
      then reply_error w 0 request_id ErrorCode.forbidden "grant does not permit list"
      else send w 0 (respond request_id (Msg.shell_list (map summary_of (own_shells w))))

  -- `self.observability.record(AuditEvent::ShellOperationRejected { .. })`
  unfoldable pub rejected :
      World Screen → Option ShellId → ShellOperation → RejectReason → World Screen
  rejected w shell_id operation reason =
      audited w (AuditEvent.shell_operation_rejected w.conn.user_id shell_id operation reason)

  unfoldable pub request_of : World Screen → OpenShell → OpenShellRequest
  request_of w open' = record {
    user = w.conn.user_id;
    requested_account = non_empty_of open'.unix_account;
    command = non_empty_of open'.command;
    args = [];
    cols = open'.initial_cols % 2 ^ 16;
    rows = open'.initial_rows % 2 ^ 16;
    idempotency_key = open'.idempotency_key;
  }

  unfoldable pub open_permitted : World Screen → Draws Screen → ℕ → OpenShell → World Screen × Bool
  open_permitted w d request_id open' =
      let (manager, result) =
        Manager.open_shell terminal app.token_hash w.manager (request_of w open') d.token d.shell_id
          d.now_ms d.start in
      let opened_world = record w { manager = manager } in
      elim result [
        | ok opened ↦
            send
              (audited opened_world (
                AuditEvent.shell_opened w.conn.user_id opened.shell_id
                  (non_empty_of open'.unix_account) opened.reused))
              0
              (record {
                request_id = request_id;
                server_id = app.server_id;
                shell_id = opened.shell_id;
                message = some (Msg.shell_opened opened.resume_token 0);
              })
        | err e ↦
            send (rejected opened_world none ShellOperation.open_op (reject_reason e)) 0
              (session_error app request_id e)
      ]

  unfoldable pub open_shell : World Screen → Draws Screen → ℕ → OpenShell → World Screen × Bool
  open_shell w d request_id open' =
      if not (permits w.conn (text "open"))
      then reply_error (rejected w none ShellOperation.open_op RejectReason.forbidden) 0 request_id
          ErrorCode.forbidden "grant does not permit open"
      else if not (length open'.idempotency_key == 16)
      then reply_error w 0 request_id ErrorCode.unknown_message "idempotency_key must be 16 bytes"
      else open_permitted w d request_id open'

  -- Whether the shell is there and the user's own.
  unfoldable pub owns_shell : World Screen → ShellId → Bool
  owns_shell w shell_id = elim (Listing.shell_info w.manager shell_id) [
    | ok info ↦ owner_is w.conn.user_id info
    | err e ↦ false
  ]

  unfoldable pub terminate_own :
      World Screen → Draws Screen → Envelope → ShellId → World Screen × Bool
  terminate_own w d envelope shell_id =
      let (manager, result) = Operations.terminate w.manager shell_id d.kill_ok d.meanwhile in
      let ended_world = record w { manager = manager } in
      elim result [
        | ok exit ↦
            send
              (audited ended_world
                (AuditEvent.shell_terminated w.conn.user_id shell_id exit.exit_code))
              0
              (record {
                request_id = envelope.request_id;
                server_id = [];
                shell_id = envelope.shell_id;
                message =
                    some
                      (Msg.shell_exited exit.exit_code (not exit.success && exit.exit_code == 0));
              })
        | err e ↦
            send
              (rejected ended_world (some shell_id) ShellOperation.terminate_op (reject_reason e)) 0
              (session_error app envelope.request_id e)
      ]

  unfoldable pub terminate_shell : World Screen → Draws Screen → Envelope → World Screen × Bool
  terminate_shell w d envelope =
      if not (permits w.conn (text "terminate"))
      then reply_error (rejected w none ShellOperation.terminate_op RejectReason.forbidden) 0
          envelope.request_id ErrorCode.forbidden "grant does not permit terminate"
      else elim (from_wire envelope.shell_id) [
        | none ↦ reply_error w 0 envelope.request_id ErrorCode.not_found "bad shell id"
        | some shell_id ↦
            if not (owns_shell w shell_id)
            then reply_error
                (rejected w (some shell_id) ShellOperation.terminate_op RejectReason.not_found) 0
                envelope.request_id ErrorCode.not_found "no such shell"
            else terminate_own w d envelope shell_id
      ]
