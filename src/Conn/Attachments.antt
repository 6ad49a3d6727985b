-- ===== src/Conn/Attachments.antt =====
-- crates/daemon/src/conn.rs: the attachment channels: attach, input, resize, history, detach and what
-- happens when a channel or the connection closes. The forwarder thread is `forward_events`.
pub mod Forwarder
use holdfast.Base.{
  ◌==◌, if◌then◌else◌, Bytes, length, drop, all, ◌>>=◌, ◌>>◌, text, ok, err, ℕ, ◌-◌, ◌*◌, ◌/◌, ◌%◌,
  ◌^◌, min, max, ap, Bool, true, false, not, Option, none, some, List, [], ◌∷◌, map,
}
use Prim.Native.String.{String}
use holdfast.Base.Map
use holdfast.Base.Map.{Map, nat_key}
use holdfast.Session.Attaching
use holdfast.Session.Operations
use holdfast.Session.Listing
use holdfast.Terminal.History.{HistoryRange}
use holdfast.Session.Types.{ShellId, Token, Attachment, ShellManager}
use holdfast.Messages.{ErrorCode, AttachShell, ShellAttached, Msg, Envelope}
use holdfast.Observability.{ShellOperation, RejectReason, AuditEvent}
use holdfast.Conn.State.{permits, max_frame_bytes, Binding, Conn, App, World, Draws}
use holdfast.Conn.Replies.{respond, reject_reason, audited, send, reply_error, session_error}
use holdfast.Conn.Shells.{from_wire, rejected}

unfoldable pub bind : Conn → ℕ → ShellId → ℕ → Conn
bind c channel shell_id attachment_id = record c {
  attachments =
      Map.insert c.attachments channel
        (record { shell_id = shell_id; attachment_id = attachment_id });
}

-- `let _ = manager.detach(..)` and its audit event.
unfoldable pub detach_binding : {S : Type 0} → World S → Binding → World S
detach_binding w b =
    audited (record w { manager = (Operations.detach w.manager b.shell_id b.attachment_id).0 })
      (AuditEvent.shell_detached w.conn.user_id b.shell_id)

-- `attachments.remove(&channel)` and the detach of what was there.
unfoldable pub drop_attachment : {S : Type 0} → World S → ℕ → World S
drop_attachment w channel = elim (Map.get w.conn.attachments channel) [
  | none ↦ w
  | some b ↦
      detach_binding
        (record w { conn = record w.conn { attachments = Map.remove w.conn.attachments channel } })
        b
]

unfoldable pub detach_shell : {S : Type 0} → World S → ℕ → World S × Bool
detach_shell w channel = (drop_attachment w channel, true)

-- A dropped upload sender or forward makes the actor at its other end stop.
unfoldable pub channel_closed : {S : Type 0} → World S → ℕ → World S
channel_closed w channel =
    drop_attachment
      (record w {
        conn = record w.conn {
          uploads = Map.remove w.conn.uploads channel;
          forwards = Map.remove w.conn.forwards channel;
        };
      })
      channel

unfoldable pub detach_each : {S : Type 0} → World S → List (ℕ × Binding) → World S
detach_each w [] = w
detach_each w ((channel, b) ∷ rest) = detach_each (detach_binding w b) rest

unfoldable pub detach_all : {S : Type 0} → World S → World S
detach_all w =
    detach_each
      (record w { conn = record w.conn { uploads = []; forwards = []; attachments = [] } })
      w.conn.attachments

-- `ResumeToken::from_wire`: a token of 32 bytes.
unfoldable pub token_from_wire : Bytes → Option Token
token_from_wire bytes = if length bytes == 32 then some bytes else none

module _ (app : App) where
  open app use {terminal}
  open terminal use {Screen}

  unfoldable pub attached_reply : Envelope → Attachment → Envelope
  attached_reply envelope a = record {
    request_id = envelope.request_id;
    server_id = app.server_id;
    shell_id = envelope.shell_id;
    message = some (
        Msg.shell_attached (record {
          screen_snapshot = a.snapshot;
          screen_revision = a.screen_revision;
          rotated_resume_token = a.rotated_resume_token;
          oldest_history_line_id = a.oldest_history_line_id;
          newest_history_line_id = a.newest_history_line_id;
        }));
  }

  unfoldable pub attach_bound :
      World Screen
      → Draws Screen
      → ℕ
      → Envelope
      → AttachShell
      → ShellId
      → Token
      → World Screen × Bool
  attach_bound w d channel envelope request shell_id presented =
      let (manager, result) =
        Attaching.attach terminal app.token_hash w.manager w.conn.user_id shell_id presented
          (request.cols % 2 ^ 16) (request.rows % 2 ^ 16) d.token d.now_ms d.resize_ok in
      let attached_world = record w { manager = manager } in
      elim result [
        | ok a ↦
            send
              (record (audited attached_world (AuditEvent.shell_attached w.conn.user_id shell_id)) {
                conn = bind w.conn channel shell_id a.attachment_id;
              })
              channel (attached_reply envelope a)
        | err e ↦
            send
              (rejected app attached_world (some shell_id) ShellOperation.attach_op
                (reject_reason e))
              channel (session_error app envelope.request_id e)
      ]

  unfoldable pub attach :
      World Screen → Draws Screen → ℕ → Envelope → AttachShell → World Screen × Bool
  attach w d channel envelope request =
      if not (permits w.conn (text "attach"))
      then reply_error (rejected app w none ShellOperation.attach_op RejectReason.forbidden) channel
          envelope.request_id ErrorCode.forbidden "grant does not permit attach"
      else if Map.has_key w.conn.attachments channel
      then reply_error w channel envelope.request_id ErrorCode.unknown_message
          "channel already attached"
      else elim (from_wire envelope.shell_id) [
        | none ↦ reply_error w channel envelope.request_id ErrorCode.not_found "bad shell id"
        | some shell_id ↦ elim (token_from_wire request.resume_token) [
          | none ↦
              reply_error w channel envelope.request_id ErrorCode.token_expired
                "malformed resume token"
          | some presented ↦ attach_bound w d channel envelope request shell_id presented
        ]
      ]

  unfoldable pub terminal_input : World Screen → Draws Screen → ℕ → ℕ → Bytes → World Screen × Bool
  terminal_input w d channel request_id bytes = elim (Map.get w.conn.attachments channel) [
    | none ↦ (w, true)
    | some b ↦
        (let (manager, result) = Operations.write_input d.write w.manager b.shell_id bytes in
          let written = record w { manager = manager } in
          elim result [
            | ok _ ↦ (written, true)
            | err e ↦ send written channel (session_error app request_id e)
          ])
  ]

  unfoldable pub terminal_resize : World Screen → Draws Screen → ℕ → ℕ → ℕ → World Screen × Bool
  terminal_resize w d channel cols rows = elim (Map.get w.conn.attachments channel) [
    | none ↦ (w, true)
    | some b ↦ (
      record w {
        manager =
            (Operations.resize terminal w.manager b.shell_id (cols % 2 ^ 16) (rows % 2 ^ 16)
              d.resize_ok).0;
      },
      true,
    )
  ]

  -- `history_bounds(..).map(|(oldest, _)| oldest).unwrap_or(0)`
  unfoldable pub oldest_line : ShellManager Screen → ShellId → ℕ
  oldest_line m shell_id = elim (Listing.history_bounds terminal m shell_id) [
    | ok (oldest, newest) ↦ oldest
    | err e ↦ 0
  ]

  unfoldable pub history_reply : World Screen → ℕ → ℕ → ShellId → HistoryRange → World Screen × Bool
  history_reply w channel request_id shell_id range =
      let (chunk_sent, alive) = send w channel (
        respond request_id
          (Msg.history_chunk range.first_line_id range.lines range.truncated_by_eviction)) in
      if not alive
      then (chunk_sent, false)
      else send chunk_sent channel
          (respond request_id (Msg.history_end (oldest_line chunk_sent.manager shell_id)))

  unfoldable pub request_history : World Screen → ℕ → ℕ → ℕ → ℕ → ℕ → World Screen × Bool
  request_history w channel request_id before_line_id maximum_lines maximum_bytes =
      elim (Map.get w.conn.attachments channel) [
        | none ↦ reply_error w channel request_id ErrorCode.not_found "no attachment on channel"
        | some b ↦
            elim (Listing.history terminal w.manager b.shell_id before_line_id
              (min maximum_lines 10000) (min maximum_bytes (max_frame_bytes w.conn / 2))) [
                | ok range ↦ history_reply w channel request_id b.shell_id range
                | err e ↦ send w channel (session_error app request_id e)
              ]
      ]
