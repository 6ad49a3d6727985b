-- ===== src/Conn/Dispatch/Isolation.antt =====
-- crates/daemon/src/conn.rs: per-user isolation. A message acts on shells of the connection's user and on
-- the shell that its channel is attached to, and on no other.
use holdfast.Base.{
  Bool-cases, Option-cases, Bytes, bytes_eq, bytes_eq_iff, ℕ, ◌%◌, ◌^◌, ◌≡◌, ◌∙◌, inl, inr, Bool,
  true, false, none, some, [], arith,
}
use holdfast.Base.Map
use holdfast.Base.Map.{Map, nat_key, bytes_key}
use holdfast.Session.Listing.{shell_info, info_of}
use holdfast.Session.Types.{ShellId, ShellEntry}
use holdfast.Session.Invariant.{IsConsistent}
use holdfast.Session.Manager.Isolation.{open_shell_others}
use holdfast.Session.Attaching.Isolation.{attach_others}
use holdfast.Session.Operations.Isolation.{
  detach_elsewhere, write_input_elsewhere, resize_elsewhere, terminate_elsewhere,
}
use holdfast.Messages.{OpenShell, AttachShell, Msg, Envelope}
use holdfast.Conn.State.{App, World, Draws}
use holdfast.Conn.Replies.{send, reply_error}
use holdfast.Conn.Shells.{
  list_servers, list_shells, open_shell, open_permitted, terminate_shell, terminate_own, rejected,
  owns_shell, owner_is, from_wire, request_of,
}
use holdfast.Conn.Attachments.{
  detach_binding, drop_attachment, detach_shell, attach, attach_bound, token_from_wire,
  terminal_input, terminal_resize, history_reply, request_history,
}
use holdfast.Conn.Upload.{
  upload_rejected, begin_acquired, begin_owned, begin_enabled, begin_upload, command_sent,
  upload_chunk, without_upload, finish_upload, abort_upload,
}
use holdfast.Conn.Forwards.{put_forward, forward_started, open_forward}
use holdfast.Conn.Dispatch.{
  is_pre_auth, live_uploads, unexpected, route_control, route_channel, route, dispatch_message,
  dispatch,
}
use holdfast.Conn.Dispatch.Effects.{route-SameShared, forward_message-SameShared}

-- Whether the channel is attached to the shell.
unfoldable pub is_attached_to : {S : Type 0} → World S → ℕ → ShellId → Bool
is_attached_to w channel id = elim (Map.get w.conn.attachments channel) [
  | none ↦ false
  | some b ↦ bytes_eq b.shell_id id
]

module _ (app : App) where
  open app use {terminal}
  open terminal use {Screen}

  -- A shell of somebody else.
  record IsForeign (w : World Screen) (id : ShellId) (entry : ShellEntry Screen) : Type 0 where
    there : Map.get w.manager.shells id ≡ some entry
    foreign : bytes_eq entry.owner w.conn.user_id ≡ false

  open_shell-untouched :
      (w : World Screen) (d : Draws Screen) (request_id : ℕ) (request : OpenShell) (id : ShellId)
      (entry : ShellEntry Screen)
      → IsForeign w id entry
      → IsConsistent w.manager
      → Map.get w.manager.shells d.shell_id ≡ none
      → Map.get (open_shell app w d request_id request).0.manager.shells id ≡ some entry
  unfolding open_shell open_permitted request_of rejected send reply_error
  open_shell-untouched w d request_id request id entry f v fresh =
      let same =
        open_shell_others terminal app.token_hash w.manager (request_of app w request) d.token
          d.shell_id d.now_ms d.start id entry v fresh f.there f.foreign in
      ground (arith, f.there, same)

  owned_apart :
      (w : World Screen) (mine id : ShellId) (entry : ShellEntry Screen)
      → IsForeign w id entry
      → owns_shell app w mine ≡ true
      → bytes_eq mine id ≡ false
  unfolding owns_shell owner_is shell_info info_of
  owned_apart w mine id entry f own = elim (Bool-cases (bytes_eq mine id)) [
    | inr apart ↦ apart
    | inl same ↦ absurd (ground (arith, own, f.there, f.foreign, bytes_eq_iff mine id, same))
  ]

  terminate_shell-untouched :
      (w : World Screen) (d : Draws Screen) (envelope : Envelope) (id : ShellId)
      (entry : ShellEntry Screen)
      → IsForeign w id entry
      → Map.get (terminate_shell app w d envelope).0.manager.shells id ≡ some entry
  unfolding terminate_shell terminate_own rejected send reply_error from_wire
  terminate_shell-untouched w d envelope id entry f =
      elim (Bool-cases (owns_shell app w envelope.shell_id)) [
        | inr alien ↦ ground (arith, alien, f.there)
        | inl own ↦ ground (
          arith,
          own,
          f.there,
          terminate_elsewhere w.manager envelope.shell_id id d.kill_ok d.meanwhile
              (owned_apart w envelope.shell_id id entry f own),
        )
      ]

  control-untouched :
      (w : World Screen) (d : Draws Screen) (envelope : Envelope) (message : Msg) (id : ShellId)
      (entry : ShellEntry Screen)
      → is_pre_auth message ≡ false
      → IsForeign w id entry
      → IsConsistent w.manager
      → Map.get w.manager.shells d.shell_id ≡ none
      → Map.get (route_control app w d envelope message).0.manager.shells id ≡ some entry
  unfolding is_pre_auth route_control list_servers list_shells unexpected send reply_error
  control-untouched w d envelope (Msg.open_shell request) id entry late f v fresh =
      open_shell-untouched w d envelope.request_id request id entry f v fresh
  control-untouched w d envelope Msg.terminate_shell id entry late f v fresh =
      terminate_shell-untouched w d envelope id entry f
  control-untouched w d envelope message id entry late f v fresh = ground (arith, late, f.there)

  attach-untouched :
      (w : World Screen) (d : Draws Screen) (channel : ℕ) (envelope : Envelope)
      (request : AttachShell) (id : ShellId) (entry : ShellEntry Screen)
      → IsForeign w id entry
      → Map.get (attach app w d channel envelope request).0.manager.shells id ≡ some entry
  unfolding attach attach_bound rejected send reply_error from_wire token_from_wire
  attach-untouched w d channel envelope request id entry f = ground (
    arith,
    f.there,
    attach_others terminal app.token_hash w.manager w.conn.user_id envelope.shell_id
        request.resume_token (request.cols % 2 ^ 16) (request.rows % 2 ^ 16) d.token d.now_ms
        d.resize_ok id entry f.there f.foreign,
  )

  -- Input, resize and detach act on the shell of the channel's attachment.
  attached-untouched :
      (w : World Screen) (d : Draws Screen) (channel request_id : ℕ) (bytes : Bytes) (cols rows : ℕ)
      (id : ShellId)
      → is_attached_to w channel id ≡ false
      → (Map.get (terminal_input app w d channel request_id bytes).0.manager.shells id
          ≡ Map.get w.manager.shells id)
        × (Map.get (terminal_resize app w d channel cols rows).0.manager.shells id
            ≡ Map.get w.manager.shells id)
        × (Map.get (detach_shell w channel).0.manager.shells id ≡ Map.get w.manager.shells id)
  unfolding is_attached_to terminal_input terminal_resize detach_shell drop_attachment
      detach_binding send
  attached-untouched w d channel request_id bytes cols rows id apart =
      elim (Option-cases (Map.get w.conn.attachments channel)) [
        | inl free ↦ (ground (arith, free), ground (arith, free), ground (arith, free))
        | inr (b, bound) ↦
            (let away : bytes_eq b.shell_id id ≡ false = ground (arith, apart, bound) in
              (
                ground (
                  arith,
                  bound,
                  write_input_elsewhere w.manager b.shell_id id d.write bytes away,
                ),
                ground (
                  arith,
                  bound,
                  resize_elsewhere terminal w.manager b.shell_id id (cols % 2 ^ 16) (rows % 2 ^ 16)
                      d.resize_ok away,
                ),
                ground
                    (arith, bound, detach_elsewhere w.manager b.shell_id id b.attachment_id away),
              ))
      ]

  channel-untouched :
      (w : World Screen) (d : Draws Screen) (channel : ℕ) (envelope : Envelope) (message : Msg)
      (id : ShellId) (entry : ShellEntry Screen)
      → IsForeign w id entry
      → is_attached_to w channel id ≡ false
      → Map.get (route_channel app w d channel envelope message).0.manager.shells id ≡ some entry
  unfolding route_channel send reply_error unexpected request_history history_reply upload_chunk
      without_upload command_sent finish_upload abort_upload open_forward forward_started
      put_forward begin_upload begin_enabled begin_owned begin_acquired upload_rejected
  channel-untouched w d channel envelope (Msg.attach_shell request) id entry f apart =
      attach-untouched w d channel envelope request id entry f
  channel-untouched w d channel envelope (Msg.terminal_input bytes) id entry f apart =
      (attached-untouched w d channel envelope.request_id bytes 0 0 id apart).0 ∙ f.there
  channel-untouched w d channel envelope (Msg.terminal_resize cols rows) id entry f apart =
      (attached-untouched w d channel envelope.request_id [] cols rows id apart).1 ∙ f.there
  channel-untouched w d channel envelope Msg.detach_shell id entry f apart =
      (attached-untouched w d channel envelope.request_id [] 0 0 id apart).2 ∙ f.there
  channel-untouched w d channel envelope message id entry f apart = ground (arith, f.there)

  -- A message on a channel that is not attached to a shell of somebody else leaves that shell as it is. The
  -- shell id that is drawn is one that no shell has, and the manager is consistent, as every reachable one is.
  pub dispatch_isolated :
      (w : World Screen) (d : Draws Screen) (channel : ℕ) (envelope : Envelope) (id : ShellId)
      (entry : ShellEntry Screen)
      → IsConsistent w.manager
      → Map.get w.manager.shells d.shell_id ≡ none
      → Map.get w.manager.shells id ≡ some entry
      → bytes_eq entry.owner w.conn.user_id ≡ false
      → is_attached_to w channel id ≡ false
      → Map.get (dispatch app w d channel envelope).0.manager.shells id ≡ some entry
  unfolding dispatch dispatch_message route live_uploads reply_error send is_attached_to
  dispatch_isolated w d channel envelope id entry v fresh there foreign apart =
      let live = live_uploads w d in
      let f : IsForeign live id entry = record { there = there; foreign = foreign } in
      elim (Option-cases envelope.message) [
        | inl empty ↦ ground (arith, empty, there)
        | inr (message, full) ↦ elim (Option-cases (Map.get w.conn.forwards channel)) [
          | inr (binding, bound) ↦ ground (
            arith,
            full,
            bound,
            there,
            (forward_message-SameShared app live channel binding envelope).manager,
          )
          | inl unbound ↦ elim (Bool-cases (is_pre_auth message)) [
            | inl pre ↦
                (let same = (route-SameShared app live d channel envelope message pre).manager in
                  ground (arith, full, unbound, pre, there, same))
            | inr late ↦ ground (
              arith,
              full,
              unbound,
              late,
              there,
              control-untouched live d envelope message id entry late f v fresh,
              channel-untouched live d channel envelope message id entry f apart,
            )
          ]
        ]
      ]
