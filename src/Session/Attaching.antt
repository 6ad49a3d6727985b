-- ===== src/Session/Attaching.antt =====
-- crates/session-core/src/lib.rs: `attach`, `attach_authorized` and `attach_runtime`. The fresh token, the
-- time and the PTY's answer to a resize are arguments.
pub mod Tokens
pub mod Consistency
pub mod Isolation
use holdfast.Base.{
  leb, ◌==◌, if◌then◌else◌, Bytes, bytes_eq, length, any, all, Result, ◌>>=◌, ◌>>◌, ok, err, ℕ, ◌+◌,
  ◌-◌, ◌*◌, ◌/◌, ◌%◌, ◌^◌, min, max, ap, Bool, true, not, ◌&&◌, ◌||◌, none, some, [],
}
use holdfast.Base.Map
use holdfast.Base.Map.{nat_key, bytes_key}
use holdfast.Session.Types.{
  ShellId, Token, SessionError, is_running, SessionCoreConfig, TerminalModel, PtyProcess, Sender,
  Runtime, ShellEntry, ShellManager, Attachment, shell_not_found, not_running, invalid_token,
  token_replayed, too_many_attachments, pty,
}
use holdfast.Session.Manager.{clamp_dims, rotate_token, is_superseded, put_runtime}

module _ (tm : TerminalModel) (hash : Token → Bytes) where
  open tm use {Screen}

  -- `pty.resize(cols, rows)?; model.resize(cols, rows)`, where `resize_ok` is the PTY's answer. A
  -- shell without a process only resizes its model, which is what a reattach does.
  unfoldable pub resize_both : Runtime Screen → ℕ → ℕ → Bool → Result (Runtime Screen) SessionError
  resize_both rt cols rows resize_ok = elim rt.process [
    | none ↦ ok (record rt { model = tm.resize rt.model cols rows })
    | some p ↦
        if resize_ok
        then ok (record rt {
          process = some (record p { winsize = (cols, rows) });
          model = tm.resize rt.model cols rows;
        })
        else err pty
  ]

  unfoldable pub same_size : ℕ × ℕ → ℕ × ℕ → Bool
  same_size (a, b) (c, d) = a == c && b == d

  unfoldable pub fit_to_client :
      Runtime Screen → ℕ → ℕ → Bool → Result (Runtime Screen) SessionError
  fit_to_client rt cols rows resize_ok =
      if cols == 0 || rows == 0
      then ok rt
      else (let (cols', rows') = clamp_dims cols rows in
          if same_size (tm.size rt.model) (cols', rows')
          then ok rt
          else resize_both rt cols' rows' resize_ok)

  -- The attachment that is made once the screen has the client's size.
  unfoldable pub joined : ShellId → Runtime Screen → Token → ℕ → Runtime Screen × Attachment
  joined id rt token now =
      let rotated = rotate_token hash rt token in
      (
        record rotated {
          last_attached_at_ms = now;
          next_attachment_id = (rt.next_attachment_id + 1) % 2 ^ 64;
          attachments =
              Map.insert rt.attachments rt.next_attachment_id
                (record { queued = []; connected = true });
        },
        record {
          attachment_id = rt.next_attachment_id;
          shell_id = id;
          snapshot = tm.snapshot rt.model;
          screen_revision = tm.revision rt.model;
          rotated_resume_token = token;
          oldest_history_line_id = tm.oldest_line_id rt.model;
          newest_history_line_id = tm.newest_line_id rt.model;
        },
      )

  unfoldable pub attach_runtime :
      SessionCoreConfig
      → ShellId
      → Runtime Screen
      → ℕ
      → ℕ
      → Token
      → ℕ
      → Bool
      → Runtime Screen × Result Attachment SessionError
  attach_runtime config id rt cols rows token now resize_ok =
      if not (is_running rt.state)
      then (rt, err not_running)
      else if leb config.max_attachments_per_shell (length rt.attachments)
      then (rt, err too_many_attachments)
      else elim (fit_to_client rt cols rows resize_ok) [
        | err e ↦ (rt, err e)
        | ok fitted ↦ (let (rt', attachment) = joined id fitted token now in (rt', ok attachment))
      ]

  -- What `attach` does to the runtime of the caller's own shell.
  unfoldable pub attach_with_token :
      SessionCoreConfig
      → ShellId
      → Runtime Screen
      → Token
      → ℕ
      → ℕ
      → Token
      → ℕ
      → Bool
      → Runtime Screen × Result Attachment SessionError
  attach_with_token config id rt presented cols rows token now resize_ok =
      if not (bytes_eq rt.token_hash (hash presented))
      then (rt, err (if is_superseded hash rt presented then token_replayed else invalid_token))
      else attach_runtime config id rt cols rows token now resize_ok

  -- Run a step on the runtime of a shell of this owner; others see an unknown shell.
  unfoldable pub with_owned :
      {A : Type 0}
      → ShellManager Screen
      → Bytes
      → ShellId
      → (Runtime Screen → Runtime Screen × Result A SessionError)
      → ShellManager Screen × Result A SessionError
  with_owned m owner id step = elim (Map.get m.shells id) [
    | none ↦ (m, err shell_not_found)
    | some entry ↦
        if not (bytes_eq entry.owner owner)
        then (m, err shell_not_found)
        else (let (rt, result) = step entry.runtime in (put_runtime m id entry rt, result))
  ]

  unfoldable pub attach :
      ShellManager Screen
      → Bytes
      → ShellId
      → Token
      → ℕ
      → ℕ
      → Token
      → ℕ
      → Bool
      → ShellManager Screen × Result Attachment SessionError
  attach m owner id presented cols rows token now resize_ok =
      with_owned m owner id
        (λ rt. attach_with_token m.config id rt presented cols rows token now resize_ok)

  unfoldable pub attach_authorized :
      ShellManager Screen
      → Bytes
      → ShellId
      → ℕ
      → ℕ
      → Token
      → ℕ
      → Bool
      → ShellManager Screen × Result Attachment SessionError
  attach_authorized m owner id cols rows token now resize_ok =
      with_owned m owner id (λ rt. attach_runtime m.config id rt cols rows token now resize_ok)
