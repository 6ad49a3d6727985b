-- ===== src/Session/Manager.antt =====
-- crates/session-core/src/lib.rs: tokens, limits and `ShellManager::open_shell`. A method returns the manager as it
-- leaves it beside its result. Fresh tokens, shell ids, times and the answers of the PTY layer are
-- arguments.
pub mod Opening
pub mod Isolation
pub mod Reopening
use holdfast.Base.{
  ltb, leb, ◌==◌, if◌then◌else◌, Bytes, bytes_eq, length, drop, any, retain, Result, ◌>>=◌, ◌>>◌,
  refuse, ok, err, ℕ, ◌+◌, ◌-◌, ◌*◌, ◌/◌, min, max, ap, Bool, true, false, not, ◌&&◌, Option, none,
  some, List, [], ◌∷◌, ◌++◌,
}
use holdfast.Base.Map
use holdfast.Base.Map.{Map, nat_key, bytes_key, pair_key}
use holdfast.Session.Policy.{non_empty}
use holdfast.Session.Types.{
  ShellId, Token, SessionError, ExitSummary, ShellState, is_exited, is_running, SessionCoreConfig,
  TerminalModel, PtyProcess, AttachmentEvent, Sender, superseded_token_history, Runtime, ShellEntry,
  ShellManager, OpenShellRequest, OpenedShell, Attachment, shell_not_found, not_running, forbidden,
  invalid_token, token_replayed, too_many_shells, too_many_user_shells, too_many_attachments, pty,
  internal, running, terminating, exited, output, exit_event,
}

unfoldable pub clamp_dims : ℕ → ℕ → ℕ × ℕ
clamp_dims cols rows = (max cols 2, max rows 1)

-- `VecDeque` with its front first.
unfoldable pub push_superseded : List Bytes → Bytes → List Bytes
push_superseded hashes h =
    (if length hashes == superseded_token_history then drop 1 hashes else hashes) ++ h ∷ []

module _ (hash : Token → Bytes) where
  unfoldable pub rotate_token : {S : Type 0} → Runtime S → Token → Runtime S
  rotate_token rt token = record rt {
    superseded_token_hashes = push_superseded rt.superseded_token_hashes rt.token_hash;
    token_hash = hash token;
  }

  unfoldable pub is_superseded : {S : Type 0} → Runtime S → Token → Bool
  is_superseded rt token = any (λ h. bytes_eq h (hash token)) rt.superseded_token_hashes

unfoldable pub put_runtime :
    {S : Type 0} → ShellManager S → ShellId → ShellEntry S → Runtime S → ShellManager S
put_runtime m id entry rt = record m {
  shells = Map.insert m.shells id (record entry { runtime = rt });
}

-- Shells whose state is not `Exited`.
unfoldable pub is_live : {S : Type 0} → ShellId × ShellEntry S → Bool
is_live (id, entry) = not (is_exited entry.runtime.state)

unfoldable pub live_shells : {S : Type 0} → ShellManager S → Map ShellId (ShellEntry S)
live_shells m = retain is_live m.shells

unfoldable pub owned_shells : {S : Type 0} → ShellManager S → Bytes → Map ShellId (ShellEntry S)
owned_shells m user = retain (λ p. bytes_eq p.1.owner user) (live_shells m)

unfoldable pub spawner_target : SessionCoreConfig → Option Bytes → Option (Bytes × Bytes)
spawner_target config account = elim config.spawner_socket [
  | none ↦ none
  | some socket ↦
      if not config.privilege_drop
      then none
      else elim (non_empty account) [ none ↦ none | some a ↦ some (socket, a) ]
]

-- How a shell's process is started: through the spawner or in process, for an account, with a
-- command and a size. An answer is a process or the error that aborts the open.
abbrev pub Start : Type 0
Start =
    Option (Bytes × Bytes)
    → Option Bytes
    → OpenShellRequest
    → ℕ × ℕ
    → Result PtyProcess SessionError

module _ (tm : TerminalModel) (hash : Token → Bytes) where
  open tm use {Screen}

  unfoldable pub over_limit : ShellManager Screen → Bytes → Result (Unit {0}) SessionError
  over_limit m user = do
    refuse (leb m.config.max_shells (length (live_shells m))) too_many_shells
    refuse
        (ltb 0 m.config.max_shells_per_user
          && leb m.config.max_shells_per_user (length (owned_shells m user)))
        too_many_user_shells
    ok tt

  unfoldable pub new_runtime : SessionCoreConfig → PtyProcess → Token → ℕ × ℕ → Runtime Screen
  new_runtime config process token (cols, rows) = record {
    state = running;
    model = tm.create cols rows config.scrollback_max_lines config.scrollback_max_bytes;
    process = some process;
    attachments = [];
    next_attachment_id = 1;
    token_hash = hash token;
    superseded_token_hashes = [];
    exit = none;
    last_attached_at_ms = 0;
  }

  unfoldable pub open_dims : OpenShellRequest → ℕ × ℕ
  open_dims req =
      clamp_dims (if req.cols == 0 then 80 else req.cols) (if req.rows == 0 then 24 else req.rows)

  unfoldable pub register :
      ShellManager Screen
      → OpenShellRequest
      → Option Bytes
      → Token
      → ShellId
      → ℕ
      → PtyProcess
      → ShellManager Screen × Result OpenedShell SessionError
  register m req account token id now process = (
    record m {
      shells = Map.insert m.shells id (record {
        id = id;
        created_at_ms = now;
        owner = req.user;
        account = account;
        runtime = new_runtime m.config process token (open_dims req);
      });
      idempotency = Map.insert m.idempotency (req.user, req.idempotency_key) id;
    },
    ok (record { shell_id = id; resume_token = token; reused = false }),
  )

  unfoldable pub open_new :
      ShellManager Screen
      → OpenShellRequest
      → Token
      → ShellId
      → ℕ
      → Start
      → ShellManager Screen × Result OpenedShell SessionError
  open_new m req token id now start = elim (m.policy req.user req.requested_account) [
    | err _ ↦ (m, err forbidden)
    | ok account ↦ elim (over_limit m req.user) [
      | err e ↦ (m, err e)
      | ok _ ↦ elim (start (spawner_target m.config account) account req (open_dims req)) [
        | err e ↦ (m, err e)
        | ok process ↦ register m req account token id now process
      ]
    ]
  ]

  -- The shell that an earlier request with the same user and key opened.
  unfoldable pub existing_shell :
      ShellManager Screen → OpenShellRequest → Option (ShellId × ShellEntry Screen)
  existing_shell m req = elim (Map.get m.idempotency (req.user, req.idempotency_key)) [
    | none ↦ none
    | some id ↦ elim (Map.get m.shells id) [ none ↦ none | some entry ↦ some (id, entry) ]
  ]

  unfoldable pub open_shell :
      ShellManager Screen
      → OpenShellRequest
      → Token
      → ShellId
      → ℕ
      → Start
      → ShellManager Screen × Result OpenedShell SessionError
  open_shell m req token id now start = elim (existing_shell m req) [
    | some (id', entry) ↦ (
      put_runtime m id' entry (rotate_token hash entry.runtime token),
      ok (record { shell_id = entry.id; resume_token = token; reused = true }),
    )
    | none ↦ open_new m req token id now start
  ]
