-- ===== src/Session/Types.antt =====
-- crates/session-core/src/lib.rs: the state of the shell manager. What other components provide is
-- a parameter: the terminal model, the PTY layer's answers, SHA-256, random values and the clock.
use holdfast.Base.{Bytes, ℕ, Bool, true, false, Option, List}
use holdfast.Base.Map.{Map}
use holdfast.Terminal.History.{HistoryRange}
use holdfast.Session.Policy.{AccessPolicy}

abbrev pub ShellId : Type 0
ShellId = Bytes

abbrev pub Token : Type 0
Token = Bytes

pub data SessionError : Type 0 where
  shell_not_found not_running forbidden invalid_token token_replayed : SessionError
  too_many_shells too_many_user_shells too_many_attachments : SessionError
  pty internal : SessionError

pub record ExitSummary : Type 0 where
  pub success : Bool
  pub exit_code : ℕ

pub data ShellState : Type 0 where
  running terminating exited : ShellState

unfoldable pub is_exited : ShellState → Bool
is_exited exited = true
is_exited _ = false

unfoldable pub is_running : ShellState → Bool
is_running running = true
is_running _ = false

pub record SessionCoreConfig : Type 0 where
  pub max_shells : ℕ
  pub max_shells_per_user : ℕ
  pub max_attachments_per_shell : ℕ
  pub max_queued_chunks : ℕ
  pub scrollback_max_lines : ℕ
  pub scrollback_max_bytes : ℕ
  pub privilege_drop : Bool
  pub spawner_socket : Option Bytes

-- What the manager uses of crates/terminal-model.
pub record TerminalModel : Type 1 where
  pub Screen : Type 0
  pub create : ℕ → ℕ → ℕ → ℕ → Screen
  pub feed : Screen → Bytes → Screen
  pub resize : Screen → ℕ → ℕ → Screen
  pub size : Screen → ℕ × ℕ
  pub snapshot : Screen → Bytes
  pub revision : Screen → ℕ
  pub oldest_line_id : Screen → ℕ
  pub newest_line_id : Screen → ℕ
  pub history_range : Screen → ℕ → ℕ → ℕ → HistoryRange

-- The process behind a shell, as far as the manager acts on it: its window size, the input written
-- to it and whether it was killed.
pub record PtyProcess : Type 0 where
  pub winsize : ℕ × ℕ
  pub input : Bytes
  pub killed : Bool

pub data AttachmentEvent : Type 0 where
  output : Bytes → AttachmentEvent
  exit_event : ExitSummary → AttachmentEvent

-- A bounded channel: what is queued, and whether the receiver is still there.
pub record Sender : Type 0 where
  pub queued : List AttachmentEvent
  pub connected : Bool

abbrev pub superseded_token_history : ℕ
superseded_token_history = 64

pub record Runtime (Screen : Type 0) : Type 0 where
  pub state : ShellState
  pub model : Screen
  pub process : Option PtyProcess
  pub attachments : Map ℕ Sender
  pub next_attachment_id : ℕ
  pub token_hash : Bytes
  pub superseded_token_hashes : List Bytes
  pub exit : Option ExitSummary
  pub last_attached_at_ms : ℕ

pub record ShellEntry (Screen : Type 0) : Type 0 where
  pub id : ShellId
  pub created_at_ms : ℕ
  pub owner : Bytes
  pub account : Option Bytes
  pub runtime : Runtime Screen

-- `ShellManager` with `Inner`; the two mutexes make every method below one step.
pub record ShellManager (Screen : Type 0) : Type 0 where
  pub config : SessionCoreConfig
  pub policy : AccessPolicy
  pub shells : Map ShellId (ShellEntry Screen)
  pub idempotency : Map (Bytes × Bytes) ShellId

pub record OpenShellRequest : Type 0 where
  pub user : Bytes
  pub requested_account : Option Bytes
  pub command : Option Bytes
  pub args : List Bytes
  pub cols : ℕ
  pub rows : ℕ
  pub idempotency_key : Bytes

pub record OpenedShell : Type 0 where
  pub shell_id : ShellId
  pub resume_token : Token
  pub reused : Bool

pub record Attachment : Type 0 where
  pub attachment_id : ℕ
  pub shell_id : ShellId
  pub snapshot : Bytes
  pub screen_revision : ℕ
  pub rotated_resume_token : Token
  pub oldest_history_line_id : ℕ
  pub newest_history_line_id : ℕ

pub record ShellInfo : Type 0 where
  pub shell_id : ShellId
  pub state : ShellState
  pub exit : Option ExitSummary
  pub created_at_ms : ℕ
  pub last_attached_at_ms : ℕ
  pub attachment_count : ℕ
  pub owner : Bytes
  pub account : Option Bytes
