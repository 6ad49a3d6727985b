-- ===== src/Session/Operations.antt =====
-- crates/session-core/src/lib.rs: the methods of `ShellManager` on a shell that is already there, and
-- the per-shell pump. Answers of the PTY layer are arguments.
pub mod Consistency
pub mod Isolation
use holdfast.Base.{
  ltb, leb, ◌==◌, if◌then◌else◌, Bytes, bytes_eq, length, retain, Result, ◌>>=◌, ◌>>◌, ok, err, ℕ,
  suc, ◌+◌, ◌-◌, ◌*◌, ◌/◌, ◌<◌, min, ap, Bool, true, false, not, ◌&&◌, ◌||◌, none, some, List, [],
  ◌∷◌, ◌++◌,
}
use holdfast.Base.Map
use holdfast.Base.Map.{Map, nat_key, bytes_key, pair_key}
use holdfast.Terminal.History.{HistoryRange}
use holdfast.Session.Types.{
  ShellId, SessionError, ExitSummary, is_exited, is_running, TerminalModel, AttachmentEvent, Sender,
  Runtime, ShellEntry, ShellManager, ShellInfo, shell_not_found, not_running, pty, internal,
  terminating, exited, output, exit_event,
}
use holdfast.Session.Manager.{put_runtime, clamp_dims}

-- A step on the runtime of the shell, whoever owns it.
pub with_entry :
    {S : Type 0} {A : Type 0}
    → ShellManager S
    → ShellId
    → (Runtime S → Runtime S × Result A SessionError)
    → ShellManager S × Result A SessionError
with_entry m id step = elim (Map.get m.shells id) [
  | none ↦ (m, err shell_not_found)
  | some entry ↦ (let (rt, result) = step entry.runtime in (put_runtime m id entry rt, result))
]

pub detach :
    {S : Type 0} → ShellManager S → ShellId → ℕ → ShellManager S × Result (Unit {0}) SessionError
detach m id attachment_id =
    with_entry m id
      (λ rt. (record rt { attachments = Map.remove rt.attachments attachment_id }, ok tt))

-- `write` says which bytes reach the PTY and whether the write succeeds.
pub write_runtime :
    {S : Type 0}
    → (Bytes → Bytes × Bool)
    → Bytes
    → Runtime S
    → Runtime S × Result (Unit {0}) SessionError
write_runtime write bytes rt = elim rt.process [
  | none ↦ (rt, err not_running)
  | some p ↦
      (let (written, success) = write bytes in
        (
          record rt { process = some (record p { input = p.input ++ written }) },
          if success then ok tt else err pty,
        ))
]

pub write_input :
    {S : Type 0}
    → (Bytes → Bytes × Bool)
    → ShellManager S
    → ShellId
    → Bytes
    → ShellManager S × Result (Unit {0}) SessionError
write_input write m id bytes = with_entry m id (write_runtime write bytes)

pub resize_runtime :
    (tm : TerminalModel)
    → ℕ
    → ℕ
    → Bool
    → Runtime tm.Screen
    → Runtime tm.Screen × Result (Unit {0}) SessionError
resize_runtime tm cols rows resize_ok rt = elim rt.process [
  | none ↦ (rt, err not_running)
  | some p ↦
      if resize_ok
      then (
        record rt {
          process = some (record p { winsize = (cols, rows) });
          model = tm.resize rt.model cols rows;
        },
        ok tt,
      )
      else (rt, err pty)
]

pub resize :
    (tm : TerminalModel)
    → ShellManager tm.Screen
    → ShellId
    → ℕ
    → ℕ
    → Bool
    → ShellManager tm.Screen × Result (Unit {0}) SessionError
resize tm m id cols rows resize_ok =
    if cols == 0 || rows == 0
    then (m, ok tt)
    else (let (cols', rows') = clamp_dims cols rows in
        with_entry m id (resize_runtime tm cols' rows' resize_ok))

-- `terminate` up to its wait: the shell is `Terminating` and its process killed.
pub kill_runtime : {S : Type 0} → Runtime S → Bool → Runtime S × Result (Unit {0}) SessionError
kill_runtime rt kill_ok =
    let marked = record rt { state = terminating } in
    elim rt.process [
      | none ↦ (marked, ok tt)
      | some p ↦
          if kill_ok
          then (record marked { process = some (record p { killed = true }) }, ok tt)
          else (marked, err pty)
    ]

-- `terminate` after its wait, which ended early exactly if the exit is recorded.
pub reaped_runtime : {S : Type 0} → Runtime S → Runtime S × Result ExitSummary SessionError
reaped_runtime rt = elim rt.exit [
  | none ↦ (rt, err internal)
  | some exit ↦ (record rt { state = exited }, ok exit)
]

-- `meanwhile` is what other threads do to the runtime during the wait.
pub terminate_runtime :
    {S : Type 0}
    → Bool
    → (Runtime S → Runtime S)
    → Runtime S
    → Runtime S × Result ExitSummary SessionError
terminate_runtime kill_ok meanwhile rt = elim rt.exit [
  | some exit ↦ (rt, ok exit)
  | none ↦
      (let (killed, answer) = kill_runtime rt kill_ok in
        elim answer [ err e ↦ (killed, err e) | ok _ ↦ reaped_runtime (meanwhile killed) ])
]

pub terminate :
    {S : Type 0}
    → ShellManager S
    → ShellId
    → Bool
    → (Runtime S → Runtime S)
    → ShellManager S × Result ExitSummary SessionError
terminate m id kill_ok meanwhile = with_entry m id (terminate_runtime kill_ok meanwhile)

-- Never-attached shells idle from creation.
pub idle_anchor_ms : {S : Type 0} → ShellEntry S → ℕ
idle_anchor_ms entry =
    if ltb 0 entry.runtime.last_attached_at_ms
    then entry.runtime.last_attached_at_ms
    else entry.created_at_ms

-- `idle_anchor_ms(..) <= now - ttl`
pub is_expired : {S : Type 0} → ℕ → ℕ → ShellEntry S → Bool
is_expired now ttl entry =
    is_running entry.runtime.state
    && length entry.runtime.attachments == 0
    && leb (idle_anchor_ms entry + ttl) now

-- The loop over the candidates; each is looked at again before it is killed.
pub reap_each :
    {S : Type 0}
    → ℕ
    → ℕ
    → (ShellId → Bool)
    → (ShellId → Runtime S → Runtime S)
    → List (ShellId × ShellEntry S)
    → ShellManager S
    → ShellManager S × List (Bytes × (ShellId × ExitSummary))
reap_each now ttl kill_ok meanwhile [] m = (m, [])
reap_each now ttl kill_ok meanwhile ((id, seen) ∷ rest) m = elim (Map.get m.shells id) [
  | none ↦ reap_each now ttl kill_ok meanwhile rest m
  | some entry ↦ elim (is_expired now ttl entry) [
    | false ↦ reap_each now ttl kill_ok meanwhile rest m
    | true ↦
        (let (m', answer) = terminate m id (kill_ok id) (meanwhile id) in
          let (m'', reaped) = reap_each now ttl kill_ok meanwhile rest m' in
          elim answer [
            | err _ ↦ (m'', reaped)
            | ok exit ↦ (m'', (entry.owner, (id, exit)) ∷ reaped)
          ])
  ]
]

-- `between` is what other threads do between the scan and the kills.
pub reap_idle :
    {S : Type 0}
    → ShellManager S
    → ℕ
    → ℕ
    → (ShellManager S → ShellManager S)
    → (ShellId → Bool)
    → (ShellId → Runtime S → Runtime S)
    → ShellManager S × List (Bytes × (ShellId × ExitSummary))
reap_idle m now ttl between kill_ok meanwhile =
    reap_each now ttl kill_ok meanwhile (retain (λ p. is_expired now ttl p.1) m.shells) (between m)

pub remove_exited :
    {S : Type 0} → ShellManager S → ShellId → ShellManager S × Result (Unit {0}) SessionError
remove_exited m id = elim (Map.get m.shells id) [
  | none ↦ (m, err shell_not_found)
  | some entry ↦ if not (is_exited entry.runtime.state) then (m, err not_running) else (
    record m {
      shells = Map.remove m.shells id;
      idempotency = retain (λ p. not (bytes_eq p.1 id)) m.idempotency;
    },
    ok tt,
  )
]
