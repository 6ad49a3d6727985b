-- ===== src/Session/Manager/Isolation.antt =====
-- crates/session-core/src/lib.rs: opening a shell leaves the shells of other owners alone.
use holdfast.Base.{
  Bool-cases, Option-cases, Bytes, bytes_eq, bytes_eq_iff, Result-cases, ℕ, ◌≡◌, ◌∙◌, inl, inr,
  false, Option, none, some, arith,
}
use holdfast.Base.Map
use holdfast.Base.Map.{Map, bytes_key, pair_key, get-insert}
use holdfast.Session.Types.{
  ShellId, Token, TerminalModel, PtyProcess, ShellEntry, ShellManager, OpenShellRequest,
}
use holdfast.Session.Invariant.{IsConsistent}
use holdfast.Session.Operations.Isolation.{put_runtime_elsewhere}
use holdfast.Session.Manager.{
  Start, rotate_token, over_limit, spawner_target, existing_shell, new_runtime, open_dims, register,
  open_new, open_shell,
}

module _ (tm : TerminalModel) (hash : Token → Bytes) where
  open tm use {Screen}

  register_others :
      (m : ShellManager Screen) (req : OpenShellRequest) (account : Option Bytes) (token : Token)
      (id : ShellId) (now : ℕ) (process : PtyProcess) (other : ShellId) (entry : ShellEntry Screen)
      → Map.get m.shells id ≡ none
      → Map.get m.shells other ≡ some entry
      → Map.get (register tm hash m req account token id now process).0.shells other ≡ some entry
  unfolding register
  register_others m req account token id now process other entry fresh there =
      let added : ShellEntry Screen = record {
        id = id;
        created_at_ms = now;
        owner = req.user;
        account = account;
        runtime = new_runtime tm hash m.config process token (open_dims tm hash req);
      } in
      elim (Bool-cases (bytes_eq id other)) [
        | inl same ↦ absurd (ground (arith, same, bytes_eq_iff id other, fresh, there))
        | inr apart ↦ get-insert m.shells id added other ∙ ground (arith, apart, there)
      ]

  open_new_others :
      (m : ShellManager Screen) (req : OpenShellRequest) (token : Token) (id : ShellId) (now : ℕ)
      (start : Start) (other : ShellId) (entry : ShellEntry Screen)
      → Map.get m.shells id ≡ none
      → Map.get m.shells other ≡ some entry
      → Map.get (open_new tm hash m req token id now start).0.shells other ≡ some entry
  unfolding open_new
  open_new_others m req token id now start other entry fresh there =
      elim (Result-cases (m.policy req.user req.requested_account)) [
        | inr (e, denied) ↦ ground (arith, denied, there)
        | inl (account, allowed) ↦ elim (Result-cases (over_limit tm hash m req.user)) [
          | inr (e, full) ↦ ground (arith, allowed, full, there)
          | inl (_, room) ↦
              elim (Result-cases
                (start (spawner_target m.config account) account req (open_dims tm hash req))) [
                  | inr (e, failed) ↦ ground (arith, allowed, room, failed, there)
                  | inl (process, started) ↦ ground (
                    arith,
                    allowed,
                    room,
                    started,
                    register_others m req account token id now process other entry fresh there,
                  )
                ]
        ]
      ]

  -- A retry rotates the token of the user's own shell only.
  pub open_shell_others :
      (m : ShellManager Screen) (req : OpenShellRequest) (token : Token) (id : ShellId) (now : ℕ)
      (start : Start) (other : ShellId) (entry : ShellEntry Screen)
      → IsConsistent m
      → Map.get m.shells id ≡ none
      → Map.get m.shells other ≡ some entry
      → bytes_eq entry.owner req.user ≡ false
      → Map.get (open_shell tm hash m req token id now start).0.shells other ≡ some entry
  unfolding open_shell existing_shell
  open_shell_others m req token id now start other entry v fresh there foreign =
      elim (Option-cases (Map.get m.idempotency (req.user, req.idempotency_key))) [
        | inl first ↦
            ground (arith, first, open_new_others m req token id now start other entry fresh there)
        | inr (known, found) ↦
            (let s = v.scoped req.user req.idempotency_key known found in
              let apart : bytes_eq known other ≡ false = ground (
                arith,
                s.1,
                s.2,
                there,
                foreign,
                bytes_eq_iff known other,
                bytes_eq_iff entry.owner req.user,
              ) in
              ground (
                arith,
                found,
                s.1,
                there,
                put_runtime_elsewhere m known other s.0 (rotate_token hash s.0.runtime token) apart,
              ))
      ]
