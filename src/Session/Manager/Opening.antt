-- ===== src/Session/Manager/Opening.antt =====
-- Opening a shell keeps the manager consistent.
use holdfast.Base.{
  Bool-cases, Option-cases, Bytes, bytes_eq, bytes_eq_iff, length, Result-cases, ok, ℕ, ◌<◌, ◌≡◌,
  refl, ◌≢◌, ◌⊎◌, inl, inr, false, Option, none, some, arith,
}
use holdfast.Base.Map
use holdfast.Base.Map.{
  Map, nat_key, bytes_key, pair_key, length-insert_known, get-insert, beq_self, Eq, pair_eq,
  pair_eq_iff,
}
use holdfast.Base.Map.Unique.{IsUnique-insert}
use holdfast.Session.Types.{
  ShellId, Token, SessionCoreConfig, TerminalModel, PtyProcess, ShellEntry, ShellManager,
  OpenShellRequest, OpenedShell, is_exited,
}
use holdfast.Session.Manager.{
  Start, is_live, live_shells, rotate_token, over_limit, new_runtime, open_dims, register, open_new,
  existing_shell, open_shell, spawner_target,
}
use holdfast.Session.Attaching.Consistency.{rotate_token-Keeps}
use holdfast.Session.Invariant.{
  IsSound, IsConsistent, put_runtime-IsConsistent, length-retain-insert,
}

module _ (tm : TerminalModel) (hash : Token → Bytes) where
  open tm use {Screen}

  new_runtime-IsSound :
      (limit : ℕ) (config : SessionCoreConfig) (process : PtyProcess) (token : Token) (dims : ℕ × ℕ)
      → IsSound limit (new_runtime tm hash config process token dims)
  unfolding new_runtime is_exited
  new_runtime-IsSound limit config process token dims = record {
    remembered = omega arith;
    attached = omega arith;
    recorded = ground arith;
  }

  register-scoped :
      (m : ShellManager Screen) (req : OpenShellRequest) (id : ShellId) (entry : ShellEntry Screen)
      (user key : Bytes) (id' : ShellId)
      → IsConsistent m
      → Map.get m.shells id ≡ none
      → entry.owner ≡ req.user
      → Map.get (Map.insert m.idempotency (req.user, req.idempotency_key) id) (user, key) ≡ some id'
      → (e : ShellEntry Screen) × (Map.get (Map.insert m.shells id entry) id' ≡ some e)
        × (e.owner ≡ user)
  register-scoped m req id entry user key id' v fresh own h =
      let at = get-insert m.idempotency (req.user, req.idempotency_key) id (user, key) in
      elim (Bool-cases (pair_eq (req.user, req.idempotency_key) (user, key))) [
        | inl same ↦
            let here : id ≡ id' = ground (arith, same, h, at) in
            (
              entry,
              ground (arith, here, beq_self id', get-insert m.shells id entry id'),
              ground (arith, own, bytes_eq_iff req.user user, same),
            )
        | inr other ↦
            let before : Map.get m.idempotency (user, key) ≡ some id' =
              ground (arith, other, h, at) in
            let (e, found, o) = v.scoped user key id' before in
            let differs : bytes_eq id id' ≡ false =
              ground (arith, fresh, found, bytes_eq_iff id id') in
            (e, ground (arith, differs, found, get-insert m.shells id entry id'), o)
      ]

  register-IsConsistent :
      (m : ShellManager Screen) (req : OpenShellRequest) (account : Option Bytes) (token : Token)
      (id : ShellId) (now : ℕ) (process : PtyProcess)
      → IsConsistent m
      → Map.get m.shells id ≡ none
      → length (live_shells m) < m.config.max_shells
      → IsConsistent (register tm hash m req account token id now process).0
  unfolding register live_shells is_live
  register-IsConsistent m req account token id now process v fresh room =
      let entry : ShellEntry Screen = record {
        id = id;
        created_at_ms = now;
        owner = req.user;
        account = account;
        runtime = new_runtime tm hash m.config process token (open_dims tm hash req);
      } in
      record {
        sound = λ id' seen h. elim (Bool-cases (bytes_eq id id')) [
          | inl same ↦
              let at : seen ≡ entry = ground (arith, same, h, get-insert m.shells id entry id') in
              rw at (
                new_runtime-IsSound m.config.max_attachments_per_shell m.config process token
                  (open_dims tm hash req))
          | inr other ↦
              v.sound id' seen (ground (arith, other, h, get-insert m.shells id entry id'))
        ];
        few = omega (arith, room, length-retain-insert is_live m.shells id entry);
        scoped = λ user key id' h. register-scoped m req id entry user key id' v fresh refl h;
        unique = IsUnique-insert m.idempotency (req.user, req.idempotency_key) id v.unique;
      }

  over_limit-room :
      (m : ShellManager Screen) (user : Bytes) (x : Unit {0})
      → over_limit tm hash m user ≡ ok x
      → length (live_shells m) < m.config.max_shells
  unfolding over_limit
  over_limit-room m user x e = ground (arith, e)

  -- What an open that is not a retry does: nothing, or it registers the shell.
  pub open_new-cases :
      (m : ShellManager Screen) (req : OpenShellRequest) (token : Token) (id : ShellId) (now : ℕ)
      (start : Start)
      → ((open_new tm hash m req token id now start).0 ≡ m)
          × ((opened : OpenedShell) → (open_new tm hash m req token id now start).1 ≢ ok opened)
        ⊎ ((account : Option Bytes) × (p : PtyProcess) × (open_new tm hash m req token id now start
              ≡ register tm hash m req account token id now p)
            × (length (live_shells m) < m.config.max_shells))
  unfolding open_new
  open_new-cases m req token id now start =
      elim (Result-cases (m.policy req.user req.requested_account)) [
        | inr (e, denied) ↦ inl (ground (arith, denied), λ o h. ground (arith, denied, h))
        | inl (account, allowed) ↦ elim (Result-cases (over_limit tm hash m req.user)) [
          | inr (e, full) ↦
              inl (ground (arith, allowed, full), λ o h. ground (arith, allowed, full, h))
          | inl (x, room) ↦
              elim (Result-cases
                (start (spawner_target m.config account) account req (open_dims tm hash req))) [
                  | inr (e, failed) ↦ inl (
                    ground (arith, allowed, room, failed),
                    λ o h. ground (arith, allowed, room, failed, h),
                  )
                  | inl (p, started) ↦ inr (
                    account,
                    p,
                    ground (arith, allowed, room, started),
                    over_limit-room m req.user x room,
                  )
                ]
        ]
      ]

  open_new-IsConsistent :
      (m : ShellManager Screen) (req : OpenShellRequest) (token : Token) (id : ShellId) (now : ℕ)
      (start : Start)
      → IsConsistent m
      → Map.get m.shells id ≡ none
      → IsConsistent (open_new tm hash m req token id now start).0
  open_new-IsConsistent m req token id now start v fresh =
      elim (open_new-cases m req token id now start) [
        | inl (same, _) ↦ rw same v
        | inr (account, p, made, room) ↦
            rw made (register-IsConsistent m req account token id now p v fresh room)
      ]

  pub open_shell-IsConsistent :
      (m : ShellManager Screen) (req : OpenShellRequest) (token : Token) (id : ShellId) (now : ℕ)
      (start : Start)
      → IsConsistent m
      → Map.get m.shells id ≡ none
      → IsConsistent (open_shell tm hash m req token id now start).0
  unfolding open_shell existing_shell
  open_shell-IsConsistent m req token id now start v fresh =
      elim (Option-cases (Map.get m.idempotency (req.user, req.idempotency_key))) [
        | inl unknown ↦
            rw (unknown, open_shell, existing_shell)
              (open_new-IsConsistent m req token id now start v fresh)
        | inr (id', known) ↦ elim (Option-cases (Map.get m.shells id')) [
          | inl gone ↦
              rw (known, gone, open_shell, existing_shell)
                (open_new-IsConsistent m req token id now start v fresh)
          | inr (entry, found) ↦
              let keeps =
                rotate_token-Keeps tm hash m.config.max_attachments_per_shell entry.runtime token in
              rw (known, found, open_shell, existing_shell)
                (put_runtime-IsConsistent m id' entry (rotate_token hash entry.runtime token) v
                  found keeps)
        ]
      ]
