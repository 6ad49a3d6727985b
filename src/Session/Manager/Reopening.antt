-- ===== src/Session/Manager/Reopening.antt =====
-- Opening a shell again with the same key finds it.
use holdfast.Base.{
  Bytes, length, ok, ℕ, ◌≡◌, refl, sym, ap, ◌∙◌, inl, inr, true, Option, none, some, arith,
}
use holdfast.Base.Map
use holdfast.Base.Map.{
  Map, nat_key, bytes_key, pair_key, length-insert_known, get-insert, beq_self, Eq, pair_eq,
  pair_eq_iff,
}
use holdfast.Session.Types.{
  ShellId, Token, TerminalModel, PtyProcess, ShellEntry, ShellManager, OpenShellRequest,
  OpenedShell,
}
use holdfast.Session.Manager.{
  Start, put_runtime, rotate_token, new_runtime, open_dims, register, open_new, existing_shell,
  open_shell,
}
use holdfast.Session.Manager.Opening.{open_new-cases}

module _ (tm : TerminalModel) (hash : Token → Bytes) where
  open tm use {Screen}

  -- A shell that is registered under a user's key.
  record IsRegistered (m : ShellManager Screen) (user key : Bytes) (id : ShellId) : Type 0 where
    known : Map.get m.idempotency (user, key) ≡ some id
    entry : ShellEntry Screen
    found : Map.get m.shells id ≡ some entry
    id_same : entry.id ≡ id

  register-IsRegistered :
      (m : ShellManager Screen) (req : OpenShellRequest) (account : Option Bytes) (token : Token)
      (id : ShellId) (now : ℕ) (p : PtyProcess)
      → IsRegistered
          (register tm hash m req account token id now p).0
          req.user
          req.idempotency_key
          id
  unfolding register
  register-IsRegistered m req account token id now p =
      let entry : ShellEntry Screen = record {
        id = id;
        created_at_ms = now;
        owner = req.user;
        account = account;
        runtime = new_runtime tm hash m.config p token (open_dims tm hash req);
      } in
      record {
        known = ground (
          arith,
          get-insert m.idempotency (req.user, req.idempotency_key) id
              (req.user, req.idempotency_key),
          beq_self {K = Bytes × Bytes} (req.user, req.idempotency_key),
        );
        entry = entry;
        found = ground (arith, get-insert m.shells id entry id, beq_self id);
        id_same = refl;
      }

  open_shell-known :
      (m : ShellManager Screen) (again : OpenShellRequest) (token : Token) (id id' : ShellId)
      (now : ℕ) (start : Start)
      → IsRegistered m again.user again.idempotency_key id
      → ((open_shell tm hash m again token id' now start).1
          ≡ ok (record { shell_id = id; resume_token = token; reused = true }))
        × (length (open_shell tm hash m again token id' now start).0.shells ≡ length m.shells)
  unfolding open_shell existing_shell put_runtime
  open_shell-known m again token id id' now start r =
      let entry' : ShellEntry Screen = record r.entry {
        runtime = rotate_token hash r.entry.runtime token;
      } in
      (
        ground (arith, r.known, r.found, r.id_same),
        ground (
          arith,
          r.known,
          r.found,
          length-insert_known m.shells id entry' (λ gone. ground (arith, gone, r.found)),
        ),
      )

  open_shell-first :
      (m : ShellManager Screen) (req : OpenShellRequest) (token : Token) (id : ShellId) (now : ℕ)
      (start : Start)
      → existing_shell tm hash m req ≡ none
      → open_shell tm hash m req token id now start ≡ open_new tm hash m req token id now start
  unfolding open_shell
  open_shell-first m req token id now start first = rw (first, open_shell) refl

  registered_id :
      (m : ShellManager Screen) (req : OpenShellRequest) (account : Option Bytes) (token : Token)
      (id : ShellId) (now : ℕ) (p : PtyProcess) (opened : OpenedShell)
      → (register tm hash m req account token id now p).1 ≡ ok opened
      → id ≡ opened.shell_id
  unfolding register
  registered_id m req account token id now p opened e = ground (arith, e)

  -- A request that opened a new shell opens it only once: repeated with the same user and key, whatever
  -- else it asks for, it returns the same shell, makes none, and hands out the new token.
  pub open_shell_idempotent :
      (m : ShellManager Screen) (req : OpenShellRequest) (token : Token) (id : ShellId) (now : ℕ)
      (start : Start) (opened : OpenedShell) (again : OpenShellRequest) (token' : Token)
      (id' : ShellId) (now' : ℕ) (start' : Start)
      → again.user ≡ req.user
      → again.idempotency_key ≡ req.idempotency_key
      → existing_shell tm hash m req ≡ none
      → (open_shell tm hash m req token id now start).1 ≡ ok opened
      → (let m' = (open_shell tm hash m req token id now start).0 in
          ((open_shell tm hash m' again token' id' now' start').1
            ≡ ok (record { shell_id = opened.shell_id; resume_token = token'; reused = true }))
          × (length (open_shell tm hash m' again token' id' now' start').0.shells
              ≡ length m'.shells))
  open_shell_idempotent m req token id now start opened again token' id' now' start' same_user
        same_key first e =
      let direct : open_shell tm hash m req token id now start
          ≡ open_new tm hash m req token id now start =
        open_shell-first m req token id now start first in
      elim (open_new-cases tm hash m req token id now start) [
        | inl (_, failed) ↦ absurd (failed opened (ap (λ r. r.1) (sym direct) ∙ e))
        | inr (account, p, made, room) ↦
            let done = direct ∙ made in
            let m' = (register tm hash m req account token id now p).0 in
            let answer : id ≡ opened.shell_id =
              registered_id m req account token id now p opened (ap (λ r. r.1) (sym done) ∙ e) in
            let r : IsRegistered m' again.user again.idempotency_key id =
              rw (same_user, same_key) (register-IsRegistered m req account token id now p) in
            rw (done, sym answer) (open_shell-known m' again token' id id' now' start' r)
      ]
