-- ===== src/Session/Operations/Consistency.antt =====
-- The operations on a shell that is already there keep the manager consistent.
use holdfast.Base.{
  ◌==◌, Bool-cases, Option-cases, Bytes, bytes_eq, bytes_eq_iff, retain, Result, Result-cases, ok,
  ℕ, ◌≡◌, inl, inr, Bool, false, not, ◌||◌, none, some, arith,
}
use holdfast.Base.Map
use holdfast.Base.Map.{Map, nat_key, bytes_key, pair_key, get-insert, get-remove, length-remove-le}
use holdfast.Base.Map.Unique.{IsUnique-retain, get-retain}
use holdfast.Session.Types.{ShellId, SessionError, TerminalModel, Runtime, ShellManager, is_exited}
use holdfast.Session.Manager.{live_shells, is_live, clamp_dims}
use holdfast.Session.Operations.{
  with_entry, detach, write_runtime, write_input, resize_runtime, resize, kill_runtime,
  reaped_runtime, terminate_runtime, terminate, remove_exited,
}
use holdfast.Session.Invariant.{
  Keeps, Keeps-self, IsConsistent, put_runtime-IsConsistent, length-retain-remove,
}

module _ {S : Type 0} where
  with_entry-IsConsistent :
      {A : Type 0} (m : ShellManager S) (id : ShellId)
      (step : Runtime S → Runtime S × Result A SessionError)
      → ((rt : Runtime S) → Keeps m.config.max_attachments_per_shell rt (step rt).0)
      → IsConsistent m
      → IsConsistent (with_entry m id step).0
  unfolding with_entry
  with_entry-IsConsistent m id step keeps v = elim (Option-cases (Map.get m.shells id)) [
    | inl gone ↦ rw (gone, with_entry) v
    | inr (entry, found) ↦
        rw (found, with_entry)
          (put_runtime-IsConsistent m id entry (step entry.runtime).0 v found (keeps entry.runtime))
  ]

  pub detach_runtime-Keeps :
      (limit attachment_id : ℕ) (rt : Runtime S)
      → Keeps limit rt (record rt { attachments = Map.remove rt.attachments attachment_id })
  detach_runtime-Keeps limit attachment_id rt = record {
    sound = λ s. record {
      remembered = s.remembered;
      attached = omega (arith, s.attached, length-remove-le rt.attachments attachment_id);
      recorded = s.recorded;
    };
    stays_exited = λ s e. e;
  }

  pub detach-IsConsistent :
      (m : ShellManager S) (id : ShellId) (attachment_id : ℕ)
      → IsConsistent m
      → IsConsistent (detach m id attachment_id).0
  unfolding detach
  detach-IsConsistent m id attachment_id =
      with_entry-IsConsistent m id
        (λ rt. (record rt { attachments = Map.remove rt.attachments attachment_id }, ok tt))
        (detach_runtime-Keeps m.config.max_attachments_per_shell attachment_id)

  -- A step that changes neither the tokens, the attachments, the state nor the exit.
  unchanged-Keeps :
      (limit : ℕ) (rt rt' : Runtime S)
      → rt'.superseded_token_hashes ≡ rt.superseded_token_hashes
      → rt'.attachments ≡ rt.attachments
      → rt'.state ≡ rt.state
      → rt'.exit ≡ rt.exit
      → Keeps limit rt rt'
  unchanged-Keeps limit rt rt' a b c d = record {
    sound = λ s. record {
      remembered = rw a s.remembered;
      attached = rw b s.attached;
      recorded = rw (c, d) s.recorded;
    };
    stays_exited = λ s e. rw c e;
  }

  pub write_runtime-Keeps :
      (limit : ℕ) (write : Bytes → Bytes × Bool) (bytes : Bytes) (rt : Runtime S)
      → Keeps limit rt (write_runtime write bytes rt).0
  unfolding write_runtime
  write_runtime-Keeps limit write bytes rt =
      unchanged-Keeps limit rt (write_runtime write bytes rt).0 (ground arith) (ground arith)
        (ground arith) (ground arith)

  pub write_input-IsConsistent :
      (write : Bytes → Bytes × Bool) (m : ShellManager S) (id : ShellId) (bytes : Bytes)
      → IsConsistent m
      → IsConsistent (write_input write m id bytes).0
  unfolding write_input
  write_input-IsConsistent write m id bytes =
      with_entry-IsConsistent m id (write_runtime write bytes)
        (write_runtime-Keeps m.config.max_attachments_per_shell write bytes)

  -- Marking a shell whose exit is not recorded.
  pub kill_runtime-Keeps :
      (limit : ℕ) (rt : Runtime S) (kill_ok : Bool)
      → rt.exit ≡ none
      → Keeps limit rt (kill_runtime rt kill_ok).0
  unfolding kill_runtime is_exited
  kill_runtime-Keeps limit rt kill_ok no_exit = record {
    sound = λ s. record {
      remembered = ground (arith, s.remembered);
      attached = ground (arith, s.attached);
      recorded = ground arith;
    };
    stays_exited = λ s e. absurd (s.recorded e no_exit);
  }

  pub reaped_runtime-Keeps : (limit : ℕ) (rt : Runtime S) → Keeps limit rt (reaped_runtime rt).0
  unfolding reaped_runtime is_exited
  reaped_runtime-Keeps limit rt = record {
    sound = λ s. record {
      remembered = ground (arith, s.remembered);
      attached = ground (arith, s.attached);
      recorded = ground (arith, s.recorded);
    };
    stays_exited = λ s e. ground (arith, e);
  }

  pub Keeps-then :
      (limit : ℕ) (a b c : Runtime S) → Keeps limit a b → Keeps limit b c → Keeps limit a c
  Keeps-then limit a b c f g = record {
    sound = λ s. g.sound (f.sound s);
    stays_exited = λ s e. g.stays_exited (f.sound s) (f.stays_exited s e);
  }

  terminate_runtime-Keeps :
      (limit : ℕ) (kill_ok : Bool) (meanwhile : Runtime S → Runtime S)
      → ((rt : Runtime S) → Keeps limit rt (meanwhile rt))
      → (rt : Runtime S) → Keeps limit rt (terminate_runtime kill_ok meanwhile rt).0
  unfolding terminate_runtime
  terminate_runtime-Keeps limit kill_ok meanwhile others rt = elim (Option-cases rt.exit) [
    | inr (exit, e) ↦
        let at : (terminate_runtime kill_ok meanwhile rt).0 ≡ rt = ground (arith, e) in
        rw at (Keeps-self limit rt)
    | inl no_exit ↦
        let killed = (kill_runtime rt kill_ok).0 in
        let k = kill_runtime-Keeps limit rt kill_ok no_exit in
        let k' =
          Keeps-then limit killed (meanwhile killed) (reaped_runtime (meanwhile killed)).0
            (others killed) (reaped_runtime-Keeps limit (meanwhile killed)) in
        elim (Result-cases (kill_runtime rt kill_ok).1) [
          | inr (x, e) ↦
              let at : (terminate_runtime kill_ok meanwhile rt).0 ≡ killed =
                ground (arith, no_exit, e) in
              rw at k
          | inl (x, e) ↦
              let at : (terminate_runtime kill_ok meanwhile rt).0
                  ≡ (reaped_runtime (meanwhile killed)).0 =
                ground (arith, no_exit, e) in
              rw at (Keeps-then limit rt killed (reaped_runtime (meanwhile killed)).0 k k')
        ]
  ]

  pub terminate-IsConsistent :
      (m : ShellManager S) (id : ShellId) (kill_ok : Bool) (meanwhile : Runtime S → Runtime S)
      → ((rt : Runtime S) → Keeps m.config.max_attachments_per_shell rt (meanwhile rt))
      → IsConsistent m
      → IsConsistent (terminate m id kill_ok meanwhile).0
  unfolding terminate
  terminate-IsConsistent m id kill_ok meanwhile others =
      with_entry-IsConsistent m id (terminate_runtime kill_ok meanwhile)
        (terminate_runtime-Keeps m.config.max_attachments_per_shell kill_ok meanwhile others)

  removed-IsConsistent :
      (m : ShellManager S) (id : ShellId)
      → IsConsistent m
      → IsConsistent (record m {
        shells = Map.remove m.shells id;
        idempotency = retain (λ p. not (bytes_eq p.1 id)) m.idempotency;
      })
  unfolding live_shells
  removed-IsConsistent m id v = record {
    sound = λ id' seen h. v.sound id' seen (ground (arith, h, get-remove m.shells id id'));
    few = omega (arith, v.few, length-retain-remove is_live m.shells id);
    scoped = λ user key id' h.
        let at = get-retain (λ p. not (bytes_eq p.1 id)) m.idempotency (user, key) v.unique in
        let before : Map.get m.idempotency (user, key) ≡ some id' = ground (arith, h, at) in
        let differs : bytes_eq id' id ≡ false = ground (arith, h, at) in
        let (entry, found, own) = v.scoped user key id' before in
        (
          entry,
          ground (
            arith,
            found,
            differs,
            bytes_eq_iff id id',
            bytes_eq_iff id' id,
            get-remove m.shells id id',
          ),
          own,
        );
    unique = IsUnique-retain (λ p. not (bytes_eq p.1 id)) m.idempotency v.unique;
  }

  pub remove_exited-IsConsistent :
      (m : ShellManager S) (id : ShellId) → IsConsistent m → IsConsistent (remove_exited m id).0
  unfolding remove_exited live_shells
  remove_exited-IsConsistent m id v = elim (Option-cases (Map.get m.shells id)) [
    | inl gone ↦ rw (gone, remove_exited) v
    | inr (entry, found) ↦
        rw (found, remove_exited)
          (elim (Bool-cases (not (is_exited entry.runtime.state))) [
            | inl live ↦ rw live v
            | inr over ↦ rw over (removed-IsConsistent m id v)
          ])
  ]

module _ (tm : TerminalModel) where
  pub resize_runtime-Keeps :
      (limit cols rows : ℕ) (resize_ok : Bool) (rt : Runtime tm.Screen)
      → Keeps limit rt (resize_runtime tm cols rows resize_ok rt).0
  unfolding resize_runtime
  resize_runtime-Keeps limit cols rows resize_ok rt =
      unchanged-Keeps limit rt (resize_runtime tm cols rows resize_ok rt).0 (ground arith)
        (ground arith) (ground arith) (ground arith)

  pub resize-IsConsistent :
      (m : ShellManager tm.Screen) (id : ShellId) (cols rows : ℕ) (resize_ok : Bool)
      → IsConsistent m
      → IsConsistent (resize tm m id cols rows resize_ok).0
  unfolding resize
  resize-IsConsistent m id cols rows resize_ok v = elim (Bool-cases (cols == 0 || rows == 0)) [
    | inl keep ↦ rw (keep, resize) v
    | inr other ↦
        let (cols', rows') = clamp_dims cols rows in
        rw (other, resize)
          (with_entry-IsConsistent m id (resize_runtime tm cols' rows' resize_ok)
            (resize_runtime-Keeps m.config.max_attachments_per_shell cols' rows' resize_ok) v)
  ]
