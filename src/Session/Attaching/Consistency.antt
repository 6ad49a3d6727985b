-- ===== src/Session/Attaching/Consistency.antt =====
-- Opening a shell and attaching to one keep the manager consistent.
use holdfast.Base.{
  Bool-cases, Option-cases, Bytes, bytes_eq, length, drop, length-append, length-drop, Result,
  Result-cases, ok, ℕ, ◌≤◌, ◌<◌, ◌≡◌, inl, inr, Bool, true, not, List, [], ◌∷◌, arith,
}
use holdfast.Base.Map
use holdfast.Base.Map.{Map, nat_key, bytes_key, pair_key, get-insert, length-insert-le}
use holdfast.Session.Types.{
  ShellId, Token, SessionError, SessionCoreConfig, TerminalModel, Runtime, ShellManager,
  superseded_token_history,
}
use holdfast.Session.Manager.{push_superseded, rotate_token}
use holdfast.Session.Attaching.{
  resize_both, fit_to_client, joined, attach_runtime, attach_with_token, with_owned, attach,
  attach_authorized,
}
use holdfast.Session.Invariant.{Keeps, Keeps-self, IsConsistent, put_runtime-IsConsistent}

length-push_superseded :
    (hashes : List Bytes) (h : Bytes)
    → length hashes ≤ superseded_token_history
    → length (push_superseded hashes h) ≤ superseded_token_history
unfolding push_superseded
length-push_superseded hashes h few = ground (
  arith,
  length-append hashes (h ∷ []),
  length-append (drop 1 hashes) (h ∷ []),
  length-drop 1 hashes,
)

module _ (tm : TerminalModel) (hash : Token → Bytes) where
  open tm use {Screen}

  pub rotate_token-Keeps :
      (limit : ℕ) (rt : Runtime Screen) (token : Token)
      → Keeps limit rt (rotate_token hash rt token)
  unfolding rotate_token
  rotate_token-Keeps limit rt token = record {
    sound = λ s. record {
      remembered = length-push_superseded rt.superseded_token_hashes rt.token_hash s.remembered;
      attached = s.attached;
      recorded = s.recorded;
    };
    stays_exited = λ s e. e;
  }

  -- Fitting a screen changes nothing of what soundness is about.
  fit_to_client-same :
      (rt fitted : Runtime Screen) (cols rows : ℕ) (resize_ok : Bool)
      → fit_to_client tm hash rt cols rows resize_ok ≡ ok fitted
      → (fitted.superseded_token_hashes ≡ rt.superseded_token_hashes)
        × (fitted.attachments ≡ rt.attachments)
        × (fitted.state ≡ rt.state)
        × (fitted.exit ≡ rt.exit)
  unfolding fit_to_client resize_both
  fit_to_client-same rt fitted cols rows resize_ok e = ground (arith, e)

  joined-Keeps :
      (limit : ℕ) (id : ShellId) (rt fitted : Runtime Screen) (cols rows : ℕ) (resize_ok : Bool)
      (token : Token) (now : ℕ)
      → length rt.attachments < limit
      → fit_to_client tm hash rt cols rows resize_ok ≡ ok fitted
      → Keeps limit rt (joined tm hash id fitted token now).0
  unfolding joined rotate_token
  joined-Keeps limit id rt fitted cols rows resize_ok token now room e =
      let same = fit_to_client-same rt fitted cols rows resize_ok e in
      record {
        sound = λ s. record {
          remembered =
              length-push_superseded fitted.superseded_token_hashes fitted.token_hash
                (ground (arith, same.0, s.remembered));
          attached = ground (
            arith,
            same.1,
            room,
            length-insert-le fitted.attachments fitted.next_attachment_id
                (record { queued = []; connected = true }),
          );
          recorded = ground (arith, same.2, s.recorded);
        };
        stays_exited = λ s e. ground (arith, same.2, e);
      }

  attach_runtime-Keeps :
      (config : SessionCoreConfig) (id : ShellId) (rt : Runtime Screen) (cols rows : ℕ)
      (token : Token) (now : ℕ) (resize_ok : Bool)
      → Keeps config.max_attachments_per_shell rt
          (attach_runtime tm hash config id rt cols rows token now resize_ok).0
  unfolding attach_runtime
  attach_runtime-Keeps config id rt cols rows token now resize_ok =
      elim (Result-cases (fit_to_client tm hash rt cols rows resize_ok)) [
        | inl (fitted, f) ↦ ground (
          arith,
          f,
          Keeps-self config.max_attachments_per_shell rt,
          joined-Keeps config.max_attachments_per_shell id rt fitted cols rows resize_ok token now,
        )
        | inr (x, f) ↦ ground (arith, f, Keeps-self config.max_attachments_per_shell rt)
      ]

  attach_with_token-Keeps :
      (config : SessionCoreConfig) (id : ShellId) (rt : Runtime Screen) (presented : Token)
      (cols rows : ℕ) (token : Token) (now : ℕ) (resize_ok : Bool)
      → Keeps config.max_attachments_per_shell rt
          (attach_with_token tm hash config id rt presented cols rows token now resize_ok).0
  unfolding attach_with_token
  attach_with_token-Keeps config id rt presented cols rows token now resize_ok = ground (
    arith,
    Keeps-self config.max_attachments_per_shell rt,
    attach_runtime-Keeps config id rt cols rows token now resize_ok,
  )

  with_owned-IsConsistent :
      {A : Type 0} (m : ShellManager Screen) (owner : Bytes) (id : ShellId)
      (step : Runtime Screen → Runtime Screen × Result A SessionError)
      → ((rt : Runtime Screen) → Keeps m.config.max_attachments_per_shell rt (step rt).0)
      → IsConsistent m
      → IsConsistent (with_owned tm hash m owner id step).0
  unfolding with_owned
  with_owned-IsConsistent m owner id step keeps v = elim (Option-cases (Map.get m.shells id)) [
    | inl gone ↦ rw (gone, with_owned) v
    | inr (entry, found) ↦
        rw (found, with_owned)
          (elim (Bool-cases (not (bytes_eq entry.owner owner))) [
            | inl other ↦ rw other v
            | inr own ↦ rw own (
                put_runtime-IsConsistent m id entry (step entry.runtime).0 v found
                  (keeps entry.runtime))
          ])
  ]

  pub attach-IsConsistent :
      (m : ShellManager Screen) (owner : Bytes) (id : ShellId) (presented : Token) (cols rows : ℕ)
      (token : Token) (now : ℕ) (resize_ok : Bool)
      → IsConsistent m
      → IsConsistent (attach tm hash m owner id presented cols rows token now resize_ok).0
  unfolding attach
  attach-IsConsistent m owner id presented cols rows token now resize_ok =
      with_owned-IsConsistent m owner id
        (λ rt. attach_with_token tm hash m.config id rt presented cols rows token now resize_ok)
        (λ rt. attach_with_token-Keeps m.config id rt presented cols rows token now resize_ok)

  pub attach_authorized-IsConsistent :
      (m : ShellManager Screen) (owner : Bytes) (id : ShellId) (cols rows : ℕ) (token : Token)
      (now : ℕ) (resize_ok : Bool)
      → IsConsistent m
      → IsConsistent (attach_authorized tm hash m owner id cols rows token now resize_ok).0
  unfolding attach_authorized
  attach_authorized-IsConsistent m owner id cols rows token now resize_ok =
      with_owned-IsConsistent m owner id
        (λ rt. attach_runtime tm hash m.config id rt cols rows token now resize_ok)
        (λ rt. attach_runtime-Keeps m.config id rt cols rows token now resize_ok)
