-- ===== src/Session/Attaching/Tokens.antt =====
-- A resume token attaches once.
use holdfast.Base.{
  if◌then◌else◌, Option-cases, Bytes, bytes_eq, bytes_eq_iff, drop, any, Result-cases, ok, err, ℕ,
  ◌≡◌, ◌≢◌, inl, inr, Bool, true, some, List, [], ◌∷◌, ◌++◌, arith,
}
use holdfast.Base.Map
use holdfast.Base.Map.{get-insert, beq_self, Map, nat_key, bytes_key, pair_key}
use holdfast.Session.Types.{
  ShellId, Token, SessionCoreConfig, TerminalModel, Runtime, ShellEntry, ShellManager, Attachment,
  token_replayed, shell_not_found,
}
use holdfast.Session.Manager.{put_runtime, push_superseded, rotate_token, is_superseded}
use holdfast.Session.Attaching.{
  resize_both, fit_to_client, joined, attach_runtime, attach_with_token, with_owned, attach,
}

any-append_one :
    (hashes : List Bytes) (h : Bytes) → any (λ x. bytes_eq x h) (hashes ++ h ∷ []) ≡ true
any-append_one [] h = ground (arith, bytes_eq_iff h h)
any-append_one (x ∷ xs) h = ground (arith, any-append_one xs h)

module _ (tm : TerminalModel) (hash : Token → Bytes) where
  open tm use {Screen}

  fit_to_client-tokens :
      (rt fitted : Runtime Screen) (cols rows : ℕ) (resize_ok : Bool)
      → fit_to_client tm hash rt cols rows resize_ok ≡ ok fitted
      → (fitted.token_hash ≡ rt.token_hash)
        × (fitted.superseded_token_hashes ≡ rt.superseded_token_hashes)
  unfolding fit_to_client resize_both
  fit_to_client-tokens rt fitted cols rows resize_ok e = ground (arith, e)

  -- After an attachment the token presented is a superseded one.
  attach_runtime-rotated :
      (config : SessionCoreConfig) (id : ShellId) (rt : Runtime Screen) (cols rows : ℕ)
      (token : Token) (now : ℕ) (resize_ok : Bool) (a : Attachment)
      → (attach_runtime tm hash config id rt cols rows token now resize_ok).1 ≡ ok a
      → ((attach_runtime tm hash config id rt cols rows token now resize_ok).0.token_hash
          ≡ hash token)
        × (any
              (λ x. bytes_eq x rt.token_hash)
              (attach_runtime tm hash config id rt cols rows token now
                resize_ok).0.superseded_token_hashes
            ≡ true)
  unfolding attach_runtime joined rotate_token push_superseded
  attach_runtime-rotated config id rt cols rows token now resize_ok a e =
      elim (Result-cases (fit_to_client tm hash rt cols rows resize_ok)) [
        | inl (fitted, f) ↦
            let kept = fit_to_client-tokens rt fitted cols rows resize_ok f in
            let found : any (λ x. bytes_eq x rt.token_hash)
                  (push_superseded fitted.superseded_token_hashes fitted.token_hash)
                ≡ true =
              rw kept.0 (
                ground (
                  arith,
                  any-append_one fitted.superseded_token_hashes rt.token_hash,
                  any-append_one (drop 1 fitted.superseded_token_hashes) rt.token_hash,
                )) in
            ground (arith, e, f, found)
        | inr (x, f) ↦ ground (arith, e, f)
      ]

  -- An attachment with a token makes that token a replayed one: the next attachment with it, with any size, is
  -- refused, for the owner as a replay and for anybody else as an unknown shell, as long as the new token's
  -- hash is another.
  pub attach_once :
      (m : ShellManager Screen) (owner : Bytes) (id : ShellId) (presented : Token) (cols rows : ℕ)
      (token : Token) (now : ℕ) (resize_ok : Bool) (a : Attachment) (user' : Bytes)
      (cols' rows' : ℕ) (token' : Token) (now' : ℕ) (resize_ok' : Bool)
      → hash token ≢ hash presented
      → (attach tm hash m owner id presented cols rows token now resize_ok).1 ≡ ok a
      → (let m' = (attach tm hash m owner id presented cols rows token now resize_ok).0 in
          (attach tm hash m' user' id presented cols' rows' token' now' resize_ok').1
          ≡ err (if bytes_eq owner user' then token_replayed else shell_not_found))
  unfolding attach with_owned attach_with_token is_superseded put_runtime
  attach_once m owner id presented cols rows token now resize_ok a user' cols' rows' token' now'
        resize_ok' ne e =
      elim (Option-cases (Map.get m.shells id)) [
        | inl gone ↦ ground (arith, e, gone)
        | inr (entry, found) ↦
            let rt = entry.runtime in
            let rt' = (attach_runtime tm hash m.config id rt cols rows token now resize_ok).0 in
            let entry' : ShellEntry Screen = record entry { runtime = rt' } in
            let again : Map.get (Map.insert m.shells id entry') id ≡ some entry' =
              ground (arith, get-insert m.shells id entry' id, beq_self id) in
            ground (
              arith,
              e,
              found,
              bytes_eq_iff entry.owner owner,
              ne,
              bytes_eq_iff rt.token_hash (hash presented),
              bytes_eq_iff (hash token) (hash presented),
              attach_runtime-rotated m.config id rt cols rows token now resize_ok a,
              again,
            )
      ]
