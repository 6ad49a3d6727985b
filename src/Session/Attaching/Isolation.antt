-- ===== src/Session/Attaching/Isolation.antt =====
-- crates/session-core/src/lib.rs: an attach leaves the shells of other owners alone.
use holdfast.Base.{
  Bool-cases, Option-cases, Bytes, bytes_eq, bytes_eq_iff, Result, ℕ, ◌≡◌, inl, inr, Bool, false,
  some, arith,
}
use holdfast.Base.Map
use holdfast.Base.Map.{Map, bytes_key, get-insert}
use holdfast.Session.Types.{
  ShellId, Token, SessionError, TerminalModel, Runtime, ShellEntry, ShellManager,
}
use holdfast.Session.Operations.Isolation.{put_runtime_elsewhere}
use holdfast.Session.Attaching.{attach, with_owned}

module _ (tm : TerminalModel) (hash : Token → Bytes) where
  open tm use {Screen}

  with_owned_others :
      {A : Type 0} (m : ShellManager Screen) (owner : Bytes) (id other : ShellId)
      (entry : ShellEntry Screen) (step : Runtime Screen → Runtime Screen × Result A SessionError)
      → Map.get m.shells other ≡ some entry
      → bytes_eq entry.owner owner ≡ false
      → Map.get (with_owned tm hash m owner id step).0.shells other ≡ some entry
  unfolding with_owned
  with_owned_others m owner id other entry step there foreign =
      elim (Option-cases (Map.get m.shells id)) [
        | inl unknown ↦ ground (arith, unknown, there)
        | inr (found, at) ↦ elim (Bool-cases (bytes_eq id other)) [
          | inl same ↦ ground (arith, at, same, there, foreign, bytes_eq_iff id other)
          | inr apart ↦ ground (
            arith,
            at,
            there,
            put_runtime_elsewhere m id other found (step found.runtime).0 apart,
          )
        ]
      ]

  pub attach_others :
      (m : ShellManager Screen) (owner : Bytes) (id : ShellId) (presented : Token) (cols rows : ℕ)
      (token : Token) (now : ℕ) (resize_ok : Bool) (other : ShellId) (entry : ShellEntry Screen)
      → Map.get m.shells other ≡ some entry
      → bytes_eq entry.owner owner ≡ false
      → Map.get (attach tm hash m owner id presented cols rows token now resize_ok).0.shells other
        ≡ some entry
  unfolding attach
  attach_others m owner id presented cols rows token now resize_ok other entry there foreign =
      with_owned_others m owner id other entry _ there foreign
