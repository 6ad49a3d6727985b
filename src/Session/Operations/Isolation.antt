-- ===== src/Session/Operations/Isolation.antt =====
-- crates/session-core/src/lib.rs: a method on one shell leaves the others alone.
use holdfast.Base.{
  ◌==◌, Bool-cases, Option-cases, Bytes, bytes_eq, Result, ℕ, ◌≡◌, inl, inr, Bool, false, ◌||◌,
  arith,
}
use holdfast.Base.Map
use holdfast.Base.Map.{Map, bytes_key, get-insert}
use holdfast.Session.Types.{ShellId, SessionError, TerminalModel, Runtime, ShellEntry, ShellManager}
use holdfast.Session.Manager.{put_runtime}
use holdfast.Session.Operations.{with_entry, detach, write_input, resize, terminate}

module _ {S : Type 0} (m : ShellManager S) (id other : ShellId) where
  pub put_runtime_elsewhere :
      (entry : ShellEntry S) (rt : Runtime S)
      → bytes_eq id other ≡ false
      → Map.get (put_runtime m id entry rt).shells other ≡ Map.get m.shells other
  unfolding put_runtime
  put_runtime_elsewhere entry rt apart =
      ground (arith, apart, get-insert m.shells id (record entry { runtime = rt }) other)

  with_entry_elsewhere :
      {A : Type 0} (step : Runtime S → Runtime S × Result A SessionError)
      → bytes_eq id other ≡ false
      → Map.get (with_entry m id step).0.shells other ≡ Map.get m.shells other
  unfolding with_entry
  with_entry_elsewhere step apart = elim (Option-cases (Map.get m.shells id)) [
    | inl unknown ↦ ground (arith, unknown)
    | inr (entry, found) ↦
        ground (arith, found, put_runtime_elsewhere entry (step entry.runtime).0 apart)
  ]

  pub detach_elsewhere :
      (attachment_id : ℕ)
      → bytes_eq id other ≡ false
      → Map.get (detach m id attachment_id).0.shells other ≡ Map.get m.shells other
  unfolding detach
  detach_elsewhere attachment_id apart = with_entry_elsewhere _ apart

  pub write_input_elsewhere :
      (write : Bytes → Bytes × Bool) (bytes : Bytes)
      → bytes_eq id other ≡ false
      → Map.get (write_input write m id bytes).0.shells other ≡ Map.get m.shells other
  unfolding write_input
  write_input_elsewhere write bytes apart = with_entry_elsewhere _ apart

  pub terminate_elsewhere :
      (kill_ok : Bool) (meanwhile : Runtime S → Runtime S)
      → bytes_eq id other ≡ false
      → Map.get (terminate m id kill_ok meanwhile).0.shells other ≡ Map.get m.shells other
  unfolding terminate
  terminate_elsewhere kill_ok meanwhile apart = with_entry_elsewhere _ apart

pub resize_elsewhere :
    (tm : TerminalModel) (m : ShellManager tm.Screen) (id other : ShellId) (cols rows : ℕ)
    (resize_ok : Bool)
    → bytes_eq id other ≡ false
    → Map.get (resize tm m id cols rows resize_ok).0.shells other ≡ Map.get m.shells other
unfolding resize
resize_elsewhere tm m id other cols rows resize_ok apart =
    elim (Bool-cases (cols == 0 || rows == 0)) [
      | inl nothing ↦ ground (arith, nothing)
      | inr sized ↦ rw sized (with_entry_elsewhere m id other _ apart)
    ]
