-- ===== src/Session/Pump.antt =====
-- crates/session-core/src/lib.rs: `pump`, the thread that carries a shell's output to its terminal
-- model and its attachments, and what an attachment's client takes from its queue.
pub mod Consistency
pub mod Delivery
use holdfast.Base.{
  ltb, if◌then◌else◌, Bytes, length, take, drop, ◌>>=◌, ◌>>◌, ok, ℕ, suc, ◌+◌, ◌-◌, ◌*◌, ◌/◌, min,
  ap, false, not, ◌&&◌, Option, none, some, [], ◌∷◌, ◌++◌,
}
use holdfast.Base.Map
use holdfast.Base.Map.{Map, nat_key}
use holdfast.Session.Types.{
  ExitSummary, TerminalModel, AttachmentEvent, PtyProcess, Sender, Runtime, exited, output,
  exit_event,
}

-- `try_send` on a `sync_channel(capacity)`: nothing if the channel is full or disconnected.
pub try_send : ℕ → Sender → AttachmentEvent → Option Sender
try_send capacity s event =
    if s.connected && ltb (length s.queued) capacity
    then some (record s { queued = s.queued ++ event ∷ [] })
    else none

-- The attachments that took the event; those that did not are dropped.
pub fan_out : ℕ → AttachmentEvent → Map ℕ Sender → Map ℕ Sender
fan_out capacity event [] = []
fan_out capacity event ((id, s) ∷ rest) =
    let kept = fan_out capacity event rest in
    elim (try_send capacity s event) [ none ↦ kept | some s' ↦ (id, s') ∷ kept ]

pub pump_chunk : (tm : TerminalModel) → ℕ → Runtime tm.Screen → Bytes → Runtime tm.Screen
pump_chunk tm capacity rt chunk = record rt {
  model = tm.feed rt.model chunk;
  attachments = fan_out capacity (output chunk) rt.attachments;
}

abbrev lost : ExitSummary
lost = record { success = false; exit_code = 255 }

-- What every attachment's queue holds after the last event, which a full queue does not take.
pub drained : ℕ → AttachmentEvent → Map ℕ Sender → Map ℕ Sender
drained capacity event [] = []
drained capacity event ((id, s) ∷ rest) =
    (id, elim (try_send capacity s event) [ none ↦ s | some s' ↦ s' ]) ∷ drained capacity event rest

-- The exit that is recorded, from the process and the status it was reaped with.
pub exit_status : Option PtyProcess → Option ExitSummary → ExitSummary
exit_status none waited = lost
exit_status (some p) none = lost
exit_status (some p) (some status) = status

-- End of output: `waited` is the reaped child's status. The second component is the queues that the
-- clients still read.
pub pump_eof : {S : Type 0} → ℕ → Runtime S → Option ExitSummary → Runtime S × Map ℕ Sender
pump_eof capacity rt waited =
    let exit = exit_status rt.process waited in
    (
      record rt { process = none; state = exited; exit = some exit; attachments = [] },
      drained capacity (exit_event exit) rt.attachments,
    )
