-- ===== src/Conn/Attachments/Forwarder.antt =====
-- crates/daemon/src/conn.rs: the thread that forwards the events of one attachment to the writer.
use holdfast.Base.{if◌then◌else◌, ℕ, zero, suc, Bool, true, false, not, ◌||◌, List, [], ◌∷◌}
use holdfast.Session.Types.{AttachmentEvent}
use holdfast.Messages.{ErrorCode, Msg, Envelope}
use holdfast.Conn.Replies.{respond, error_envelope}

pub event_envelope : AttachmentEvent → Envelope
event_envelope (AttachmentEvent.output bytes) = respond 0 (Msg.terminal_output bytes)
event_envelope (AttachmentEvent.exit_event exit) =
    respond 0 (Msg.shell_exited exit.exit_code (not exit.success))

pub is_exit : AttachmentEvent → Bool
is_exit (AttachmentEvent.output bytes) = false
is_exit (AttachmentEvent.exit_event exit) = true

pub too_slow : Envelope
too_slow =
    error_envelope 0 ErrorCode.too_slow "attachment dropped: output overran the slow-consumer bound"
      true

-- The events of a channel that is then closed, for a writer that takes `room` envelopes; `exited` says
-- whether an exit has been among the events.
pub forward_events : Bool → ℕ → List AttachmentEvent → List Envelope
forward_events exited zero events = []
forward_events exited (suc room) [] = if exited then [] else too_slow ∷ []
forward_events exited (suc room) (event ∷ events) =
    event_envelope event ∷ forward_events (exited || is_exit event) room events
