-- ===== src/Forwarding/Task.antt =====
-- crates/daemon/src/forward.rs: the task of one forward, as the steps of its two loops and of the connection
-- that hands it the client's frames. The socket and the timeouts are outside: a step may happen or not.
use holdfast.Base.{
  leb, ◌==◌, if◌then◌else◌, Bytes, length, ◌≡◌, refl, Bool, true, false, not, ◌&&◌, ◌||◌, Option,
  none, some, List, ◌∷◌, arith,
}
use holdfast.Messages.{Envelope}
use holdfast.Forwarding.Binding.{ForwardBinding, spawn, offer_input, offer_ack, routed, message}

-- `let upstream`: connecting, in `input_rx.recv()`, or writing a frame (`none` is the EOF) to the socket.
pub data Upstream : Type 0 where
  connecting awaiting_input shut : Upstream
  writing : Option Bytes → Upstream

-- `let downstream`: in the `select!` of a read and an acknowledgement, or in `ack_rx.recv()` after a frame.
pub data Downstream : Type 0 where
  not_yet reading shut : Downstream
  awaiting_ack : (eof : Bool) → Downstream

pub record Forward : Type 0 where
  pub binding : ForwardBinding
  pub upstream : Upstream
  pub downstream : Downstream

unfoldable pub spawned : Forward
spawned = record {
  binding = spawn;
  upstream = Upstream.connecting;
  downstream = Downstream.not_yet;
}

pub data Step (f : Forward) : Forward → Type 0 where
  client_frame :
      (envelope : Envelope) → Step f (record f { binding = (message f.binding envelope).0 })
  -- `ready.store(true)`
  connected :
      f.upstream ≡ Upstream.connecting
      → f.downstream ≡ Downstream.not_yet
      → Step f (record f {
        binding = record f.binding { input_ready = true };
        upstream = Upstream.awaiting_input;
        downstream = Downstream.reading;
      })
  -- `input_rx.recv()`
  taken :
      (frame : Option Bytes) (rest : List (Option Bytes))
      → f.upstream ≡ Upstream.awaiting_input
      → f.binding.input ≡ frame ∷ rest
      → Step f (record f {
        binding = record f.binding { input = rest };
        upstream = Upstream.writing frame;
      })
  -- `write_all`, `ready.store(true)` and the acknowledgement to the client
  written :
      (bytes : Bytes)
      → f.upstream ≡ Upstream.writing (some bytes)
      → Step f (record f {
        binding = record f.binding { input_ready = true };
        upstream = Upstream.awaiting_input;
      })
  -- `shutdown` and `input_rx.close()`
  input_shut :
      f.upstream ≡ Upstream.writing none
      → Step f
          (record f { binding = record f.binding { input_open = false }; upstream = Upstream.shut })
  -- `read`, `expected.store(true)` and the frame to the client
  frame_read :
      (eof : Bool)
      → f.downstream ≡ Downstream.reading
      → Step f (record f {
        binding = record f.binding { ack_expected = true };
        downstream = Downstream.awaiting_ack eof;
      })
  -- `ack_rx.recv()`
  acknowledged :
      (eof : Bool)
      → f.downstream ≡ Downstream.awaiting_ack eof
      → f.binding.acks ≡ 1
      → Step f (record f {
        binding = record f.binding { acks = 0; acks_open = f.binding.acks_open && not eof };
        downstream = if eof then Downstream.shut else Downstream.reading;
      })
  -- The task is over, whatever the reason, and its receivers are gone.
  over : Step f (record f { binding = record f.binding { input_open = false; acks_open = false } })

pub data Reachable : Forward → Type 0 where
  initial : Reachable spawned
  further : (f f' : Forward) → Reachable f → Step f f' → Reachable f'

-- Which acknowledgements can be there in which state of the downstream loop: none while it reads, and after a
-- frame one that is still to come or one that is queued, unless the task has stopped receiving them.
pub acks_fit : ForwardBinding → Downstream → Bool
acks_fit b (Downstream.awaiting_ack eof) =
    if b.ack_expected then b.acks == 0 else leb b.acks 1 && (b.acks == 1 || not b.acks_open)
acks_fit b Downstream.shut = not b.ack_expected && b.acks == 0 && not b.acks_open
acks_fit b d = not b.ack_expected && b.acks == 0

-- Which frames can be there in which state of the upstream loop: while it waits for one, either none is queued
-- and the task is ready or one is queued, unless the task has stopped receiving them; otherwise none.
pub input_fits : ForwardBinding → Upstream → Bool
input_fits b Upstream.connecting = not b.input_ready && length b.input == 0
input_fits b Upstream.awaiting_input =
    if b.input_ready
    then length b.input == 0
    else leb (length b.input) 1 && (length b.input == 1 || not b.input_open)
input_fits b (Upstream.writing frame) = not b.input_ready && length b.input == 0
input_fits b Upstream.shut = not b.input_ready && length b.input == 0 && not b.input_open

record IsFlowing (f : Forward) : Type 0 where
  input : input_fits f.binding f.upstream ≡ true
  acks : acks_fit f.binding f.downstream ≡ true

client_frame-IsFlowing :
    (f : Forward) (envelope : Envelope)
    → IsFlowing f
    → IsFlowing (record f { binding = (message f.binding envelope).0 })
unfolding message routed offer_input offer_ack input_fits acks_fit
client_frame-IsFlowing f envelope v = ground (arith, v.input, v.acks)

Step-IsFlowing : (f f' : Forward) → Step f f' → IsFlowing f → IsFlowing f'
unfolding input_fits acks_fit
Step-IsFlowing f _ (client_frame envelope) v = client_frame-IsFlowing f envelope v
Step-IsFlowing f _ (connected idle unread) v = ground (arith, idle, unread, v.input, v.acks)
Step-IsFlowing f _ (taken frame rest idle queued) v = ground (arith, idle, queued, v.input, v.acks)
Step-IsFlowing f _ (written bytes busy) v = ground (arith, busy, v.input, v.acks)
Step-IsFlowing f _ (input_shut busy) v = ground (arith, busy, v.input, v.acks)
Step-IsFlowing f _ (frame_read eof idle) v = ground (arith, idle, v.input, v.acks)
Step-IsFlowing f _ (acknowledged eof waiting there) v =
    ground (arith, waiting, there, v.input, v.acks)
Step-IsFlowing f _ over v = ground (arith, v.input, v.acks)

Reachable-IsFlowing : (f : Forward) → Reachable f → IsFlowing f
unfolding spawned spawn input_fits acks_fit
Reachable-IsFlowing _ initial = record { input = refl; acks = refl }
Reachable-IsFlowing _ (further f f' r s) = Step-IsFlowing f f' s (Reachable-IsFlowing f r)

-- Whatever the client sends and the sockets do, a client's frame is accepted exactly when the task is ready for
-- one and still receives, and an acknowledgement exactly when one is expected and still received: a full queue
-- never turns one away. While the task receives and waits for a frame, it is ready or has one queued, and while
-- it connects, writes or has shut its input it is not ready and none is queued. While it receives and waits
-- for an acknowledgement, one is expected or one is queued, and while it connects, reads or has shut its output
-- none is. What is shut no longer receives.
pub forward_flow :
    (f : Forward) (frame : Option Bytes)
    → Reachable f
    → ((offer_input f.binding frame).1 ≡ f.binding.input_ready && f.binding.input_open)
      × ((offer_ack f.binding).1 ≡ f.binding.ack_expected && f.binding.acks_open)
      × (input_fits f.binding f.upstream ≡ true)
      × (acks_fit f.binding f.downstream ≡ true)
unfolding offer_input offer_ack input_fits acks_fit
forward_flow f frame r =
    let v = Reachable-IsFlowing f r in
    (ground (arith, v.input), ground (arith, v.acks), v.input, v.acks)
