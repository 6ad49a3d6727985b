-- ===== src/Forwarding/Binding.antt =====
-- crates/daemon/src/forward.rs: `ForwardBinding`, the connection's end of one forward. The task at its
-- other end is a step relation of its own.
use holdfast.Base.{
  leb, ◌==◌, if◌then◌else◌, Bytes, length, ℕ, Bool, true, false, not, ◌&&◌, ◌||◌, Option, none,
  some, List, [], ◌∷◌,
}
use holdfast.Protocol.Constants.{forward_data_bytes_max}
use holdfast.Messages.{Msg, Envelope}

-- Two channels of capacity 1, whether their receivers are still there, and the two flags.
pub record ForwardBinding : Type 0 where
  pub input : List (Option Bytes)
  pub input_open : Bool
  pub acks : ℕ
  pub acks_open : Bool
  pub input_ready : Bool
  pub ack_expected : Bool
  pub aborted : Bool

-- `spawn`, before its task has run.
unfoldable pub spawn : ForwardBinding
spawn = record {
  input = [];
  input_open = true;
  acks = 0;
  acks_open = true;
  input_ready = false;
  ack_expected = false;
  aborted = false;
}

unfoldable pub abort : ForwardBinding → ForwardBinding
abort b = record b { aborted = true }

-- `input_ready.swap(false) && input.try_send(data).is_ok()`
unfoldable pub offer_input : ForwardBinding → Option Bytes → ForwardBinding × Bool
offer_input b data' =
    let swapped = record b { input_ready = false } in
    if b.input_ready && b.input_open && length b.input == 0
    then (record swapped { input = data' ∷ [] }, true)
    else (swapped, false)

-- `ack_expected.swap(false) && acks.try_send(()).is_ok()`
unfoldable pub offer_ack : ForwardBinding → ForwardBinding × Bool
offer_ack b =
    let swapped = record b { ack_expected = false } in
    if b.ack_expected && b.acks_open && b.acks == 0
    then (record swapped { acks = 1 }, true)
    else (swapped, false)

unfoldable pub routed : ForwardBinding → Option Msg → ForwardBinding × Bool
routed b (some (Msg.tcp_forward_data bytes)) =
    if not (length bytes == 0) && leb (length bytes) forward_data_bytes_max
    then offer_input b (some bytes)
    else (b, false)
routed b (some Msg.tcp_forward_eof) = offer_input b none
routed b (some Msg.tcp_forward_ack) = offer_ack b
routed b _ = (b, false)

unfoldable pub message : ForwardBinding → Envelope → ForwardBinding × Bool
message b env =
    if not (env.request_id == 0)
      || not (length env.server_id == 0)
      || not (length env.shell_id == 0)
    then (b, false)
    else routed b env.message
