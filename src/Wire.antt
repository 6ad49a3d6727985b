-- ===== src/Wire.antt =====
-- crates/daemon/src/wire.rs: a WebSocket message is a varint channel and exactly one frame.
pub mod Varint
pub mod Message
mod Examples
use holdfast.Base.{
  leb, ◌==◌, if◌then◌else◌, Bytes, drop, all, Result, ◌>>◌, ok, err, ℕ, zero, suc, ◌+◌, ◌-◌, ◌*◌,
  ◌/◌, ◌%◌, ◌^◌, min, max, not, Option, none, some, [], ◌∷◌, ◌++◌,
}
use holdfast.Protocol.Framing
use holdfast.Protocol.Framing.{
  Codec, FrameError, FrameDecoder, encode_delimited, extend, next_frame, buffered,
}

-- `v & 0x7f` is `v % 128` and `v >> 7` is `v / 128`. The fuel is spent one unit a round.
unfoldable pub encode_loop : ℕ → ℕ → Bytes
encode_loop zero v = []
encode_loop (suc fuel) v =
    let rest = encode_loop fuel (v / 128) in
    if v / 128 == 0 then (v % 128) ∷ [] else (v % 128 + 128) ∷ rest

-- A `u64` has at most ten groups of seven bits.
unfoldable pub encode_varint : ℕ → Bytes
encode_varint v = encode_loop 10 v

-- The bits of `value` are below `shift`, so that `|=` adds; a shift of a `u64` drops what passes bit 63.
unfoldable pub decode_loop : Bytes → ℕ → ℕ → ℕ → Option (ℕ × ℕ)
decode_loop [] value shift i = none
decode_loop (b ∷ rest) value shift i =
    let value' = value + b % 128 * 2 ^ shift % 2 ^ 64 in
    let more = decode_loop rest value' (shift + 7) (i + 1) in
    if leb 64 shift then none else if b / 128 % 2 == 0 then some (value', i + 1) else more

unfoldable pub decode_varint : Bytes → Option (ℕ × ℕ)
decode_varint buf = decode_loop buf 0 0 0

pub data WireError (D : Type 0) : Type 0 where
  bad_varint not_exactly_one_frame : WireError D
  frame : FrameError D → WireError D

module _ (codec : Codec) where
  open codec use {DecodeError}

  unfoldable pub encode_message : ℕ → codec.Message → ℕ → Result Bytes (WireError DecodeError)
  encode_message channel envelope max_frame_bytes =
      elim (encode_delimited codec envelope max_frame_bytes) [
        | err e ↦ err (frame e)
        | ok framed ↦ ok (encode_varint channel ++ framed)
      ]

  -- What the decoder says once it has all the bytes.
  unfoldable pub one_frame : FrameDecoder → Result codec.Message (WireError DecodeError)
  one_frame d =
      let (d', result) = next_frame codec d in
      elim result [
        | err e ↦ err (frame e)
        | ok none ↦ err not_exactly_one_frame
        | ok (some envelope) ↦
            if not (buffered d' == 0) then err not_exactly_one_frame else ok envelope
      ]

  unfoldable pub decode_frame : Bytes → ℕ → Result codec.Message (WireError DecodeError)
  decode_frame bytes max_frame_bytes =
      let (d, result) = extend codec (Framing.new max_frame_bytes) bytes in
      elim result [ err e ↦ err (frame e) | ok _ ↦ one_frame d ]

  unfoldable pub decode_message : Bytes → ℕ → Result (ℕ × codec.Message) (WireError DecodeError)
  decode_message bytes max_frame_bytes = elim (decode_varint bytes) [
    | none ↦ err bad_varint
    | some (channel, used) ↦ elim (decode_frame (drop used bytes) max_frame_bytes) [
      | err e ↦ err e
      | ok envelope ↦ ok (channel, envelope)
    ]
  ]
